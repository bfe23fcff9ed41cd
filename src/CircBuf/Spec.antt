-- ===== src/CircBuf/Spec.antt =====
-- What a ring of `size` slots promises: a FIFO of at most `size - 1` bytes, oldest first.
use libsimple.Base.{ℕ, ◌-◌, min, ◌++◌, Bytes, length, take, drop}

abbrev pub Queue : Type 0
Queue = Bytes

-- Reads what there is, up to `n` bytes.
unfoldable pub dequeue : Queue → ℕ → Bytes × ℕ × Queue
dequeue q n = (take n q, min n (length q), drop n q)

-- Stores as many bytes as there is room for.
unfoldable pub enqueue : ℕ → Queue → Bytes → ℕ × Queue
enqueue capacity q from =
    let room = capacity - length q in (min (length from) room, q ++ take room from)
