-- ===== src/CircBuf/Session.antt =====
-- Any sequence of calls on a ring, against the same calls on the bounded queue of CircBuf/Spec.
use libsimple.Base.{ℕ, ◌+◌, ◌-◌, ◌≤◌, ◌<◌, ◌≡◌, refl, ap₂, List, [], ◌∷◌, Bytes, length, arith}
use libsimple.CircBuf.{
  CircBuf, create, read, write, get_data_cnt, get_space_cnt, circ_cnt_to_end, circ_space_to_end,
}
use libsimple.CircBuf.Bounds.{IsValid, create-IsValid}
use libsimple.CircBuf.Chunk.{contents, length-contents}
use libsimple.CircBuf.Counts.{
  cnt-cases, space-cases, circ_cnt_to_end-cases, circ_space_to_end-cases,
}
use libsimple.CircBuf.Read.{read_refines}
use libsimple.CircBuf.Spec.{Queue, dequeue, enqueue}
use libsimple.CircBuf.Write.{write_refines}

-- The calls that a client can make, and what it sees of each.
pub data Op : Type 0 where
  put : Bytes → Op
  get : ℕ → Op
  data_cnt space_cnt : Op

pub data Reply : Type 0 where
  stored : ℕ → Reply
  got : Bytes → ℕ → Reply
  count : ℕ → Reply

unfoldable pub run : CircBuf → List Op → List Reply
run c [] = []
run c (put from ∷ ops) = let (k, c') = write c from in stored k ∷ run c' ops
run c (get n ∷ ops) = let (out, k, c') = read c n in got out k ∷ run c' ops
run c (data_cnt ∷ ops) = count (get_data_cnt c) ∷ run c ops
run c (space_cnt ∷ ops) = count (get_space_cnt c) ∷ run c ops

module _ (capacity : ℕ) where
  unfoldable pub run_queue : Queue → List Op → List Reply
  run_queue q [] = []
  run_queue q (put from ∷ ops) =
      let (k, q') = enqueue capacity q from in stored k ∷ run_queue q' ops
  run_queue q (get n ∷ ops) = let (out, k, q') = dequeue q n in got out k ∷ run_queue q' ops
  run_queue q (data_cnt ∷ ops) = count (length q) ∷ run_queue q ops
  run_queue q (space_cnt ∷ ops) = count (capacity - length q) ∷ run_queue q ops

get_data_cnt-length : (c : CircBuf) → IsValid c → get_data_cnt c ≡ length (contents c)
unfolding get_data_cnt
get_data_cnt-length c v =
    ground (arith, cnt-cases c.head c.tail c.size v.head_in v.tail_in, length-contents c v)

get_space_cnt-length :
    (c : CircBuf) → IsValid c → get_space_cnt c ≡ c.size - 1 - length (contents c)
unfolding get_space_cnt
get_space_cnt-length c v = ground (
  arith,
  space-cases c.head c.tail c.size v.head_in v.tail_in,
  length-contents c v,
  v.head_in,
  v.tail_in,
)

-- No sequence of calls tells a valid ring of `size` slots from a queue of at most `size - 1` bytes
-- that starts with the contents of the ring.
pub run_refines :
    (ops : List Op) (c : CircBuf) → IsValid c → run c ops ≡ run_queue (c.size - 1) (contents c) ops
unfolding run run_queue
run_refines [] c v = refl
run_refines (put from ∷ ops) c v =
    let (e, v', s, _) = write_refines c from v in
    let (k, c') = write c from in rw (← e, run_refines ops c' v', s)
run_refines (get n ∷ ops) c v =
    let (e, v', s, _) = read_refines c n v in
    let (out, k, c') = read c n in rw (← e, run_refines ops c' v', s)
run_refines (data_cnt ∷ ops) c v =
    ap₂ (λ k r. count k ∷ r) (get_data_cnt-length c v) (run_refines ops c v)
run_refines (space_cnt ∷ ops) c v =
    ap₂ (λ k r. count k ∷ r) (get_space_cnt-length c v) (run_refines ops c v)

-- No sequence of calls tells a new ring of `size` slots, with at least one slot and a block of
-- `size + 1` bytes, from an empty queue of at most `size - 1` bytes, whatever was in the block.
pub run-create :
    (ops : List Op) (block : Bytes) (size : ℕ)
    → 0 < size
    → length block ≡ size + 1
    → run (create block size) ops ≡ run_queue (size - 1) [] ops
unfolding create
run-create ops block size p e = run_refines ops (create block size) (create-IsValid block size p e)

-- What a `memcpy` may copy up to the end of the storage stays inside its `size` bytes, on a valid
-- ring.
pub chunks_in_bounds :
    (c : CircBuf)
    → IsValid c
    → (c.tail + circ_cnt_to_end c.head c.tail c.size ≤ c.size)
      × (c.head + circ_space_to_end c.head c.tail c.size ≤ c.size)
chunks_in_bounds c v = ground (
  arith,
  circ_cnt_to_end-cases c.head c.tail c.size v.head_in v.tail_in,
  circ_space_to_end-cases c.head c.tail c.size v.head_in v.tail_in,
)
