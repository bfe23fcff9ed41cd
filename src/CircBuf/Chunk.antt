-- ===== src/CircBuf/Chunk.antt =====
-- The bytes that a ring holds, and what one `memcpy` with its index update does to them.
use libsimple.Base.{
  ℕ, ◌+◌, ◌-◌, ◌%◌, ◌≤◌, ◌<◌, ◌≡◌, ap, ◌∙◌, ◌++◌, append-nil, append_assoc, Bytes, length, slice,
  store, length-append, length-store, length-slice, slice-add, slice-store_self, slice-store_before,
  slice-store_after, arith, ltb, leb, if◌then◌else◌,
}
use libsimple.CircBuf.{CircBuf, circ_cnt_to_end, circ_space_to_end, take_chunk, put_chunk}
use libsimple.CircBuf.Bounds.{IsValid}
use libsimple.CircBuf.Counts.{mod_once, circ_cnt_to_end-cases, circ_space_to_end-cases}

-- From `tail` to `head`, oldest first; round the end of the storage where `head` stands below.
abbrev pub span : Bytes → ℕ → ℕ → ℕ → Bytes
span buf head tail size =
    if leb tail head
    then slice buf tail (head - tail)
    else slice buf tail (size - tail) ++ slice buf 0 head

abbrev pub contents : CircBuf → Bytes
contents c = span c.buf c.head c.tail c.size

-- The index after `n` further bytes.
pub next_index :
    (i n size : ℕ)
    → i < size
    → i + n ≤ size
    → (i + n) % size ≡ (if ltb (i + n) size then i + n else 0)
next_index i n size h k = ground (arith, mod_once (i + n) size (omega arith))

pub length-contents :
    (c : CircBuf)
    → IsValid c
    → length (contents c)
      ≡ (if leb c.tail c.head then c.head - c.tail else c.head + c.size - c.tail)
length-contents c v = ground (
  arith,
  length-slice c.buf c.tail (c.head - c.tail),
  length-slice c.buf c.tail (c.size - c.tail),
  length-slice c.buf 0 c.head,
  length-append (slice c.buf c.tail (c.size - c.tail)) (slice c.buf 0 c.head),
)

-- `n` bytes as the first `m` and the rest.
slice_split : (b : Bytes) (i m n : ℕ) → m ≤ n → slice b i n ≡ slice b i m ++ slice b (i + m) (n - m)
slice_split b i m n h =
    let e : n ≡ m + (n - m) = omega arith in ap (slice b i) e ∙ slice-add b i m (n - m)

-- A `memcpy` out of the ring of no more than what stands before the end of the storage.
module _ (c : CircBuf) (v : IsValid c) (n : ℕ) (h : n ≤ circ_cnt_to_end c.head c.tail c.size) where
  open c use {buf, head, tail, size}

  pub take_chunk-IsValid : IsValid (take_chunk c n).1
  take_chunk-IsValid =
      ground
        (arith, circ_cnt_to_end-cases head tail size v.head_in v.tail_in, next_index tail n size)

  pub take_chunk-contents : contents c ≡ (take_chunk c n).0 ++ contents (take_chunk c n).1
  take_chunk-contents = ground (
    arith,
    circ_cnt_to_end-cases head tail size v.head_in v.tail_in,
    next_index tail n size v.tail_in,
    slice_split buf tail n (head - tail),
    slice_split buf tail n (size - tail),
    append_assoc (slice buf tail n) (slice buf (tail + n) (size - tail - n)) (slice buf 0 head),
  )

-- What was there from `i` on up to the write, and then the bytes written.
slice_written :
    (b : Bytes) (from : Bytes) (head i n : ℕ)
    → i ≤ head
    → head + length from ≤ length b
    → i + n ≡ head + length from
    → slice (store b head from) i n ≡ slice b i (head - i) ++ from
slice_written b from head i n h k e =
    let at : i + (head - i) ≡ head = omega arith in
    let left : n - (head - i) ≡ length from = omega arith in
    slice_split (store b head from) i (head - i) n (omega arith)
    ∙ rw (at, left, slice-store_self b head from k)
        (ap (◌++ from) (slice-store_before b head from i (head - i) (omega arith)))

-- A `memcpy` into the ring of no more than there is room for before the end of the storage.
module _ (c : CircBuf) (v : IsValid c) (from : Bytes)
    (h : length from ≤ circ_space_to_end c.head c.tail c.size) where
  open c use {buf, head, tail, size}

  pub put_chunk-IsValid : IsValid (put_chunk c from)
  put_chunk-IsValid = ground (
    arith,
    circ_space_to_end-cases head tail size v.head_in v.tail_in,
    length-store buf head from,
    next_index head (length from) size,
  )

  pub put_chunk-contents : contents (put_chunk c from) ≡ contents c ++ from
  put_chunk-contents = ground (
    arith,
    circ_space_to_end-cases head tail size v.head_in v.tail_in,
    next_index head (length from) size v.head_in,
    slice-store_after buf head from tail (size - tail),
    slice_written buf from head 0 (head + length from),
    slice_written buf from head tail (head + length from - tail),
    slice_written buf from head tail (size - tail),
    append_assoc (slice buf tail (size - tail)) (slice buf 0 head) from,
    append-nil (slice buf tail (head - tail) ++ from),
  )
