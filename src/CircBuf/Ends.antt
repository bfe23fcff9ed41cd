-- ===== src/CircBuf/Ends.antt =====
-- How far the ends of the storage lie, against the number of bytes held.
use libsimple.Base.{ℕ, ◌-◌, ◌≤◌, ◌≡◌, Bytes, length, length-slice, arith}
use native.Mathlib.Nat.{le_refl}
use libsimple.CircBuf.{CircBuf, circ_cnt_to_end, circ_space_to_end, take_chunk, put_chunk}
use libsimple.CircBuf.Bounds.{IsValid}
use libsimple.CircBuf.Chunk.{
  contents, length-contents, take_chunk-IsValid, put_chunk-IsValid, next_index,
}
use libsimple.CircBuf.Counts.{circ_cnt_to_end-cases, circ_space_to_end-cases}

module _ (c : CircBuf) (v : IsValid c) where
  open c use {buf, head, tail, size}

  pub cnt_to_end-le-length : circ_cnt_to_end head tail size ≤ length (contents c)
  cnt_to_end-le-length =
      ground (arith, circ_cnt_to_end-cases head tail size v.head_in v.tail_in, length-contents c v)

  -- After a first chunk up to the end of the storage, the second one is all that is left.
  pub cnt_to_end-take_chunk :
      let c1 = (take_chunk c (circ_cnt_to_end head tail size)).1 in
      circ_cnt_to_end c1.head c1.tail c1.size ≡ length (contents c1)
  cnt_to_end-take_chunk =
      let n = circ_cnt_to_end head tail size in
      let c1 = (take_chunk c n).1 in
      let v1 : IsValid c1 = take_chunk-IsValid c v n (le_refl n) in
      ground (
        arith,
        circ_cnt_to_end-cases head tail size v.head_in v.tail_in,
        circ_cnt_to_end-cases c1.head c1.tail c1.size v1.head_in v1.tail_in,
        length-contents c1 v1,
        next_index tail n size,
      )

  pub length-take_chunk :
      (n : ℕ) → n ≤ circ_cnt_to_end head tail size → length (take_chunk c n).0 ≡ n
  length-take_chunk n h =
      length-slice buf tail n
        (ground (arith, v.storage, circ_cnt_to_end-cases head tail size v.head_in v.tail_in))

  pub space_to_end-le-room : circ_space_to_end head tail size ≤ size - 1 - length (contents c)
  space_to_end-le-room =
      ground
        (arith, circ_space_to_end-cases head tail size v.head_in v.tail_in, length-contents c v)

  pub space_to_end-put_chunk :
      (from : Bytes)
      → length from ≡ circ_space_to_end head tail size
      → let c1 = put_chunk c from in
        circ_space_to_end c1.head c1.tail c1.size ≡ size - 1 - length (contents c1)
  space_to_end-put_chunk from e =
      let c1 = put_chunk c from in
      let v1 : IsValid c1 = put_chunk-IsValid c v from (omega arith) in
      ground (
        arith,
        circ_space_to_end-cases head tail size v.head_in v.tail_in,
        circ_space_to_end-cases c1.head c1.tail c1.size v1.head_in v1.tail_in,
        length-contents c1 v1,
        next_index head (length from) size,
      )
