-- ===== src/CircBuf/Bounds.antt =====
-- The representation invariant of a ring, for the arithmetic of circ_buf.c.
use libsimple.Base.{ℕ, ◌+◌, ◌<◌, ◌≡◌, Bytes, length, arith}
use libsimple.CircBuf.{CircBuf, create, get_data_cnt, get_space_cnt}
use libsimple.CircBuf.Counts.{cnt-cases, space-cases}

-- The block has the `size + 1` bytes that were asked for, and both indices are below `size`.
pub record IsValid (c : CircBuf) : Type 0 where
  pub storage : length c.buf ≡ c.size + 1
  pub head_in : c.head < c.size
  pub tail_in : c.tail < c.size

pub create-IsValid :
    (block : Bytes) (size : ℕ) → 0 < size → length block ≡ size + 1 → IsValid (create block size)
unfolding create
create-IsValid block size p e = ground arith

-- On a valid ring the number of bytes held, the number that can be written and 1 add up to `size`.
pub get_data_cnt-add-get_space_cnt :
    (c : CircBuf) → IsValid c → get_data_cnt c + get_space_cnt c + 1 ≡ c.size
unfolding get_data_cnt get_space_cnt
get_data_cnt-add-get_space_cnt c v = ground (
  arith,
  cnt-cases c.head c.tail c.size v.head_in v.tail_in,
  space-cases c.head c.tail c.size v.head_in v.tail_in,
)
