-- ===== src/CircBuf/Counts.antt =====
-- The counts of circ_buf.c by cases on where `head` and `tail` stand, without `%`.
use native.Mathlib.Nat.{mod-eq_of_lt, mod-eq-sub-mod}
use native.Mathlib.Decide.{dec_lt}
use libsimple.Base.{ℕ, ◌+◌, ◌-◌, ◌%◌, ◌<◌, ◌≡◌, arith, ltb, leb, if◌then◌else◌}
use libsimple.CircBuf.{cnt, space, circ_cnt_to_end, circ_space_to_end}

-- `x % n` for an `x` that has gone round at most once.
pub mod_once : (x n : ℕ) → x < n + n → x % n ≡ (if ltb x n then x else x - n)
mod_once x n h = elim (dec_lt x n) [
  | yes p ↦ ground (arith, mod-eq_of_lt p)
  | no p ↦ ground (
    arith,
    mod-eq-sub-mod {n = x} {m = n} (omega arith),
    mod-eq_of_lt {n = x - n} {m = n} (omega arith),
  )
]

module _ (head tail size : ℕ) (hh : head < size) (ht : tail < size) where
  pub cnt-cases : cnt head tail size ≡ (if leb tail head then head - tail else head + size - tail)
  unfolding cnt
  cnt-cases = ground (arith, mod_once (head + size - tail) size (omega arith))

  pub space-cases :
      space head tail size ≡ (if ltb head tail then tail - head - 1 else tail + size - head - 1)
  unfolding space cnt
  space-cases = ground (arith, mod_once (tail + size - (head + 1)) size (omega arith))

  pub circ_cnt_to_end-cases :
      circ_cnt_to_end head tail size ≡ (if leb tail head then head - tail else size - tail)
  unfolding circ_cnt_to_end
  circ_cnt_to_end-cases = ground (arith, mod_once (head + (size - tail)) size (omega arith))

  pub circ_space_to_end-cases : circ_space_to_end head tail size ≡ (
      if ltb head tail
      then tail - head - 1
      else if ltb 0 tail
      then size - head
      else size - head - 1)
  unfolding circ_space_to_end
  circ_space_to_end-cases = ground (arith, mod_once (size - 1 - head + tail) size (omega arith))
