-- ===== src/Base/Int.antt =====
-- Signed integers over the native numbers: `negsuc n` is -(n + 1).
use Prim.Native.Nat.{ℕ, suc, ◌+◌, ◌-◌, ◌^◌, ◌≤◌}
use mathlib.Core.Path.{◌≡◌, refl, ap, ◌∙◌}
use native.Mathlib.Omega.{arith}
use mathlib.Core.Bool.{Bool, true, false}
use mathlib.Core.Logic.{inl, inr}
use libsimple.Base.Tests.{Bool-cases, ltb, leb, ◌==◌, if◌then◌else◌}

pub data ℤ : Type 0 where
  pos : ℕ → ℤ
  negsuc : ℕ → ℤ

-- The `int` -1 by which the code reports a failure.
abbrev pub minus_one : ℤ
minus_one = negsuc 0

-- a - b, as an integer.
abbrev pub sub_ℕ : ℕ → ℕ → ℤ
sub_ℕ a b = if leb b a then pos (a - b) else negsuc (b - a - 1)

abbrev pub is_positive : ℤ → Bool
is_positive (pos n) = ltb 0 n
is_positive (negsuc n) = false

-- Whether an `int` is the number `n`.
abbrev pub eq_ℕ : ℤ → ℕ → Bool
eq_ℕ (pos m) n = m == n
eq_ℕ (negsuc m) n = false

-- The `int` that a pattern of 32 bits stands for.
abbrev pub signed32 : ℕ → ℤ
signed32 w = if ltb w (2 ^ 31) then pos w else negsuc (2 ^ 32 - w - 1)

abbrev pub pos_part : ℤ → ℕ
pos_part (pos n) = n
pos_part (negsuc n) = 0

abbrev pub neg_part : ℤ → ℕ
neg_part (pos n) = 0
neg_part (negsuc n) = suc n

infixl 65 ◌+ℤ◌ ◌-ℤ◌
infix 50 ◌≤ℤ◌
unfoldable pub ◌+ℤ◌ : ℤ → ℤ → ℤ
a +ℤ b = sub_ℕ (pos_part a + pos_part b) (neg_part a + neg_part b)

unfoldable pub ◌-ℤ◌ : ℤ → ℤ → ℤ
a -ℤ b = sub_ℕ (pos_part a + neg_part b) (neg_part a + pos_part b)

abbrev pub ◌≤ℤ◌ : ℤ → ℤ → Type 0
a ≤ℤ b = pos_part a + neg_part b ≤ pos_part b + neg_part a

abbrev pub ltb_ℤ : ℤ → ℤ → Bool
ltb_ℤ a b = ltb (pos_part a + neg_part b) (pos_part b + neg_part a)

unfoldable pub eq_ℤ : ℤ → ℤ → Bool
eq_ℤ (pos m) (pos n) = m == n
eq_ℤ (negsuc m) (negsuc n) = m == n
eq_ℤ (pos m) (negsuc n) = false
eq_ℤ (negsuc m) (pos n) = false

-- the parts of a difference, and when two differences agree
pub sub_ℕ-parts : (a b : ℕ) → (pos_part (sub_ℕ a b) ≡ a - b) × (neg_part (sub_ℕ a b) ≡ b - a)
sub_ℕ-parts a b = elim (Bool-cases (leb b a)) [
  | inl le ↦ rw le (refl, ground (arith, le))
  | inr gt ↦ rw gt (ground (arith, gt), ground (arith, gt))
]

pub sub_ℕ_cong : (a b c d : ℕ) → a + d ≡ c + b → sub_ℕ a b ≡ sub_ℕ c d
sub_ℕ_cong a b c d h = elim (Bool-cases (leb b a)) [
  | inl le ↦
      let le' : leb d c ≡ true = ground (arith, le, h) in
      rw (le, le') (ap pos (ground (arith, le, h)))
  | inr gt ↦
      let gt' : leb d c ≡ false = ground (arith, gt, h) in
      rw (gt, gt') (ap negsuc (ground (arith, gt, h)))
]

+ℤ-sub_ℕ : (a b c d : ℕ) → sub_ℕ a b +ℤ sub_ℕ c d ≡ sub_ℕ (a + c) (b + d)
unfolding ◌+ℤ◌
+ℤ-sub_ℕ a b c d =
    let (p, n) = sub_ℕ-parts a b in
    let (p', n') = sub_ℕ-parts c d in
    rw (p, n, p', n') (sub_ℕ_cong (a - b + (c - d)) (b - a + (d - c)) (a + c) (b + d) (omega arith))

-- one step after another
pub chain : (f p q : ℤ) → (p -ℤ f) +ℤ (q -ℤ p) ≡ q -ℤ f
unfolding ◌-ℤ◌
chain f p q =
    +ℤ-sub_ℕ (pos_part p + neg_part f) (neg_part p + pos_part f) (pos_part q + neg_part p)
      (neg_part q + pos_part p)
    ∙ sub_ℕ_cong _ _ _ _ (omega arith)

pub no_way : (p : ℤ) → p -ℤ p ≡ pos 0
unfolding ◌-ℤ◌
no_way p = sub_ℕ_cong (pos_part p + neg_part p) (neg_part p + pos_part p) 0 0 (omega arith)

-- an integer from its parts
pub sub_ℕ-pos_part : (a : ℤ) → sub_ℕ (pos_part a) (neg_part a) ≡ a
sub_ℕ-pos_part (pos n) =
    let above : leb 0 n ≡ true = ground arith in rw above (ap pos (omega arith))
sub_ℕ-pos_part (negsuc n) =
    let below : leb (suc n) 0 ≡ false = ground arith in rw below (ap negsuc (omega arith))

-- from one place, the way to another leads there
pub there : (a b : ℤ) → a +ℤ (b -ℤ a) ≡ b
unfolding ◌+ℤ◌ ◌-ℤ◌
there a b =
    let (p, n) = sub_ℕ-parts (pos_part b + neg_part a) (neg_part b + pos_part a) in
    rw (p, n) (sub_ℕ_cong _ _ (pos_part b) (neg_part b) (omega arith)) ∙ sub_ℕ-pos_part b
