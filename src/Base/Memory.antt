-- ===== src/Base/Memory.antt =====
-- Blocks of memory: `slice b i n` is what a `memcpy` of `n` bytes out of `b + i` copies, and
-- `store b i xs` is the block after a `memcpy` of `xs` to `b + i`. A write past the end of the
-- block is dropped.
use Prim.Native.Nat.{ℕ, zero, suc, ◌+◌, ◌≤◌}
use mathlib.Core.Path.{◌≡◌, refl, ap, ◌∙◌}
use mathlib.Core.List.{List, [], ◌∷◌, ◌++◌}
use native.Mathlib.Omega.{arith}
use libsimple.Base.Lists.{length, take, drop, take-add, drop-drop, length-take, length-drop}

module _ {ℓ} {A : Type ℓ} where
  abbrev pub slice : List A → ℕ → ℕ → List A
  slice b i n = take n (drop i b)

  unfoldable pub store : List A → ℕ → List A → List A
  store b i [] = b
  store [] i (x ∷ xs) = []
  store (y ∷ b) zero (x ∷ xs) = x ∷ store b zero xs
  store (y ∷ b) (suc i) (x ∷ xs) = y ∷ store b i (x ∷ xs)

  pub length-store : (b : List A) (i : ℕ) (xs : List A) → length (store b i xs) ≡ length b
  unfolding store
  length-store b i [] = refl
  length-store [] i (x ∷ xs) = refl
  length-store (y ∷ b) zero (x ∷ xs) = ap suc (length-store b zero xs)
  length-store (y ∷ b) (suc i) (x ∷ xs) = ap suc (length-store b i (x ∷ xs))

  pub length-slice : (b : List A) (i n : ℕ) → i + n ≤ length b → length (slice b i n) ≡ n
  length-slice b i n h = omega (arith, length-take n (drop i b), length-drop i b)

  pub slice-add : (b : List A) (i m n : ℕ) → slice b i (m + n) ≡ slice b i m ++ slice b (i + m) n
  slice-add b i m n = take-add m n (drop i b) ∙ ap (λ r. slice b i m ++ take n r) (drop-drop i m b)

  pub slice-store_self :
      (b : List A) (i : ℕ) (xs : List A)
      → i + length xs ≤ length b
      → slice (store b i xs) i (length xs) ≡ xs
  unfolding store
  slice-store_self b i [] h = refl
  slice-store_self [] i (x ∷ xs) h = absurd (omega arith)
  slice-store_self (y ∷ b) zero (x ∷ xs) h = ap (◌∷◌ x) (slice-store_self b zero xs (omega arith))
  slice-store_self (y ∷ b) (suc i) (x ∷ xs) h = slice-store_self b i (x ∷ xs) (omega arith)

  -- A write leaves what stands before it, and what stands behind it.
  pub slice-store_before :
      (b : List A) (i : ℕ) (xs : List A) (j n : ℕ)
      → j + n ≤ i
      → slice (store b i xs) j n ≡ slice b j n
  unfolding store
  slice-store_before b i [] j n h = refl
  slice-store_before [] i (x ∷ xs) j n h = refl
  slice-store_before (y ∷ b) zero (x ∷ xs) zero zero h = refl
  slice-store_before (y ∷ b) zero (x ∷ xs) zero (suc n) h = absurd (omega arith)
  slice-store_before (y ∷ b) zero (x ∷ xs) (suc j) n h = absurd (omega arith)
  slice-store_before (y ∷ b) (suc i) (x ∷ xs) zero zero h = refl
  slice-store_before (y ∷ b) (suc i) (x ∷ xs) zero (suc n) h =
      ap (◌∷◌ y) (slice-store_before b i (x ∷ xs) zero n (omega arith))
  slice-store_before (y ∷ b) (suc i) (x ∷ xs) (suc j) n h =
      slice-store_before b i (x ∷ xs) j n (omega arith)

  drop-store :
      (b : List A) (i : ℕ) (xs : List A) (j : ℕ)
      → i + length xs ≤ j
      → drop j (store b i xs) ≡ drop j b
  unfolding store
  drop-store b i [] j h = refl
  drop-store [] i (x ∷ xs) j h = refl
  drop-store (y ∷ b) zero (x ∷ xs) zero h = absurd (omega arith)
  drop-store (y ∷ b) zero (x ∷ xs) (suc j) h = drop-store b zero xs j (omega arith)
  drop-store (y ∷ b) (suc i) (x ∷ xs) zero h = absurd (omega arith)
  drop-store (y ∷ b) (suc i) (x ∷ xs) (suc j) h = drop-store b i (x ∷ xs) j (omega arith)

  pub slice-store_after :
      (b : List A) (i : ℕ) (xs : List A) (j n : ℕ)
      → i + length xs ≤ j
      → slice (store b i xs) j n ≡ slice b j n
  slice-store_after b i xs j n h = ap (take n) (drop-store b i xs j h)
