-- ===== src/Base/Lists.antt =====
-- Lists measured and indexed by native numbers, and memory blocks read and written by pieces.
use Prim.Native.Nat.{ℕ, zero, suc, ◌+◌, ◌-◌, ◌≤◌, min}
use mathlib.Core.Path.{◌≡◌, refl, ap}
use mathlib.Core.List.{List, [], ◌∷◌, ◌++◌}
use native.Mathlib.Omega.{arith}

module _ {ℓ} {A : Type ℓ} where
  abbrev pub length : List A → ℕ
  length [] = 0
  length (x ∷ xs) = suc (length xs)

  abbrev pub take : ℕ → List A → List A
  take zero xs = []
  take (suc n) [] = []
  take (suc n) (x ∷ xs) = x ∷ take n xs

  abbrev pub drop : ℕ → List A → List A
  drop zero xs = xs
  drop (suc n) [] = []
  drop (suc n) (x ∷ xs) = drop n xs

  abbrev pub replicate : ℕ → A → List A
  replicate zero a = []
  replicate (suc n) a = a ∷ replicate n a

  pub length-append : (xs ys : List A) → length (xs ++ ys) ≡ length xs + length ys
  length-append [] ys = omega arith
  length-append (x ∷ xs) ys = omega (arith, length-append xs ys)

  pub length-take : (n : ℕ) (xs : List A) → length (take n xs) ≡ min n (length xs)
  length-take zero xs = omega arith
  length-take (suc n) [] = omega arith
  length-take (suc n) (x ∷ xs) = omega (arith, length-take n xs)

  pub length-drop : (n : ℕ) (xs : List A) → length (drop n xs) ≡ length xs - n
  length-drop zero xs = omega arith
  length-drop (suc n) [] = omega arith
  length-drop (suc n) (x ∷ xs) = omega (arith, length-drop n xs)

  pub length-replicate : (n : ℕ) (a : A) → length (replicate n a) ≡ n
  length-replicate zero a = refl
  length-replicate (suc n) a = ap suc (length-replicate n a)

  pub take-append-drop : (n : ℕ) (xs : List A) → take n xs ++ drop n xs ≡ xs
  take-append-drop zero xs = refl
  take-append-drop (suc n) [] = refl
  take-append-drop (suc n) (x ∷ xs) = rw (take-append-drop n xs)

  pub take_all : (n : ℕ) (xs : List A) → length xs ≤ n → take n xs ≡ xs
  take_all zero [] h = refl
  take_all zero (x ∷ xs) h = absurd (omega arith)
  take_all (suc n) [] h = refl
  take_all (suc n) (x ∷ xs) h = ap (◌∷◌ x) (take_all n xs (omega arith))

  pub drop_all : (n : ℕ) (xs : List A) → length xs ≤ n → drop n xs ≡ []
  drop_all zero [] h = refl
  drop_all zero (x ∷ xs) h = absurd (omega arith)
  drop_all (suc n) [] h = refl
  drop_all (suc n) (x ∷ xs) h = drop_all n xs (omega arith)

  -- `take` and `drop` at a boundary between two pieces.
  pub take_append_left : (n : ℕ) (xs ys : List A) → n ≤ length xs → take n (xs ++ ys) ≡ take n xs
  take_append_left zero xs ys h = refl
  take_append_left (suc n) [] ys h = absurd (omega arith)
  take_append_left (suc n) (x ∷ xs) ys h = ap (◌∷◌ x) (take_append_left n xs ys (omega arith))

  pub drop_append_left :
      (n : ℕ) (xs ys : List A) → n ≤ length xs → drop n (xs ++ ys) ≡ drop n xs ++ ys
  drop_append_left zero xs ys h = refl
  drop_append_left (suc n) [] ys h = absurd (omega arith)
  drop_append_left (suc n) (x ∷ xs) ys h = drop_append_left n xs ys (omega arith)

  pub take_append_right :
      (n k : ℕ) (xs ys : List A) → length xs + k ≡ n → take n (xs ++ ys) ≡ xs ++ take k ys
  take_append_right n k [] ys h = ap (λ m. take m ys) (omega arith)
  take_append_right zero k (x ∷ xs) ys h = absurd (omega arith)
  take_append_right (suc n) k (x ∷ xs) ys h = ap (◌∷◌ x) (take_append_right n k xs ys (omega arith))

  pub drop_append_right :
      (n k : ℕ) (xs ys : List A) → length xs + k ≡ n → drop n (xs ++ ys) ≡ drop k ys
  drop_append_right n k [] ys h = ap (λ m. drop m ys) (omega arith)
  drop_append_right zero k (x ∷ xs) ys h = absurd (omega arith)
  drop_append_right (suc n) k (x ∷ xs) ys h = drop_append_right n k xs ys (omega arith)

  pub take-nil : (n : ℕ) → take n [] ≡ []
  take-nil zero = refl
  take-nil (suc n) = refl

  pub drop-nil : (n : ℕ) → drop n [] ≡ []
  drop-nil zero = refl
  drop-nil (suc n) = refl

  -- `m + k` items are the first `m` and the `k` behind them.
  pub take-add : (m k : ℕ) (xs : List A) → take (m + k) xs ≡ take m xs ++ take k (drop m xs)
  take-add zero k xs = ap (λ j. take j xs) (omega arith)
  take-add (suc m) k [] = rw (take-nil (suc m + k), take-nil k)
  take-add (suc m) k (x ∷ xs) =
      let e : suc m + k ≡ suc (m + k) = omega arith in rw e (ap (◌∷◌ x) (take-add m k xs))

  pub drop-drop : (m k : ℕ) (xs : List A) → drop k (drop m xs) ≡ drop (m + k) xs
  drop-drop zero k xs = ap (λ j. drop j xs) (omega arith)
  drop-drop (suc m) k [] = rw (drop-nil (suc m + k), drop-nil k)
  drop-drop (suc m) k (x ∷ xs) =
      let e : suc m + k ≡ suc (m + k) = omega arith in rw e (drop-drop m k xs)

  pub take-append : (xs ys : List A) → take (length xs) (xs ++ ys) ≡ xs
  take-append [] ys = refl
  take-append (x ∷ xs) ys = ap (◌∷◌ x) (take-append xs ys)

  pub drop-append : (xs ys : List A) → drop (length xs) (xs ++ ys) ≡ ys
  drop-append [] ys = refl
  drop-append (x ∷ xs) ys = drop-append xs ys

  pub eq-nil_of_length : (xs : List A) → length xs ≡ 0 → xs ≡ []
  eq-nil_of_length [] h = refl
  eq-nil_of_length (x ∷ xs) h = absurd (omega arith)
