-- ===== src/Clib/Decimal.antt =====
-- `%u` and `%d` of a number, and `atoi` of that text.
use libsimple.Base.{
  ℕ, zero, suc, ◌+◌, ◌/◌, ◌%◌, ◌^◌, ◌<◌, ◌≡◌, ap, sym, ◌∙◌, [], ◌∷◌, Bytes, ltb, if◌then◌else◌,
  arith, Bool-cases, inl, inr,
}
use libsimple.Base.Int.{pos}
use libsimple.Clib.Atoi.{atoi, digits_value, int_of_pos}

-- The digits in front of `rest`; the fuel is more than the number of digits.
unfoldable pub digits_onto : ℕ → ℕ → Bytes → Bytes
digits_onto zero n rest = rest
digits_onto (suc f) n rest =
    let more = digits_onto f (n / 10) ((b'0' + n % 10) ∷ rest) in
    if ltb n 10 then (b'0' + n) ∷ rest else more

unfoldable pub decimal : ℕ → Bytes
decimal n = digits_onto (suc n) n []

pub digits_value-digits_onto :
    (f n : ℕ) (rest : Bytes) → n < f → digits_value 0 (digits_onto f n rest) ≡ digits_value n rest
unfolding digits_value digits_onto
digits_value-digits_onto zero n rest h = absurd (omega arith)
digits_value-digits_onto (suc f) n rest h = elim (Bool-cases (ltb n 10)) [
  | inl small ↦ rw small (ground arith)
  | inr large ↦
      rw large
        (digits_value-digits_onto f (n / 10) ((b'0' + n % 10) ∷ rest) (ground arith) ∙ ground arith)
]

-- What is printed begins with a digit.
pub head-digits_onto :
    (f n : ℕ) (rest : Bytes)
    → n < f
    → (d : ℕ) × (s : Bytes) × (digits_onto f n rest ≡ (b'0' + d) ∷ s) × (d < 10)
unfolding digits_onto
head-digits_onto zero n rest h = absurd (omega arith)
head-digits_onto (suc f) n rest h = elim (Bool-cases (ltb n 10)) [
  | inl small ↦ (n, rest, rw small, ground arith)
  | inr large ↦ rw large (head-digits_onto f (n / 10) ((b'0' + n % 10) ∷ rest) (ground arith))
]

atoi_digits :
    (d : ℕ) (s : Bytes)
    → d < 10
    → atoi ((b'0' + d) ∷ s) ≡ int_of_pos (digits_value 0 ((b'0' + d) ∷ s))
unfolding atoi
atoi_digits d s h = ground arith

read_whole : (n : ℕ) → n < 2 ^ 31 → int_of_pos (digits_value n []) ≡ pos n
unfolding digits_value
read_whole n h = ground arith

-- `atoi` reads back every `int` that `%u` prints.
pub atoi-decimal : (n : ℕ) → n < 2 ^ 31 → atoi (decimal n) ≡ pos n
unfolding decimal
atoi-decimal n h =
    let (d, s, e, small) = head-digits_onto (suc n) n [] (omega arith) in
    rw e (atoi_digits d s small)
    ∙ ap (λ v. int_of_pos (digits_value 0 v)) (sym e)
    ∙ ap int_of_pos (digits_value-digits_onto (suc n) n [] (omega arith))
    ∙ read_whole n h
