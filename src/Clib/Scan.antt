-- ===== src/Clib/Scan.antt =====
-- `%d` of an integer in `printf` and `sscanf`: blanks, a sign, at least one digit.
use libsimple.Base.{
  ℕ, suc, ◌+◌, ◌^◌, ◌<◌, ◌≡◌, refl, ap, sym, ◌∙◌, Bool, true, false, Option, none, some, [], ◌∷◌,
  ◌++◌, Bytes, ◌==◌, if◌then◌else◌, arith, zero, ltb, ◌/◌, ◌%◌, ◌≢◌, ap₂, Bool-cases, inl, inr,
}
use libsimple.Base.Int.{ℤ, pos, negsuc}
use libsimple.Clib.Atoi.{is_digit, digits_value, skip_space, int_of_pos, int_of_neg}
use libsimple.Clib.Decimal.{decimal, digits_onto, digits_value-digits_onto, head-digits_onto}
use libsimple.Clib.Text.{Lacks}

-- `%d` in printf
unfoldable pub print_int : ℤ → Bytes
unfolding decimal
print_int (pos n) = decimal n
print_int (negsuc n) = b'-' ∷ decimal (n + 1)

-- what follows the digits
unfoldable pub after_digits : Bytes → Bytes
after_digits [] = []
after_digits (c ∷ s) = if is_digit c then after_digits s else c ∷ s

abbrev pub starts_digit : Bytes → Bool
starts_digit [] = false
starts_digit (c ∷ s) = is_digit c

abbrev scan_digits : (ℕ → ℤ) → Bytes → Option (ℤ × Bytes)
scan_digits value s =
    if starts_digit s then some (value (digits_value 0 s), after_digits s) else none

abbrev scan_signed : Bytes → Option (ℤ × Bytes)
scan_signed [] = none
scan_signed (c ∷ s) =
    if c == b'-'
    then scan_digits int_of_neg s
    else if c == b'+'
    then scan_digits int_of_pos s
    else scan_digits int_of_pos (c ∷ s)

-- `%d` in sscanf: the number and what is left; `none` where no number is found.
unfoldable pub scan_int : Bytes → Option (ℤ × Bytes)
unfolding digits_value skip_space after_digits
scan_int s = scan_signed (skip_space s)

digits_onto-append :
    (f n : ℕ) (xs ys : Bytes) → digits_onto f n xs ++ ys ≡ digits_onto f n (xs ++ ys)
unfolding digits_onto
digits_onto-append zero n xs ys = refl
digits_onto-append (suc f) n xs ys =
    ground (arith, digits_onto-append f (n / 10) ((b'0' + n % 10) ∷ xs) ys)

after_digits-digits_onto :
    (f n : ℕ) (rest : Bytes) → n < f → after_digits (digits_onto f n rest) ≡ after_digits rest
unfolding after_digits digits_onto
after_digits-digits_onto zero n rest h = absurd (omega arith)
after_digits-digits_onto (suc f) n rest h = elim (Bool-cases (ltb n 10)) [
  | inl small ↦ rw small (ground arith)
  | inr large ↦
      rw large
        (after_digits-digits_onto f (n / 10) ((b'0' + n % 10) ∷ rest) (ground arith) ∙ ground arith)
]

pub digits_onto-Lacks :
    (c f n : ℕ) (rest : Bytes) → is_digit c ≡ false → Lacks c rest → Lacks c (digits_onto f n rest)
unfolding digits_onto
digits_onto-Lacks c zero n rest h o = o
digits_onto-Lacks c (suc f) n rest h o =
    ground (arith, digits_onto-Lacks c f (n / 10) ((b'0' + n % 10) ∷ rest) h)

-- A number that is printed holds digits, and a '-', only.
pub print_int-Lacks : (c : ℕ) (z : ℤ) → is_digit c ≡ false → b'-' ≢ c → Lacks c (print_int z)
unfolding print_int
print_int-Lacks c (pos n) h o = digits_onto-Lacks c (suc n) n [] h tt
print_int-Lacks c (negsuc n) h o = (o, digits_onto-Lacks c (suc (n + 1)) (n + 1) [] h tt)

-- an `int` of 32 bits
abbrev pub IsInt : ℤ → Type 0
IsInt (pos n) = n < 2 ^ 31
IsInt (negsuc n) = n < 2 ^ 31

digits_stop : (v : ℕ) (rest : Bytes) → starts_digit rest ≡ false → digits_value v rest ≡ v
unfolding digits_value
digits_stop v [] h = refl
digits_stop v (c ∷ rest) h = rw h

after_stop : (rest : Bytes) → starts_digit rest ≡ false → after_digits rest ≡ rest
unfolding after_digits
after_stop [] h = refl
after_stop (c ∷ rest) h = rw h

scan_digits-decimal :
    (value : ℕ → ℤ) (n : ℕ) (rest : Bytes)
    → starts_digit rest ≡ false
    → scan_digits value (decimal n ++ rest) ≡ some (value n, rest)
unfolding decimal
scan_digits-decimal value n rest h =
    let text = digits_onto (suc n) n rest in
    let (d, s, e, small) = head-digits_onto (suc n) n rest (omega arith) in
    let first : starts_digit text ≡ true = ap starts_digit e ∙ ground arith in
    ap (scan_digits value) (digits_onto-append (suc n) n [] rest)
    ∙ rw first (
        ap₂ (λ (v : ℕ) (t : Bytes). some (value v, t))
          (digits_value-digits_onto (suc n) n rest (omega arith) ∙ digits_stop n rest h)
          (after_digits-digits_onto (suc n) n rest (omega arith) ∙ after_stop rest h))

scan_int_digit :
    (d : ℕ) (s : Bytes)
    → d < 10
    → scan_int ((b'0' + d) ∷ s) ≡ scan_digits int_of_pos ((b'0' + d) ∷ s)
unfolding scan_int
scan_int_digit d s h = ground arith

scan_int_minus : (s : Bytes) → scan_int (b'-' ∷ s) ≡ scan_digits int_of_neg s
unfolding scan_int
scan_int_minus s = refl

whole_pos : (n : ℕ) → n < 2 ^ 31 → int_of_pos n ≡ pos n
whole_pos n h = ground arith

whole_neg : (n : ℕ) → n < 2 ^ 31 → int_of_neg (n + 1) ≡ negsuc n
whole_neg n h = ground arith

-- `%d` reads back an `int` that `%d` has written, up to what follows, if that is no digit.
pub scan_int-print_int :
    (z : ℤ) (rest : Bytes)
    → IsInt z
    → starts_digit rest ≡ false
    → scan_int (print_int z ++ rest) ≡ some (z, rest)
unfolding print_int decimal
scan_int-print_int (pos n) rest small h =
    let (d, s, e, under) = head-digits_onto (suc n) n [] (omega arith) in
    ap (λ t. scan_int (t ++ rest)) e
    ∙ scan_int_digit d (s ++ rest) under
    ∙ ap (λ t. scan_digits int_of_pos (t ++ rest)) (sym e)
    ∙ scan_digits-decimal int_of_pos n rest h
    ∙ ap (λ v. some (v, rest)) (whole_pos n small)
scan_int-print_int (negsuc n) rest small h =
    scan_int_minus (decimal (n + 1) ++ rest)
    ∙ scan_digits-decimal int_of_neg (n + 1) rest h
    ∙ ap (λ v. some (v, rest)) (whole_neg n small)
