-- ===== src/Clib/Atoi.antt =====
-- `atoi`: blanks, a sign, decimal digits up to the first other byte. It is `(int) strtol(s)`: the
-- number is held to the range of `long`, and its low 32 bits are the result.
use libsimple.Base.{
  ℕ, ◌+◌, ◌-◌, ◌*◌, ◌%◌, ◌^◌, min, Bool, ◌&&◌, ◌||◌, [], ◌∷◌, Bytes, leb, ◌==◌, if◌then◌else◌,
}
use libsimple.Base.Int.{ℤ, signed32}

abbrev pub is_digit : ℕ → Bool
is_digit c = leb b'0' c && leb c b'9'

unfoldable pub digits_value : ℕ → Bytes → ℕ
digits_value acc [] = acc
digits_value acc (c ∷ s) = if is_digit c then digits_value (acc * 10 + (c - b'0')) s else acc

-- The blanks of the C locale: space, and `\t \n \v \f \r`.
abbrev pub is_c_space : ℕ → Bool
is_c_space c = c == b' ' || leb 9 c && leb c 13

unfoldable pub skip_space : Bytes → Bytes
skip_space [] = []
skip_space (c ∷ s) = if is_c_space c then skip_space s else c ∷ s

abbrev pub int_of_pos : ℕ → ℤ
int_of_pos v = signed32 (min v (2 ^ 63 - 1) % 2 ^ 32)

abbrev pub int_of_neg : ℕ → ℤ
int_of_neg v = signed32 ((2 ^ 32 - min v (2 ^ 63) % 2 ^ 32) % 2 ^ 32)

abbrev signed : Bytes → ℤ
signed [] = int_of_pos 0
signed (c ∷ s) =
    if c == b'-'
    then int_of_neg (digits_value 0 s)
    else if c == b'+'
    then int_of_pos (digits_value 0 s)
    else int_of_pos (digits_value 0 (c ∷ s))

unfoldable pub atoi : Bytes → ℤ
unfolding digits_value skip_space
atoi s = signed (skip_space s)
