-- ===== src/Clib/Text.antt =====
-- Bytes as characters: `strcasecmp`, `strstr`, C strings, and the texts of string literals.
use Prim.Native.Char.{code}
use Prim.Native.String.{String}
use libsimple.Base.{
  ℕ, ◌+◌, ◌≡◌, ◌↔◌, Bool, true, false, ◌&&◌, [], ◌∷◌, ◌++◌, map, Bytes, leb, ◌==◌, if◌then◌else◌,
  Option, none, some, arith, ◌≢◌, refl,
}

-- The code points of a text: its bytes, if it is ASCII, as every literal of the code is.
abbrev pub codes : String → Bytes
codes String.[] = []
codes (String.◌∷◌ c s) = code c ∷ codes s

-- The C string in a block of memory: the bytes before the first NUL.
unfoldable pub c_string : Bytes → Bytes
c_string [] = []
c_string (c ∷ s) = if c == 0 then [] else c ∷ c_string s

unfoldable pub to_lower : ℕ → ℕ
to_lower c = if leb b'A' c && leb c b'Z' then c + 32 else c

unfoldable pub bytes_eq : Bytes → Bytes → Bool
bytes_eq [] [] = true
bytes_eq (x ∷ xs) (y ∷ ys) = x == y && bytes_eq xs ys
bytes_eq _ _ = false

-- `!strcasecmp(a, b)`
unfoldable pub strcaseeq : Bytes → Bytes → Bool
unfolding bytes_eq to_lower
strcaseeq a b = bytes_eq (map to_lower a) (map to_lower b)

-- `strstr(s, "\r\n")`, as the number of bytes before it.
unfoldable pub find_crlf : Bytes → Option ℕ
find_crlf [] = none
find_crlf (c ∷ []) = none
find_crlf (c ∷ d ∷ s) =
    if c == 0
    then none
    else if c == b'\r' && d == b'\n'
    then some 0
    else elim (find_crlf (d ∷ s)) [ none ↦ none | some n ↦ some (n + 1) ]

pub bytes_eq_iff : (a b : Bytes) → (bytes_eq a b ≡ true) ↔ (a ≡ b)
unfolding bytes_eq
bytes_eq_iff (x ∷ a) (y ∷ b) = ground (arith, bytes_eq_iff a b)
bytes_eq_iff _ _ = ground arith

pub strcaseeq_iff : (a b : Bytes) → (strcaseeq a b ≡ true) ↔ (map to_lower a ≡ map to_lower b)
unfolding strcaseeq
strcaseeq_iff a b = bytes_eq_iff (map to_lower a) (map to_lower b)

-- None of the bytes is `c`.
abbrev pub Lacks : ℕ → Bytes → Type 0
Lacks c [] = Unit
Lacks c (x ∷ s) = (x ≢ c) × Lacks c s

pub append-Lacks : (c : ℕ) (xs ys : Bytes) → Lacks c xs → Lacks c ys → Lacks c (xs ++ ys)
append-Lacks c [] ys h k = k
append-Lacks c (x ∷ xs) ys h k = (h.0, append-Lacks c xs ys h.1 k)

-- A C string has no NUL in it.
abbrev pub HasNoNul : Bytes → Type 0
HasNoNul [] = Unit
HasNoNul (c ∷ s) = (c ≡ 0 → ⊥) × HasNoNul s

pub c_string-HasNoNul : (s : Bytes) → HasNoNul s → c_string s ≡ s
unfolding c_string
c_string-HasNoNul [] h = refl
c_string-HasNoNul (c ∷ s) h = ground (arith, c_string-HasNoNul s h.1, h.0)
