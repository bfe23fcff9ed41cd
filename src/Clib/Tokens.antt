-- ===== src/Clib/Tokens.antt =====
-- `strtok` over a text, up to its end, with one separator.
use libsimple.Base.{ℕ, ◌≡◌, refl, ap, List, [], ◌∷◌, ◌++◌, Bytes, arith, ◌==◌, if◌then◌else◌}
use libsimple.Clib.Text.{Lacks}

-- the first stretch without the separator, and the others
unfoldable pub segments : ℕ → Bytes → Bytes × List Bytes
segments sep [] = ([], [])
segments sep (c ∷ s) =
    let (seg, rest) = segments sep s in if c == sep then ([], seg ∷ rest) else (c ∷ seg, rest)

unfoldable pub drop_empty : List Bytes → List Bytes
drop_empty [] = []
drop_empty ([] ∷ l) = drop_empty l
drop_empty ((c ∷ s) ∷ l) = (c ∷ s) ∷ drop_empty l

-- what the calls of `strtok` return, one after the other
unfoldable pub tokens : ℕ → Bytes → List Bytes
unfolding segments drop_empty
tokens sep s = let (seg, rest) = segments sep s in drop_empty (seg ∷ rest)

pub segments-last : (sep : ℕ) (xs : Bytes) → Lacks sep xs → segments sep xs ≡ (xs, [])
unfolding segments
segments-last sep [] h = refl
segments-last sep (x ∷ xs) h = ground (arith, segments-last sep xs h.1)

pub segments-append :
    (sep : ℕ) (xs ys : Bytes)
    → Lacks sep xs
    → segments sep (xs ++ (sep ∷ ys)) ≡ (xs, (segments sep ys).0 ∷ (segments sep ys).1)
unfolding segments
segments-append sep [] ys h = ground arith
segments-append sep (x ∷ xs) ys h = ground (arith, segments-append sep xs ys h.1)

-- A token that is not empty, before the separator.
pub tokens-append :
    (sep c : ℕ) (xs ys : Bytes)
    → Lacks sep (c ∷ xs)
    → tokens sep ((c ∷ xs) ++ (sep ∷ ys)) ≡ (c ∷ xs) ∷ tokens sep ys
unfolding tokens drop_empty
tokens-append sep c xs ys h =
    ap (λ (p : Bytes × List Bytes). drop_empty (p.0 ∷ p.1)) (segments-append sep (c ∷ xs) ys h)
