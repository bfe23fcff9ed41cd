-- ===== src/ListHead/Addresses.antt =====
-- Lists of addresses that have none in common, and lists with none twice.
use libsimple.Base.{ℕ, sym, List, [], ◌∷◌, ◌++◌}
use libsimple.Clib.Text.{Lacks, append-Lacks}

-- No address stands in both lists; and none stands twice in one.
abbrev pub Apart : List ℕ → List ℕ → Type 0
Apart [] ys = Unit
Apart (x ∷ xs) ys = Lacks x ys × Apart xs ys

abbrev pub Distinct : List ℕ → Type 0
Distinct [] = Unit
Distinct (x ∷ xs) = Lacks x xs × Distinct xs

pub Lacks-append : (a : ℕ) (xs ys : List ℕ) → Lacks a (xs ++ ys) → Lacks a xs × Lacks a ys
Lacks-append a [] ys h = (tt, h)
Lacks-append a (x ∷ xs) ys h = let (l, r) = Lacks-append a xs ys h.1 in ((h.0, l), r)

pub Apart-cons : (xs : List ℕ) (y : ℕ) (ys : List ℕ) → Lacks y xs → Apart xs ys → Apart xs (y ∷ ys)
Apart-cons [] y ys h a = tt
Apart-cons (x ∷ xs) y ys h a = (((λ e. h.0 (sym e)), a.0), Apart-cons xs y ys h.1 a.1)

pub Apart-nil : (xs : List ℕ) → Apart xs []
Apart-nil [] = tt
Apart-nil (x ∷ xs) = (tt, Apart-nil xs)

pub Apart-sym : (xs ys : List ℕ) → Apart xs ys → Apart ys xs
Apart-sym [] ys a = Apart-nil ys
Apart-sym (x ∷ xs) ys a = Apart-cons ys x xs a.0 (Apart-sym xs ys a.1)

pub Distinct-append :
    (xs ys : List ℕ) → Distinct (xs ++ ys) → Distinct xs × Distinct ys × Apart xs ys
Distinct-append [] ys d = (tt, d, tt)
Distinct-append (x ∷ xs) ys d =
    let (dx, dy, a) = Distinct-append xs ys d.1 in
    let (lx, ly) = Lacks-append x xs ys d.0 in ((lx, dx), dy, (ly, a))

pub append-Distinct :
    (xs ys : List ℕ) → Distinct xs → Distinct ys → Apart xs ys → Distinct (xs ++ ys)
append-Distinct [] ys dx dy a = dy
append-Distinct (x ∷ xs) ys dx dy a =
    (append-Lacks x xs ys dx.0 a.0, append-Distinct xs ys dx.1 dy a.1)

pub Apart-append : (xs ys zs : List ℕ) → Apart xs ys → Apart xs zs → Apart xs (ys ++ zs)
Apart-append [] ys zs a b = tt
Apart-append (x ∷ xs) ys zs a b = (append-Lacks x ys zs a.0 b.0, Apart-append xs ys zs a.1 b.1)

pub Apart-split : (xs ys zs : List ℕ) → Apart xs (ys ++ zs) → Apart xs ys × Apart xs zs
Apart-split [] ys zs a = (tt, tt)
Apart-split (x ∷ xs) ys zs a =
    let (l, r) = Lacks-append x ys zs a.0 in
    let (m, s) = Apart-split xs ys zs a.1 in ((l, m), (r, s))
