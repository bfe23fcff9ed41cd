-- ===== src/ListHead/Exchange.antt =====
-- list_exchange of include/simple/list.h on two nodes that stand next to each other.
use libsimple.Base.{
  ℕ, zero, suc, ◌≡◌, ◌≢◌, refl, ap, ap₂, sym, ◌∙◌, subst, none, List, [], ◌∷◌, ◌++◌, arith,
}
use libsimple.Clib.Text.{Lacks}
use libsimple.ListHead.{
  Links, update, set_next, exchange_between, list_exchange, list_for_each, for_each_from,
}
use libsimple.ListHead.Addresses.{Apart, Apart-sym}
use libsimple.ListHead.Ring.{Linked, Forth, IsRing}
use libsimple.ListHead.Frame.{Forth-set_next, Forth-set_end, Around, IsRing-Around}

stuck :
    (h : Links) (b head : ℕ) (fuel : ℕ)
    → h.next b ≡ b
    → b ≢ head
    → for_each_from fuel h b head ≡ none
unfolding for_each_from
stuck h b head zero e o = refl
stuck h b head (suc fuel) e o =
    let rest : for_each_from fuel h (h.next b) head ≡ none =
      ap (λ x. for_each_from fuel h x head) e ∙ stuck h b head fuel e o in
    ground (arith, rest)

-- From `p` through the nodes to `l`, by the `next` fields alone.
abbrev Leads : (ℕ → ℕ) → ℕ → List ℕ → ℕ → Type 0
Leads next p [] l = p ≡ l
Leads next p (x ∷ xs) l = (next p ≡ x) × Leads next x xs l

Forth-Leads : (h : Links) (p : ℕ) (xs : List ℕ) (l : ℕ) → Forth h p xs l → Leads h.next p xs l
Forth-Leads h p [] l w = w
Forth-Leads h p (x ∷ xs) l w = (w.0.0, Forth-Leads h x xs l w.1)

-- a walk through a stretch, into a node that leads to itself
walks_into :
    (h : Links) (p : ℕ) (xs : List ℕ) (l b head : ℕ) (fuel : ℕ)
    → Leads h.next p xs l
    → Lacks head xs
    → h.next l ≡ b
    → h.next b ≡ b
    → b ≢ head
    → for_each_from fuel h (h.next p) head ≡ none
unfolding for_each_from
walks_into h p [] l b head fuel w o e s n =
    ap (λ x. for_each_from fuel h x head) (ap h.next w ∙ e) ∙ stuck h b head fuel s n
walks_into h p (x ∷ xs) l b head zero w o e s n = refl
walks_into h p (x ∷ xs) l b head (suc fuel) (k, w) o e s n =
    let rest : for_each_from fuel h (h.next x) head ≡ none =
      walks_into h x xs l b head fuel w o.1 e s n in
    ap (λ y. for_each_from (suc fuel) h y head) k ∙ ground (arith, rest, o.0)

-- the `next` fields that list_exchange leaves, where `b` follows `a`
abbrev exchanged : (ℕ → ℕ) → ℕ → ℕ → ℕ → ℕ → ℕ → ℕ
exchanged next a b p q = update (update (update (update next a a) a q) p b) b b

list_exchange-next :
    (h : Links) (p a b : ℕ)
    → Linked h p a
    → Linked h a b
    → (list_exchange h a b).next ≡ exchanged h.next a b p (h.next b)
unfolding list_exchange exchange_between
list_exchange-next h p a b k k' =
    ap₂ (λ x y. update (update (update (update h.next x a) a (h.next b)) (h.prev a) b) b y) k'.1
      k'.0
    ∙ ap (λ x. exchanged h.next a b x (h.next b)) k.1

-- `list_exchange` on a node of a list and the one behind it does not exchange them: whatever else is
-- in the list, `list_for_each` over it never ends afterwards (no fuel is enough).
pub list_exchange-adjacent :
    (h : Links) (head : ℕ) (xs : List ℕ) (a b : ℕ) (ys : List ℕ) (fuel : ℕ)
    → IsRing h head (xs ++ (a ∷ b ∷ ys))
    → list_for_each fuel (list_exchange h a b) head ≡ none
unfolding list_for_each
list_exchange-adjacent h head xs a b ys fuel v = walk (IsRing-Around h head xs (a ∷ b ∷ ys) v)
  where
    walk :
        (p : ℕ) × (r : ℕ) × Around h head xs (a ∷ b ∷ ys) p r
        → for_each_from fuel (list_exchange h a b) ((list_exchange h a b).next head) head ≡ none
    walk (p, r, g) =
        let (e, s, k, (e', s', k', back)) = g.behind in
        let h' = list_exchange h a b in
        let left = g.left_distinct in
        let turned : Apart (a ∷ b ∷ ys) xs = Apart-sym xs (a ∷ b ∷ ys) g.apart in
        let a_out : Lacks a (head ∷ xs) = ((λ x. g.right_distinct.0.0 (sym x)), turned.0) in
        let b_out : Lacks b (head ∷ xs) = ((λ x. g.right_distinct.0.1.0 (sym x)), turned.1.0) in
        let next : h'.next ≡ exchanged h.next a b p (h.next b) =
          list_exchange-next h p a b (subst (Linked h p) e g.across) (subst (Linked h a) e' k) in
        let q = h.next b in
        let h1 = set_next h a a in
        let h2 = set_next h1 a q in
        let leads : Forth (set_next (set_next h2 p b) b b) head xs p =
          Forth-set_next (set_next h2 p b) head xs p b b
            (Forth-set_end h2 head xs p b
              (Forth-set_next h1 head xs p a q (Forth-set_next h head xs p a a g.before a_out)
                a_out)
              left)
            b_out in
        walks_into h' head xs p b head fuel
          (subst (λ f. Leads f head xs p) (sym next)
            (Forth-Leads (set_next (set_next h2 p b) b b) head xs p leads))
          left.0 (ap (λ f. f p) next ∙ unfold update in (ground arith))
          (ap (λ f. f b) next ∙ unfold update in (ground arith)) (λ x. b_out.0 (sym x))
