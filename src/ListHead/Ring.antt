-- ===== src/ListHead/Ring.antt =====
-- What a list head stands for, and list_add, list_add_tail and list_del on it.
use libsimple.Base.{ℕ, ◌≡◌, refl, sym, subst, List, [], ◌∷◌, ◌++◌}
use libsimple.Clib.Text.{Lacks}
use libsimple.ListHead.Addresses.{Apart, Distinct}
use libsimple.ListHead.{Links}

abbrev pub Linked : Links → ℕ → ℕ → Type 0
Linked h a b = (h.next a ≡ b) × (h.prev b ≡ a)

-- From `p` through the nodes, the last of which is `l`.
abbrev pub Forth : Links → ℕ → List ℕ → ℕ → Type 0
Forth h p [] l = p ≡ l
Forth h p (x ∷ xs) l = Linked h p x × Forth h x xs l

-- From `r` on, where the nodes begin, back to `head`.
abbrev pub Back : Links → ℕ → List ℕ → ℕ → Type 0
Back h r [] head = r ≡ head
Back h r (x ∷ xs) head = (r ≡ x) × (s : ℕ) × Linked h x s × Back h s xs head

-- The list that begins at `head` holds these nodes in this order: the links lead from `head` through
-- them and back, in both directions, and no node stands in it twice.
pub record IsRing (h : Links) (head : ℕ) (nodes : List ℕ) : Type 0 where
  pub first : ℕ
  pub start : Linked h head first
  pub back : Back h first nodes head
  pub distinct : Distinct (head ∷ nodes)

-- The links to a gap between two stretches, and from it.
pub record Gap (h : Links) (p : ℕ) (xs ys : List ℕ) (head : ℕ) : Type 0 where
  pub left : ℕ
  pub right : ℕ
  pub before : Forth h p xs left
  pub across : Linked h left right
  pub behind : Back h right ys head

pub Back-Gap :
    (h : Links) (p r : ℕ) (xs ys : List ℕ) (head : ℕ)
    → Linked h p r
    → Back h r (xs ++ ys) head
    → Gap h p xs ys head
Back-Gap h p r [] ys head l b = record {
  left = p;
  right = r;
  before = refl;
  across = l;
  behind = b;
}
Back-Gap h p r (x ∷ xs) ys head l (e, s, l', b) =
    let g : Gap h x xs ys head = Back-Gap h x s xs ys head l' b in
    record {
      left = g.left;
      right = g.right;
      before = (subst (Linked h p) e l, g.before);
      across = g.across;
      behind = g.behind;
    }

-- and the other way: two stretches whose ends are linked
pub joined :
    (h : Links) (p l r : ℕ) (xs ys : List ℕ) (head : ℕ)
    → Forth h p xs l
    → Linked h l r
    → Back h r ys head
    → (s : ℕ) × Linked h p s × Back h s (xs ++ ys) head
joined h p l r [] ys head e k b = (r, subst (λ a. Linked h a r) (sym e) k, b)
joined h p l r (x ∷ xs) ys head (k', w) k b =
    let (s, k'', b') = joined h x l r xs ys head w k b in (x, k', (refl, s, k'', b'))

-- Where the end of a stretch is.
pub Forth-end :
    (h : Links) (p : ℕ) (xs : List ℕ) (l : ℕ) (ys : List ℕ)
    → Forth h p xs l
    → Apart (p ∷ xs) ys
    → Lacks l ys
Forth-end h p [] l ys e a = subst (λ q. Lacks q ys) e a.0
Forth-end h p (x ∷ xs) l ys (k, w) a = Forth-end h x xs l ys w a.1

pub Back-start :
    (h : Links) (r : ℕ) (ys : List ℕ) (head : ℕ) (xs : List ℕ)
    → Back h r ys head
    → Lacks head xs
    → Apart ys xs
    → Lacks r xs
Back-start h r [] head xs e o a = subst (λ q. Lacks q xs) (sym e) o
Back-start h r (y ∷ ys) head xs (e, s, k, b) o a = subst (λ q. Lacks q xs) (sym e) a.0
