-- ===== src/ListHead/Frame.antt =====
-- Writes to the fields of nodes, and the stretches of a list that they leave as they are.
use libsimple.Base.{ℕ, ◌≢◌, refl, sym, subst, List, [], ◌∷◌, ◌++◌, arith}
use libsimple.Clib.Text.{Lacks, append-Lacks}
use libsimple.ListHead.{Links, update, set_prev, set_next}
use libsimple.ListHead.Addresses.{
  Apart, Distinct, Apart-sym, Distinct-append, append-Distinct, Lacks-append,
}
use libsimple.ListHead.Ring.{
  Linked, Forth, Back, IsRing, Gap, Back-Gap, joined, Forth-end, Back-start,
}

-- Writing elsewhere leaves a stretch as it is.
module _ (h : Links) where
  pub Forth-set_prev :
      (p : ℕ) (xs : List ℕ) (l a v : ℕ)
      → Forth h p xs l
      → Lacks a xs
      → Forth (set_prev h a v) p xs l
  unfolding update
  Forth-set_prev p [] l a v w o = w
  Forth-set_prev p (x ∷ xs) l a v (k, w) o = (ground arith, Forth-set_prev x xs l a v w o.1)

  pub Forth-set_next :
      (p : ℕ) (xs : List ℕ) (l a v : ℕ)
      → Forth h p xs l
      → Lacks a (p ∷ xs)
      → Forth (set_next h a v) p xs l
  unfolding update
  Forth-set_next p [] l a v w o = w
  Forth-set_next p (x ∷ xs) l a v (k, w) o = (ground arith, Forth-set_next x xs l a v w o.1)

  pub Forth-set_end :
      (p : ℕ) (xs : List ℕ) (l v : ℕ)
      → Forth h p xs l
      → Distinct (p ∷ xs)
      → Forth (set_next h l v) p xs l
  unfolding update
  Forth-set_end p [] l v w d = w
  Forth-set_end p (x ∷ xs) l v (k, w) d =
      let apart : Lacks l (p ∷ []) =
        Forth-end h x xs l (p ∷ []) w (Apart-sym (p ∷ []) (x ∷ xs) (d.0, tt)) in
      (ground (arith, apart.0), Forth-set_end x xs l v w d.1)

  pub Back-set_next :
      (r : ℕ) (ys : List ℕ) (head a v : ℕ)
      → Back h r ys head
      → Lacks a ys
      → Back (set_next h a v) r ys head
  unfolding update
  Back-set_next r [] head a v b o = b
  Back-set_next r (y ∷ ys) head a v (e, s, k, b) o =
      (e, s, ground arith, Back-set_next s ys head a v b o.1)

  -- The write may be at the first node, whose `prev` is not part of the stretch.
  pub Back-set_prev :
      (r : ℕ) (ys : List ℕ) (head a v : ℕ)
      → Back h r ys head
      → Lacks a ys
      → head ≢ a
      → Back (set_prev h a v) r ys head
  unfolding update
  Back-set_prev r [] head a v b o n = b
  Back-set_prev r (y ∷ ys) head a v (e, s, k, b) o n =
      let there : Lacks s (a ∷ []) =
        Back-start h s ys head (a ∷ []) b (λ e'. n (sym e'), tt)
          (Apart-sym (a ∷ []) ys (o.1, tt)) in
      (e, s, ground (arith, there.0), Back-set_prev s ys head a v b o.1 n)

  pub Back-set_start :
      (r : ℕ) (ys : List ℕ) (head v : ℕ)
      → Back h r ys head
      → Distinct (head ∷ ys)
      → Back (set_prev h r v) r ys head
  unfolding update
  Back-set_start r [] head v b d = b
  Back-set_start r (y ∷ ys) head v (e, s, k, b) d =
      let there : Lacks s (y ∷ []) =
        Back-start h s ys head (y ∷ []) b (d.0.0, tt) (Apart-sym (y ∷ []) ys (d.1.0, tt)) in
      subst (λ a. Back (set_prev h a v) a (y ∷ ys) head) (sym e)
        (
          refl,
          s,
          ground (arith, there.0),
          Back-set_prev s ys head y v b d.1.0 (λ e'. d.0.0 (sym e')),
        )

-- A ring taken apart at a gap between two stretches, with what its distinct nodes give there.
pub record Around (h : Links) (head : ℕ) (xs ys : List ℕ) (l r : ℕ) : Type 0 where
  pub before : Forth h head xs l
  pub across : Linked h l r
  pub behind : Back h r ys head
  pub left_distinct : Distinct (head ∷ xs)
  pub right_distinct : Distinct (head ∷ ys)
  pub apart : Apart xs ys

pub IsRing-Around :
    (h : Links) (head : ℕ) (xs ys : List ℕ)
    → IsRing h head (xs ++ ys)
    → (l : ℕ) × (r : ℕ) × Around h head xs ys l r
IsRing-Around h head xs ys v =
    let g : Gap h head xs ys head = Back-Gap h head v.first xs ys head v.start v.back in
    let (dx, dy, a) = Distinct-append xs ys v.distinct.1 in
    let (ox, oy) = Lacks-append head xs ys v.distinct.0 in
    (
      g.left,
      g.right,
      record {
        before = g.before;
        across = g.across;
        behind = g.behind;
        left_distinct = (ox, dx);
        right_distinct = (oy, dy);
        apart = a;
      },
    )

pub Around-IsRing :
    (h : Links) (head : ℕ) (xs ys : List ℕ) (l r : ℕ)
    → Around h head xs ys l r
    → IsRing h head (xs ++ ys)
Around-IsRing h head xs ys l r a =
    let (s, start, back) = joined h head l r xs ys head a.before a.across a.behind in
    record {
      first = s;
      start = start;
      back = back;
      distinct = (
        append-Lacks head xs ys a.left_distinct.0 a.right_distinct.0,
        append-Distinct xs ys a.left_distinct.1 a.right_distinct.1 a.apart,
      );
    }

module _ (h : Links) (head : ℕ) (xs ys : List ℕ) (l r : ℕ) (a : Around h head xs ys l r) where
  pub right_outside : Lacks r xs
  right_outside = Back-start h r ys head xs a.behind a.left_distinct.0 (Apart-sym xs ys a.apart)

  pub left_outside : Lacks l ys
  left_outside = Forth-end h head xs l ys a.before (a.right_distinct.0, a.apart)

  -- an address that is not in the ring is neither end of the gap
  pub ends_differ : (n : ℕ) → Lacks n (head ∷ xs) → Lacks n ys → (n ≢ l) × (n ≢ r)
  ends_differ n ox oy = (
    (Forth-end h head xs l (n ∷ []) a.before (Apart-sym (n ∷ []) (head ∷ xs) (ox, tt))).0,
    (Back-start h r ys head (n ∷ []) a.behind ((λ e. ox.0 (sym e)), tt)
        (Apart-sym (n ∷ []) ys (oy, tt))).0,
  )

-- A node that is not in the list may be written to.
pub IsRing-set_prev :
    (h : Links) (head : ℕ) (xs : List ℕ) (n v : ℕ)
    → IsRing h head xs
    → Lacks n (head ∷ xs)
    → IsRing (set_prev h n v) head xs
IsRing-set_prev h head xs n v r o =
    let there : Lacks r.first (n ∷ []) =
      Back-start h r.first xs head (n ∷ []) r.back (λ e. o.0 (sym e), tt)
        (Apart-sym (n ∷ []) xs (o.1, tt)) in
    record {
      first = r.first;
      start = unfold update in (ground (arith, r.start, there.0));
      back = Back-set_prev h r.first xs head n v r.back o.1 o.0;
      distinct = r.distinct;
    }

pub IsRing-set_next :
    (h : Links) (head : ℕ) (xs : List ℕ) (n v : ℕ)
    → IsRing h head xs
    → Lacks n (head ∷ xs)
    → IsRing (set_next h n v) head xs
IsRing-set_next h head xs n v r o = record {
  first = r.first;
  start = unfold update in (ground (arith, r.start, o.0));
  back = Back-set_next h r.first xs head n v r.back o.1;
  distinct = r.distinct;
}

-- A node of a list is not among the others.
pub taken_out :
    (h : Links) (head n : ℕ) (xs ys : List ℕ)
    → IsRing h head (xs ++ (n ∷ ys))
    → Lacks n (head ∷ (xs ++ ys))
taken_out h head n xs ys v =
    let (front, back, apart) = Distinct-append (head ∷ xs) (n ∷ ys) v.distinct in
    append-Lacks n (head ∷ xs) ys (Apart-sym (head ∷ xs) (n ∷ ys) apart).0 back.0
