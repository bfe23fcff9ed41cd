-- ===== src/ListHead/Splice.antt =====
-- list_splice and list_splice_tail of include/simple/list.h.
use libsimple.Base.{
  ℕ, ◌≡◌, ap, ap₂, sym, ◌∙◌, subst, true, false, List, [], ◌∷◌, ◌++◌, append-nil, arith,
}
use libsimple.Clib.Text.{Lacks, append-Lacks}
use libsimple.ListHead.{
  Links, update, set_prev, set_next, splice_between, list_empty, list_splice, list_splice_tail,
}
use libsimple.ListHead.Addresses.{
  Apart, Distinct, Apart-sym, append-Distinct, Apart-append, Apart-nil, Apart-split,
}
use libsimple.ListHead.Ring.{Forth, Back, IsRing, Forth-end, Back-start, joined}
use libsimple.ListHead.Frame.{
  Forth-set_prev, Forth-set_next, Forth-set_end, Back-set_next, Back-set_prev, Back-set_start,
  Around, IsRing-Around, Around-IsRing, right_outside, left_outside,
}

-- The nodes of a list that is not empty, from the first to the last.
record Stretch (h : Links) (l f : ℕ) (ys : List ℕ) (last : ℕ) : Type 0 where
  first_is : h.next l ≡ f
  last_is : h.prev l ≡ last
  nodes : Forth h f ys last
  distinct : Distinct (f ∷ ys)

IsRing-Stretch :
    (h : Links) (l f : ℕ) (ys : List ℕ) → IsRing h l (f ∷ ys) → (last : ℕ) × Stretch h l f ys last
IsRing-Stretch h l f ys v =
    let (last, r, a) =
      IsRing-Around h l (f ∷ ys) [] (subst (IsRing h l) (sym (append-nil (f ∷ ys))) v) in
    (
      last,
      record {
        first_is = a.before.0.0;
        last_is = ap h.prev (sym a.behind) ∙ a.across.1;
        nodes = a.before.1;
        distinct = v.distinct.1;
      },
    )

-- ____list_splice at a gap of a ring that has no node in common with the list.
module _ (h : Links) (head : ℕ) (xs zs : List ℕ) (p n : ℕ) (a : Around h head xs zs p n) (l f : ℕ)
    (ys : List ℕ) (last : ℕ) (st : Stretch h l f ys last) (out : Apart (f ∷ ys) (head ∷ xs))
    (out' : Apart (f ∷ ys) zs) where
  last_out : Lacks last (head ∷ xs)
  last_out = Forth-end h f ys last (head ∷ xs) st.nodes out

  last_out' : Lacks last zs
  last_out' = Forth-end h f ys last zs st.nodes out'

  -- the ends of the gap are not among the nodes
  p_out : Lacks p (f ∷ ys)
  p_out = Forth-end h head xs p (f ∷ ys) a.before (Apart-sym (f ∷ ys) (head ∷ xs) out)

  n_out : Lacks n (f ∷ ys)
  n_out =
      let turned : Apart (head ∷ xs) (f ∷ ys) = Apart-sym (f ∷ ys) (head ∷ xs) out in
      Back-start h n zs head (f ∷ ys) a.behind turned.0 (Apart-sym (f ∷ ys) zs out')

  p_last : Lacks last (p ∷ [])
  p_last = Forth-end h f ys last (p ∷ []) st.nodes (Apart-sym (p ∷ []) (f ∷ ys) (p_out, tt))

  abbrev spliced : Links
  spliced = set_prev (set_next (set_next (set_prev h f p) p f) last n) n last

  spliced-before : Forth spliced head xs p
  spliced-before =
      let h1 = set_prev h f p in
      let h2 = set_next h1 p f in
      Forth-set_prev (set_next h2 last n) head xs p n last
        (Forth-set_next h2 head xs p last n
          (Forth-set_end h1 head xs p f (Forth-set_prev h head xs p f p a.before out.0.1)
            a.left_distinct)
          last_out)
        (right_outside h head xs zs p n a)

  spliced-nodes : Forth spliced f ys last
  spliced-nodes =
      let h1 = set_prev h f p in
      let h2 = set_next h1 p f in
      Forth-set_prev (set_next h2 last n) f ys last n last
        (Forth-set_end h2 f ys last n
          (Forth-set_next h1 f ys last p f (Forth-set_prev h f ys last f p st.nodes st.distinct.0)
            p_out)
          st.distinct)
        n_out.1

  spliced-behind : Back spliced n zs head
  spliced-behind =
      let h1 = set_prev h f p in
      let h2 = set_next h1 p f in
      Back-set_start (set_next h2 last n) n zs head last
        (Back-set_next h2 n zs head last n
          (Back-set_next h1 n zs head p f (Back-set_prev h n zs head f p a.behind out'.0 out.0.0)
            (left_outside h head xs zs p n a))
          last_out')
        a.right_distinct

  spliced-IsRing : IsRing spliced head (xs ++ ((f ∷ ys) ++ zs))
  unfolding update
  spliced-IsRing =
      let (s, link, back) =
        joined spliced p last n (f ∷ ys) zs head
          ((ground (arith, p_last.0, n_out.0), ground (arith, p_last.0, n_out.0)), spliced-nodes)
          (ground arith, ground arith) spliced-behind in
      let turned : Apart (head ∷ xs) (f ∷ ys) = Apart-sym (f ∷ ys) (head ∷ xs) out in
      Around-IsRing spliced head xs ((f ∷ ys) ++ zs) p s (record {
        before = spliced-before;
        across = link;
        behind = back;
        left_distinct = a.left_distinct;
        right_distinct = (
          append-Lacks head (f ∷ ys) zs turned.0 a.right_distinct.0,
          append-Distinct (f ∷ ys) zs st.distinct a.right_distinct.1 out',
        );
        apart = Apart-append xs (f ∷ ys) zs turned.1 a.apart;
      })

  splice_between-IsRing : IsRing (splice_between h l p n) head (xs ++ ((f ∷ ys) ++ zs))
  unfolding splice_between
  splice_between-IsRing =
      subst (λ g. IsRing g head (xs ++ ((f ∷ ys) ++ zs)))
        (sym (
          ap₂ (λ first end. set_prev (set_next (set_next (set_prev h first p) p first) end n) n end)
            st.first_is st.last_is))
        spliced-IsRing

splice_full :
    (h : Links) (head : ℕ) (xs zs : List ℕ) (p n l f : ℕ) (ys : List ℕ)
    → Around h head xs zs p n
    → IsRing h l (f ∷ ys)
    → Apart (f ∷ ys) (head ∷ xs)
    → Apart (f ∷ ys) zs
    → IsRing (splice_between h l p n) head (xs ++ ((f ∷ ys) ++ zs))
splice_full h head xs zs p n l f ys a v out out' =
    let (last, st) = IsRing-Stretch h l f ys v in
    splice_between-IsRing h head xs zs p n a l f ys last st out out'

not_empty : (h : Links) (l f : ℕ) (ys : List ℕ) → IsRing h l (f ∷ ys) → list_empty h l ≡ false
unfolding list_empty
not_empty h l f ys v = ground (arith, v.start.0, v.back.0, v.distinct.0.0)

-- `list_splice` and `list_splice_tail` put the nodes of a list into another one, in their order: before
-- its nodes or behind them, where the other list has none of them, nor one of them as its head. An
-- empty list changes nothing.
pub list_splice-IsRing :
    (h : Links) (l head : ℕ) (ys xs : List ℕ)
    → IsRing h l ys
    → IsRing h head xs
    → Apart ys (head ∷ xs)
    → IsRing (list_splice h l head) head (ys ++ xs)
      × IsRing (list_splice_tail h l head) head (xs ++ ys)
unfolding list_splice list_splice_tail
list_splice-IsRing h l head [] xs w v out =
    let empty : list_empty h l ≡ true = unfold list_empty in (ground (arith, w.start.0, w.back)) in
    (rw empty v, rw empty (subst (IsRing h head) (sym (append-nil xs)) v))
list_splice-IsRing h l head (f ∷ ys) xs w v out =
    let full = not_empty h l f ys w in
    let (p, n, a) = IsRing-Around h head [] xs v in
    let (p', n', a') = IsRing-Around h head xs [] (subst (IsRing h head) (sym (append-nil xs)) v) in
    let parts = Apart-split (f ∷ ys) (head ∷ []) xs out in
    (
      rw full (
          subst (λ g. IsRing g head ((f ∷ ys) ++ xs))
            (sym (
              ap (λ x. splice_between h l x (h.next x)) a.before
              ∙ ap (splice_between h l p) a.across.0))
            (splice_full h head [] xs p n l f ys a w parts.0 parts.1)),
      rw full (
          subst (λ g. IsRing g head (xs ++ (f ∷ ys)))
            (sym (
              ap (λ x. splice_between h l (h.prev x) x) (sym a'.behind)
              ∙ ap (λ q. splice_between h l q n') a'.across.1))
            (subst (λ t. IsRing (splice_between h l p' n') head (xs ++ t)) (append-nil (f ∷ ys))
              (splice_full h head xs [] p' n' l f ys a' w out (Apart-nil (f ∷ ys))))),
    )
