-- ===== src/ListHead/Edit.antt =====
-- list_init, list_add, list_add_tail and list_del on a ring.
use libsimple.Base.{
  ℕ, ◌≡◌, ◌≢◌, refl, ap, ap₂, sym, ◌∙◌, subst, List, [], ◌∷◌, ◌++◌, append-nil, arith,
}
use libsimple.Clib.Text.{Lacks}
use libsimple.ListHead.{
  Links, update, set_prev, set_next, add_between, list_init, list_add, list_add_tail, list_del,
}
use libsimple.ListHead.Addresses.{Apart, Apart-cons, Apart-sym}
use libsimple.ListHead.Ring.{Linked, IsRing, Forth-end, Back-start}
use libsimple.ListHead.Frame.{
  Forth-set_prev, Forth-set_next, Forth-set_end, Back-set_next, Back-set_prev, Back-set_start,
  Around, IsRing-Around, Around-IsRing, right_outside, left_outside, ends_differ,
}

-- ____list_add at a gap of a ring.
pub add_between-IsRing :
    (h : Links) (head : ℕ) (xs ys : List ℕ) (l r n : ℕ)
    → Around h head xs ys l r
    → Lacks n (head ∷ xs)
    → Lacks n ys
    → IsRing (add_between h n l r) head (xs ++ (n ∷ ys))
unfolding add_between
add_between-IsRing h head xs ys l r n a ox oy =
    let h1 = set_prev h r n in
    let h2 = set_next h1 n r in
    let h3 = set_prev h2 n l in
    let (l_n, r_n) = ends_differ h head xs ys l r a n ox oy in
    let n_head : head ≢ n = λ e. ox.0 e in
    Around-IsRing (set_next h3 l n) head xs (n ∷ ys) l n (record {
      before =
          Forth-set_end h3 head xs l n
            (Forth-set_prev h2 head xs l n l
              (Forth-set_next h1 head xs l n r
                (Forth-set_prev h head xs l r n a.before (right_outside h head xs ys l r a)) ox)
              ox.1)
            a.left_distinct;
      across = unfold update in (ground arith);
      behind = (
        refl,
        r,
        unfold update in (ground arith),
        Back-set_next h3 r ys head l n
            (Back-set_prev h2 r ys head n l
              (Back-set_next h1 r ys head n r
                (Back-set_start h r ys head n a.behind a.right_distinct) oy)
              oy n_head)
            (left_outside h head xs ys l r a),
      );
      left_distinct = a.left_distinct;
      right_distinct = (((λ e. n_head (sym e)), a.right_distinct.0), (oy, a.right_distinct.1));
      apart = Apart-cons xs n ys ox.1 a.apart;
    })

-- list_init
pub list_init-IsRing : (h : Links) (head : ℕ) → IsRing (list_init h head) head []
unfolding list_init update
list_init-IsRing h head = record {
  first = head;
  start = ground arith;
  back = refl;
  distinct = (tt, tt);
}

-- list_add puts a node that is not in the list in front.
pub list_add-IsRing :
    (h : Links) (head n : ℕ) (xs : List ℕ)
    → IsRing h head xs
    → Lacks n (head ∷ xs)
    → IsRing (list_add h n head) head (n ∷ xs)
unfolding list_add
list_add-IsRing h head n xs v o =
    let (l, r, a) = IsRing-Around h head [] xs v in
    subst (λ g. IsRing g head (n ∷ xs))
      (sym (ap (λ x. add_between h n x (h.next x)) a.before ∙ ap (add_between h n l) a.across.0))
      (add_between-IsRing h head [] xs l r n a (o.0, tt) o.1)

-- list_add_tail puts it behind the others.
pub list_add_tail-IsRing :
    (h : Links) (head n : ℕ) (xs : List ℕ)
    → IsRing h head xs
    → Lacks n (head ∷ xs)
    → IsRing (list_add_tail h n head) head (xs ++ (n ∷ []))
unfolding list_add_tail
list_add_tail-IsRing h head n xs v o =
    let (l, r, a) = IsRing-Around h head xs [] (subst (IsRing h head) (sym (append-nil xs)) v) in
    subst (λ g. IsRing g head (xs ++ (n ∷ [])))
      (sym (
        ap (λ x. add_between h n (h.prev x) x) (sym a.behind)
        ∙ ap (λ p. add_between h n p r) a.across.1))
      (add_between-IsRing h head xs [] l r n a o tt)

-- what list_del writes where the neighbours are `l` and `s`
pub list_del-eq :
    (h : Links) (n l s : ℕ)
    → Linked h l n
    → Linked h n s
    → n ≢ l
    → list_del h n ≡ set_prev (set_next h l s) s l
unfolding list_del update
list_del-eq h n l s k k' d =
    ap₂ (λ p q. set_prev (set_next h p q) (update h.next p q n) p) k.1 k'.0
    ∙ ap (λ t. set_prev (set_next h l s) t l) (ground arith)

-- list_del takes a node out and leaves the others in their order.
pub list_del-IsRing :
    (h : Links) (head n : ℕ) (xs ys : List ℕ)
    → IsRing h head (xs ++ (n ∷ ys))
    → IsRing (list_del h n) head (xs ++ ys)
list_del-IsRing h head n xs ys v = remove (IsRing-Around h head xs (n ∷ ys) v)
  where
    remove :
        (l : ℕ) × (r : ℕ) × Around h head xs (n ∷ ys) l r → IsRing (list_del h n) head (xs ++ ys)
    remove (l, r, a) =
        let (e, s, k, b) = a.behind in
        let outside : Apart (n ∷ ys) xs = Apart-sym xs (n ∷ ys) a.apart in
        let n_l : Lacks l (n ∷ []) =
          Forth-end h head xs l (n ∷ []) a.before
            ((a.right_distinct.0.0, tt), Apart-sym (n ∷ []) xs (outside.0, tt)) in
        let h1 = set_next h l s in
        subst (λ g. IsRing g head (xs ++ ys))
          (sym (list_del-eq h n l s (subst (Linked h l) e a.across) k n_l.0))
          (Around-IsRing (set_prev h1 s l) head xs ys l s (record {
            before =
                Forth-set_prev h1 head xs l s l
                  (Forth-set_end h head xs l s a.before a.left_distinct)
                  (Back-start h s ys head xs b a.left_distinct.0 outside.1);
            across = unfold update in (ground arith);
            behind =
                Back-set_start h1 s ys head l
                  (Back-set_next h s ys head l s b (left_outside h head xs (n ∷ ys) l r a).1)
                  (a.right_distinct.0.1, a.right_distinct.1.1);
            left_distinct = a.left_distinct;
            right_distinct = (a.right_distinct.0.1, a.right_distinct.1.1);
            apart = Apart-sym ys xs outside.1;
          }))
