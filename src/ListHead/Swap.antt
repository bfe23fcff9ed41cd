-- ===== src/ListHead/Swap.antt =====
-- list_exchange of include/simple/list.h on two nodes with others between them.
use libsimple.Base.{ℕ, ◌≡◌, ap, ap₂, sym, ◌∙◌, subst, fun_ext, List, ◌∷◌, ◌++◌, append_assoc, arith}
use libsimple.Clib.Text.{Lacks, append-Lacks}
use libsimple.ListHead.{
  Links, update, set_prev, set_next, add_between, exchange_between, list_del, list_exchange,
}
use libsimple.ListHead.Edit.{add_between-IsRing, list_del-eq, list_del-IsRing}
use libsimple.ListHead.Frame.{IsRing-Around}
use libsimple.ListHead.Ring.{Linked, IsRing}
use libsimple.ListHead.Walk.{start_of, Back-start_of}
use libsimple.ListHead.Parts.{
  last_of, Forth-last_of, last_of-append, Separate, Parts, Distinct-Parts, Parts-Separate,
}

-- ____list_add at a gap of a ring, whose ends are known from its nodes
add_at :
    (h : Links) (head : ℕ) (xs ys : List ℕ) (n : ℕ)
    → IsRing h head (xs ++ ys)
    → Lacks n (head ∷ xs)
    → Lacks n ys
    → IsRing (add_between h n (last_of head xs) (start_of ys head)) head (xs ++ (n ∷ ys))
add_at h head xs ys n v ox oy =
    let (l, r, a) = IsRing-Around h head xs ys v in
    subst (λ g. IsRing g head (xs ++ (n ∷ ys)))
      (ap₂ (add_between h n) (Forth-last_of h head xs l a.before)
        (Back-start_of h r ys head a.behind))
      (add_between-IsRing h head xs ys l r n a ox oy)

-- the links at a gap, by the nodes around it
link_at :
    (h : Links) (head : ℕ) (xs : List ℕ) (n : ℕ) (ys : List ℕ)
    → IsRing h head (xs ++ (n ∷ ys))
    → Linked h (last_of head xs) n × Linked h n (start_of ys head)
link_at h head xs n ys v =
    let (l, r, a) = IsRing-Around h head xs (n ∷ ys) v in
    let (e, s, k, b) = a.behind in
    (
      subst (λ p. Linked h p n) (Forth-last_of h head xs l a.before)
          (subst (Linked h l) e a.across),
      subst (Linked h n) (Back-start_of h s ys head b) k,
    )

-- both nodes taken out
abbrev both_out : Links → ℕ → ℕ → ℕ → ℕ → Links
both_out h p n q m = set_prev (set_next (set_prev (set_next h p n) n p) q m) m q

same_links :
    (h g : Links) → ((x : ℕ) → h.prev x ≡ g.prev x) → ((x : ℕ) → h.next x ≡ g.next x) → h ≡ g
same_links h g e f = ap₂ (λ prev next. record { prev = prev; next = next }) (fun_ext e) (fun_ext f)

-- Exchanging two nodes does what taking both out and putting each in at the other's place does.
exchange_between-eq :
    (h : Links) (p a n q b m : ℕ)
    → Separate p a n q b m
    → (exchange_between h a p n b q m ≡ add_between (add_between (both_out h p n q m) b p n) a q m)
      × (exchange_between h b q m a p n
          ≡ add_between (add_between (both_out h p n q m) b p n) a q m)
unfolding exchange_between add_between update
exchange_between-eq h p a n q b m s = (
  same_links _ _ (λ x. ground arith) (λ x. ground arith),
  same_links _ _ (λ x. ground arith) (λ x. ground arith),
)

-- taking out both nodes with list_del
both_out-eq :
    (h : Links) (p a n q b m : ℕ)
    → Separate p a n q b m
    → Linked h p a
    → Linked h a n
    → Linked h q b
    → Linked h b m
    → list_del (list_del h a) b ≡ both_out h p n q m
unfolding update
both_out-eq h p a n q b m s k k' l l' =
    let h1 = set_prev (set_next h p n) n p in
    ap (λ g. list_del g b) (list_del-eq h a p n k k' (λ e. s.p_a (sym e)))
    ∙ list_del-eq h1 b q m (ground (arith, s.p_q, s.n_b)) (ground (arith, s.p_b, s.n_m))
        (λ e. s.q_b (sym e))

list_exchange-fields :
    (h : Links) (a b p n q m : ℕ)
    → h.prev a ≡ p
    → h.next a ≡ n
    → h.prev b ≡ q
    → h.next b ≡ m
    → list_exchange h a b ≡ exchange_between h a p n b q m
unfolding list_exchange
list_exchange-fields h a b p n q m e f g k = λ i. exchange_between h a (e i) (f i) b (g i) (k i)

-- taking both out and putting them in at the other's place, on the nodes
module _ (h : Links) (head : ℕ) (xs : List ℕ) (a y : ℕ) (ys : List ℕ) (b : ℕ) (zs : List ℕ)
    (v : IsRing h head (xs ++ (a ∷ ((y ∷ ys) ++ (b ∷ zs))))) where
  parts : Parts head xs a y ys b zs
  parts = Distinct-Parts head xs a y ys b zs v.distinct

  out-IsRing : IsRing (list_del (list_del h a) b) head (xs ++ ((y ∷ ys) ++ zs))
  out-IsRing =
      let one : IsRing (list_del h a) head (xs ++ ((y ∷ ys) ++ (b ∷ zs))) =
        list_del-IsRing h head a xs ((y ∷ ys) ++ (b ∷ zs)) v in
      subst (IsRing (list_del (list_del h a) b) head) (append_assoc xs (y ∷ ys) zs) (
        list_del-IsRing (list_del h a) head b (xs ++ (y ∷ ys)) zs
          (subst (IsRing (list_del h a) head) (sym (append_assoc xs (y ∷ ys) (b ∷ zs))) one))

  swapped-IsRing :
      (g : Links)
      → IsRing g head (xs ++ ((y ∷ ys) ++ zs))
      → IsRing
          (add_between (add_between g b (last_of head xs) y) a (last_of y ys) (start_of zs head))
          head
          (xs ++ (b ∷ ((y ∷ ys) ++ (a ∷ zs))))
  swapped-IsRing g w =
      let g1 = add_between g b (last_of head xs) y in
      let bys = b ∷ y ∷ ys in
      let one : IsRing g1 head (xs ++ (bys ++ zs)) =
        add_at g head xs ((y ∷ ys) ++ zs) b w parts.b_xs
          (append-Lacks b (y ∷ ys) zs parts.b_ys parts.b_zs) in
      subst (IsRing (add_between g1 a (last_of y ys) (start_of zs head)) head)
        (append_assoc xs bys (a ∷ zs))
        (subst (λ q. IsRing (add_between g1 a q (start_of zs head)) head ((xs ++ bys) ++ (a ∷ zs)))
          (last_of-append head xs b (y ∷ ys))
          (add_at g1 head (xs ++ bys) zs a
            (subst (IsRing g1 head) (sym (append_assoc xs bys zs)) one)
            (append-Lacks a (head ∷ xs) bys parts.a_xs (parts.a_b, parts.a_ys)) parts.a_zs))

  exchange-eq :
      let q = last_of y ys in
      let m = start_of zs head in
      let goal =
        add_between (add_between (list_del (list_del h a) b) b (last_of head xs) y) a q m in
      (list_exchange h a b ≡ goal) × (list_exchange h b a ≡ goal)
  exchange-eq =
      let p = last_of head xs in
      let q = last_of y ys in
      let m = start_of zs head in
      let s : Separate p a y q b m = Parts-Separate head xs a y ys b zs parts in
      let (k, k') = link_at h head xs a ((y ∷ ys) ++ (b ∷ zs)) v in
      let (l, l') =
        link_at h head (xs ++ (a ∷ y ∷ ys)) b zs
          (subst (IsRing h head) (sym (append_assoc xs (a ∷ y ∷ ys) (b ∷ zs))) v) in
      let at_q : Linked h q b = subst (λ c. Linked h c b) (last_of-append head xs a (y ∷ ys)) l in
      let outs =
        ap (λ g. add_between (add_between g b p y) a q m)
          (sym (both_out-eq h p a y q b m s k k' at_q l')) in
      let (one, two) = exchange_between-eq h p a y q b m s in
      (
        list_exchange-fields h a b p y q m k.1 k'.0 at_q.1 l'.0 ∙ one ∙ outs,
        list_exchange-fields h b a q m p y at_q.1 l'.0 k.1 k'.0 ∙ two ∙ outs,
      )

-- `list_exchange` of two nodes of a list that have others between them, in either order of its
-- arguments, exchanges them and leaves all others at their places.
pub list_exchange-IsRing :
    (h : Links) (head : ℕ) (xs : List ℕ) (a y : ℕ) (ys : List ℕ) (b : ℕ) (zs : List ℕ)
    → IsRing h head (xs ++ (a ∷ ((y ∷ ys) ++ (b ∷ zs))))
    → IsRing (list_exchange h a b) head (xs ++ (b ∷ ((y ∷ ys) ++ (a ∷ zs))))
      × IsRing (list_exchange h b a) head (xs ++ (b ∷ ((y ∷ ys) ++ (a ∷ zs))))
list_exchange-IsRing h head xs a y ys b zs v =
    let (one, two) = exchange-eq h head xs a y ys b zs v in
    let swapped =
      swapped-IsRing h head xs a y ys b zs v (list_del (list_del h a) b)
        (out-IsRing h head xs a y ys b zs v) in
    let after = xs ++ (b ∷ ((y ∷ ys) ++ (a ∷ zs))) in
    (
      subst (λ g. IsRing g head after) (sym one) swapped,
      subst (λ g. IsRing g head after) (sym two) swapped,
    )
