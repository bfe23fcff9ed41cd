-- ===== src/ListHead/Walk.antt =====
-- list_for_each and list_for_each_safe.
use libsimple.Base.{
  ℕ, zero, suc, ◌<◌, ◌≡◌, ◌≢◌, ap, ap₂, sym, ◌∙◌, subst, Bool, Option, some, List, [], ◌∷◌, ◌++◌,
  length, append_assoc, arith, if◌then◌else◌, Bool-cases, inl, inr,
}
use libsimple.Clib.Text.{Lacks}
use libsimple.ListHead.{
  Links, set_prev, set_next, list_del, list_for_each, for_each_from, list_for_each_safe,
  for_each_safe_from,
}
use libsimple.ListHead.Ring.{Back, IsRing}
use libsimple.ListHead.Frame.{IsRing-Around, IsRing-set_prev, IsRing-set_next, taken_out}
use libsimple.ListHead.Edit.{list_del-IsRing}

for_each_from-visits :
    (h : Links) (fuel r : ℕ) (nodes : List ℕ) (head : ℕ)
    → Back h r nodes head
    → Lacks head nodes
    → length nodes < fuel
    → for_each_from fuel h r head ≡ some nodes
unfolding for_each_from
for_each_from-visits h zero r nodes head b o f = absurd (omega arith)
for_each_from-visits h (suc fuel) r [] head e o f = ground arith
for_each_from-visits h (suc fuel) r (x ∷ nodes) head (e, s, k, b) o f =
    let rest : for_each_from fuel h (h.next r) head ≡ some nodes =
      ap (λ a. for_each_from fuel h a head) (ap h.next e ∙ k.0)
      ∙ for_each_from-visits h fuel s nodes head b o.1 (omega arith) in
    ground (arith, rest, o.0)

-- `list_for_each` visits the nodes of a list, each once and in order, and ends (more fuel than there
-- are nodes is enough).
pub list_for_each-visits :
    (h : Links) (head : ℕ) (nodes : List ℕ) (fuel : ℕ)
    → IsRing h head nodes
    → length nodes < fuel
    → list_for_each fuel h head ≡ some nodes
unfolding list_for_each
list_for_each-visits h head nodes fuel v f =
    ap (λ a. for_each_from fuel h a head) v.start.0
    ∙ for_each_from-visits h fuel v.first nodes head v.back v.distinct.0 f

-- `list_del(pos); free(pos);`: what stands in memory that has been freed is arbitrary.
unfoldable pub release_node : (Links → ℕ → ℕ × ℕ) → Links → ℕ → Links
release_node junk h pos =
    let h1 = list_del h pos in set_next (set_prev h1 pos (junk h1 pos).0) pos (junk h1 pos).1

-- A body that deletes and frees the nodes that it does not keep.
unfoldable pub drop_others : (Links → ℕ → ℕ × ℕ) → (ℕ → Bool) → Links → ℕ → Links
unfolding release_node
drop_others junk keep h pos = if keep pos then h else release_node junk h pos

unfoldable pub filter : (ℕ → Bool) → List ℕ → List ℕ
filter keep [] = []
filter keep (x ∷ xs) = let rest = filter keep xs in if keep x then x ∷ rest else rest

abbrev pub start_of : List ℕ → ℕ → ℕ
start_of [] head = head
start_of (x ∷ xs) head = x

pub Back-start_of :
    (h : Links) (r : ℕ) (xs : List ℕ) (head : ℕ) → Back h r xs head → r ≡ start_of xs head
Back-start_of h r [] head b = b
Back-start_of h r (x ∷ xs) head b = b.0

-- Freeing a node takes it out of the list, whatever it holds then.
release_node-IsRing :
    (junk : Links → ℕ → ℕ × ℕ) (h : Links) (head n : ℕ) (xs ys : List ℕ)
    → IsRing h head (xs ++ (n ∷ ys))
    → IsRing (release_node junk h n) head (xs ++ ys)
unfolding release_node
release_node-IsRing junk h head n xs ys v =
    let h1 = list_del h n in
    let out = taken_out h head n xs ys v in
    let w : IsRing (set_prev h1 n (junk h1 n).0) head (xs ++ ys) =
      IsRing-set_prev h1 head (xs ++ ys) n (junk h1 n).0 (list_del-IsRing h head n xs ys v) out in
    IsRing-set_next (set_prev h1 n (junk h1 n).0) head (xs ++ ys) n (junk h1 n).1 w out

-- the loop at the nodes `rest`, behind those that have been kept
abbrev Filtered : (ℕ → Bool) → Links → ℕ → List ℕ → List ℕ → Option Links → Type 0
Filtered keep h head kept rest o =
    (h' : Links) × (o ≡ some h') × IsRing h' head (kept ++ filter keep rest)

abbrev safe_from : (Links → ℕ → ℕ × ℕ) → (ℕ → Bool) → ℕ → Links → ℕ → ℕ → Option Links
safe_from junk keep fuel h pos head =
    for_each_safe_from fuel (drop_others junk keep) h pos (h.next pos) head

safe_step :
    (junk : Links → ℕ → ℕ × ℕ) (keep : ℕ → Bool) (fuel : ℕ) (h h' : Links) (x next head : ℕ)
    → x ≢ head
    → drop_others junk keep h x ≡ h'
    → h.next x ≡ next
    → safe_from junk keep (suc fuel) h x head ≡ safe_from junk keep fuel h' next head
unfolding for_each_safe_from
safe_step junk keep fuel h h' x next head o e n =
    let turn : for_each_safe_from fuel (drop_others junk keep) (drop_others junk keep h x)
          (h.next x) ((drop_others junk keep h x).next (h.next x)) head
        ≡ safe_from junk keep fuel h' next head =
      ap₂ (λ g p. for_each_safe_from fuel (drop_others junk keep) g p (g.next p) head) e n in
    ground (arith, turn)

safe-Filtered :
    (junk : Links → ℕ → ℕ × ℕ) (keep : ℕ → Bool) (fuel : ℕ) (h : Links) (head : ℕ)
    (kept rest : List ℕ)
    → IsRing h head (kept ++ rest)
    → length rest < fuel
    → Filtered keep h head kept rest (safe_from junk keep fuel h (start_of rest head) head)
unfolding for_each_safe_from filter
safe-Filtered junk keep zero h head kept rest v f = absurd (omega arith)
safe-Filtered junk keep (suc fuel) h head kept [] v f = (h, ground arith, v)
safe-Filtered junk keep (suc fuel) h head kept (x ∷ rest) v f =
    let (l, r, a) = IsRing-Around h head kept (x ∷ rest) v in
    let (e, s, k, b) = a.behind in
    let next : h.next x ≡ start_of rest head = k.0 ∙ Back-start_of h s rest head b in
    elim (Bool-cases (keep x)) [
      | inl keeps ↦
          let (h', e', v') =
            safe-Filtered junk keep fuel h head (kept ++ (x ∷ [])) rest
              (subst (IsRing h head) (sym (append_assoc kept (x ∷ []) rest)) v) (omega arith) in
          (
            h',
            safe_step junk keep fuel h h x (start_of rest head) head a.right_distinct.0.0
                  (unfold drop_others in (rw keeps)) next
                ∙ e',
            rw keeps (subst (IsRing h' head) (append_assoc kept (x ∷ []) (filter keep rest)) v'),
          )
      | inr drops ↦
          let (h', e', v') =
            safe-Filtered junk keep fuel (release_node junk h x) head kept rest
              (release_node-IsRing junk h head x kept rest v) (omega arith) in
          (
            h',
            safe_step junk keep fuel h (release_node junk h x) x (start_of rest head) head
                  a.right_distinct.0.0 (unfold drop_others in (rw drops)) next
                ∙ e',
            rw drops v',
          )
    ]

-- `list_for_each_safe` over a list, with a body that deletes and frees some of the nodes it comes to,
-- ends (more fuel than there are nodes is enough), and leaves a list of exactly the nodes that the
-- body has kept, in their order, whatever stands in the freed nodes.
pub list_for_each_safe-filter :
    (junk : Links → ℕ → ℕ × ℕ) (keep : ℕ → Bool) (h : Links) (head : ℕ) (nodes : List ℕ) (fuel : ℕ)
    → IsRing h head nodes
    → length nodes < fuel
    → (h' : Links) × (list_for_each_safe fuel (drop_others junk keep) h head ≡ some h')
      × IsRing h' head (filter keep nodes)
unfolding list_for_each_safe
list_for_each_safe-filter junk keep h head nodes fuel v f =
    let (h', e, v') = safe-Filtered junk keep fuel h head [] nodes v f in
    (
      h',
      ap (λ pos. safe_from junk keep fuel h pos head)
            (v.start.0 ∙ Back-start_of h v.first nodes head v.back)
          ∙ e,
      v',
    )
