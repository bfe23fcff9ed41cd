-- ===== src/ListHead/Edits.antt =====
-- Any sequence of changes of a list of include/simple/list.h, and then a walk over it.
use libsimple.Base.{
  ℕ, ◌<◌, ◌≡◌, ap, sym, subst, Bool, true, false, Option, none, some, List, [], ◌∷◌, ◌++◌, length,
  arith, ◌==◌, if◌then◌else◌, Bool-cases, inl, inr,
}
use libsimple.Clib.Text.{Lacks}
use libsimple.ListHead.{Links, list_init, list_add, list_add_tail, list_del, list_for_each}
use libsimple.ListHead.Ring.{IsRing}
use libsimple.ListHead.Edit.{
  list_init-IsRing, list_add-IsRing, list_add_tail-IsRing, list_del-IsRing,
}
use libsimple.ListHead.Walk.{list_for_each-visits}

-- A change of a list, by its node.
pub data Edit : Type 0 where
  add add_tail del : ℕ → Edit

-- what the macros do with the links
unfoldable pub run_links : ℕ → List Edit → Links → Links
run_links head [] h = h
run_links head (add n ∷ edits) h = run_links head edits (list_add h n head)
run_links head (add_tail n ∷ edits) h = run_links head edits (list_add_tail h n head)
run_links head (del n ∷ edits) h = run_links head edits (list_del h n)

unfoldable pub has : ℕ → List ℕ → Bool
has n [] = false
has n (x ∷ xs) = if x == n then true else has n xs

unfoldable pub without : ℕ → List ℕ → List ℕ
without n [] = []
without n (x ∷ xs) = if x == n then xs else x ∷ without n xs

-- The same on lists: only a node that is not there is added, only one that is there deleted.
unfoldable pub run_list : ℕ → List Edit → List ℕ → Option (List ℕ)
run_list head [] xs = some xs
run_list head (add n ∷ edits) xs =
    let rest = run_list head edits (n ∷ xs) in if has n (head ∷ xs) then none else rest
run_list head (add_tail n ∷ edits) xs =
    let rest = run_list head edits (xs ++ (n ∷ [])) in if has n (head ∷ xs) then none else rest
run_list head (del n ∷ edits) xs =
    let rest = run_list head edits (without n xs) in if has n xs then rest else none

has-Lacks : (n : ℕ) (xs : List ℕ) → has n xs ≡ false → Lacks n xs
unfolding has
has-Lacks n [] e = tt
has-Lacks n (x ∷ xs) e = elim (Bool-cases (x == n)) [
  | inl same ↦ absurd (ground (arith, same, e))
  | inr differ ↦ (ground arith, has-Lacks n xs (ground arith))
]

-- A list at the place of one of its nodes.
record Place (n : ℕ) (nodes : List ℕ) : Type 0 where
  before : List ℕ
  behind : List ℕ
  whole : nodes ≡ before ++ (n ∷ behind)
  rest : without n nodes ≡ before ++ behind

has-Place : (n : ℕ) (xs : List ℕ) → has n xs ≡ true → Place n xs
unfolding has without
has-Place n [] e = absurd (ground arith)
has-Place n (x ∷ xs) e = elim (Bool-cases (x == n)) [
  | inl same ↦ record { before = []; behind = xs; whole = ground arith; rest = rw same }
  | inr differ ↦
      let p : Place n xs = has-Place n xs (ground arith) in
      record {
        before = x ∷ p.before;
        behind = p.behind;
        whole = ap (x ∷◌) p.whole;
        rest = rw differ (ap (x ∷◌) p.rest);
      }
]

run-IsRing :
    (head : ℕ) (edits : List Edit) (xs nodes : List ℕ) (h : Links)
    → IsRing h head xs
    → run_list head edits xs ≡ some nodes
    → IsRing (run_links head edits h) head nodes
unfolding run_links run_list
run-IsRing head [] xs nodes h v e = subst (IsRing h head) (ground arith) v
run-IsRing head (add n ∷ edits) xs nodes h v e = elim (Bool-cases (has n (head ∷ xs))) [
  | inl there ↦ absurd (ground (arith, there, e))
  | inr new ↦
      run-IsRing head edits (n ∷ xs) nodes (list_add h n head)
        (list_add-IsRing h head n xs v (has-Lacks n (head ∷ xs) new)) (rw new at e)
]
run-IsRing head (add_tail n ∷ edits) xs nodes h v e = elim (Bool-cases (has n (head ∷ xs))) [
  | inl there ↦ absurd (ground (arith, there, e))
  | inr new ↦
      run-IsRing head edits (xs ++ (n ∷ [])) nodes (list_add_tail h n head)
        (list_add_tail-IsRing h head n xs v (has-Lacks n (head ∷ xs) new)) (rw new at e)
]
run-IsRing head (del n ∷ edits) xs nodes h v e = elim (Bool-cases (has n xs)) [
  | inl there ↦
      let p : Place n xs = has-Place n xs there in
      run-IsRing head edits (without n xs) nodes (list_del h n)
        (subst (IsRing (list_del h n) head) (sym p.rest)
          (list_del-IsRing h head n p.before p.behind (subst (IsRing h head) p.whole v)))
        (rw there at e)
  | inr missing ↦ absurd (ground (arith, missing, e))
]

-- After `list_init` and any sequence of `list_add`, `list_add_tail` and `list_del`, in which only
-- nodes that are not in the list, nor its head, are added, and only nodes that are in it deleted,
-- `list_for_each` visits exactly the nodes that a plain list has after the same changes, in the same
-- order, and ends (more fuel than there are nodes is enough).
pub run_links_refines :
    (h : Links) (head : ℕ) (edits : List Edit) (nodes : List ℕ) (fuel : ℕ)
    → run_list head edits [] ≡ some nodes
    → length nodes < fuel
    → list_for_each fuel (run_links head edits (list_init h head)) head ≡ some nodes
run_links_refines h head edits nodes fuel e f =
    list_for_each-visits (run_links head edits (list_init h head)) head nodes fuel
      (run-IsRing head edits [] nodes (list_init h head) (list_init-IsRing h head) e) f
