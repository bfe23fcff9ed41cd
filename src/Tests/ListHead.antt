-- ===== src/Tests/ListHead.antt =====
-- The theorems on include/simple/list.h at lists of a few nodes.
use libsimple.Base.{ℕ, ◌≡◌, refl, none, some, List, [], ◌∷◌, arith, ltb, ◌==◌, if◌then◌else◌}
use libsimple.ListHead.{
  Links, list_for_each, list_for_each_safe, list_init, list_splice, list_splice_tail, list_exchange,
}
use libsimple.ListHead.Edits.{
  Edit, add, add_tail, del, run_links, run_list, has, without, run_links_refines,
}
use libsimple.ListHead.Exchange.{list_exchange-adjacent}
use libsimple.ListHead.Ring.{IsRing}
use libsimple.ListHead.Splice.{list_splice-IsRing}
use libsimple.ListHead.Walk.{drop_others, filter, list_for_each_safe-filter}

abbrev all_zero : Links
all_zero = record { prev = λ a. 0; next = λ a. 0 }

abbrev edits : List Edit
edits = add 1 ∷ add_tail 2 ∷ add 3 ∷ del 1 ∷ []

run_links_refines_example :
    list_for_each 3 (run_links 0 edits (list_init all_zero 0)) 0 ≡ some (3 ∷ 2 ∷ [])
unfolding run_list has without
run_links_refines_example = run_links_refines all_zero 0 edits (3 ∷ 2 ∷ []) 3 refl (omega arith)

-- The head 0 with the nodes 1, 2 and 3, and the head 10 with the nodes 11 and 12.
abbrev after : ℕ → ℕ
after a =
    if a == 0
    then 1
    else if a == 1
    then 2
    else if a == 2
    then 3
    else if a == 10
    then 11
    else if a == 11
    then 12
    else if a == 12
    then 10
    else 0

abbrev ahead : ℕ → ℕ
ahead a =
    if a == 0
    then 3
    else if a == 2
    then 1
    else if a == 3
    then 2
    else if a == 10
    then 12
    else if a == 11
    then 10
    else if a == 12
    then 11
    else 0

abbrev two_lists : Links
two_lists = record { prev = ahead; next = after }

three : IsRing two_lists 0 (1 ∷ 2 ∷ 3 ∷ [])
three = record {
  first = 1;
  start = (refl, refl);
  back = (refl, 2, (refl, refl), (refl, 3, (refl, refl), (refl, 0, (refl, refl), refl)));
  distinct = ground arith;
}

two : IsRing two_lists 10 (11 ∷ 12 ∷ [])
two = record {
  first = 11;
  start = (refl, refl);
  back = (refl, 12, (refl, refl), (refl, 10, (refl, refl), refl));
  distinct = ground arith;
}

list_for_each_safe-filter_example :
    (h' : Links) × (list_for_each_safe 4 (drop_others (λ h n. (h.prev n, 99)) (ltb 1)) two_lists 0
      ≡ some h')
    × IsRing h' 0 (filter (ltb 1) (1 ∷ 2 ∷ 3 ∷ []))
list_for_each_safe-filter_example =
    list_for_each_safe-filter (λ h n. (h.prev n, 99)) (ltb 1) two_lists 0 (1 ∷ 2 ∷ 3 ∷ []) 4 three
      (omega arith)

list_splice-IsRing_example :
    IsRing (list_splice two_lists 10 0) 0 (11 ∷ 12 ∷ 1 ∷ 2 ∷ 3 ∷ [])
    × IsRing (list_splice_tail two_lists 10 0) 0 (1 ∷ 2 ∷ 3 ∷ 11 ∷ 12 ∷ [])
list_splice-IsRing_example =
    list_splice-IsRing two_lists 10 0 (11 ∷ 12 ∷ []) (1 ∷ 2 ∷ 3 ∷ []) two three (ground arith)

list_exchange-adjacent_example : list_for_each 100 (list_exchange two_lists 1 2) 0 ≡ none
list_exchange-adjacent_example = list_exchange-adjacent two_lists 0 [] 1 2 (3 ∷ []) 100 three
