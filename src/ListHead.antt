-- ===== src/ListHead.antt =====
-- include/simple/list.h: doubly linked lists that go round a head. An address is a number, the two
-- fields of the nodes at all addresses are the store, and each macro is a function on it, with its
-- assignments in their order. A list head and the nodes in it are of one type.
pub mod Addresses
pub mod Ring
pub mod Frame
pub mod Edit
pub mod Walk
pub mod Edits
pub mod Splice
pub mod Exchange
pub mod Parts
pub mod Release
pub mod Swap
use libsimple.Base.{
  ℕ, zero, suc, Bool, true, false, Option, none, some, List, [], ◌∷◌, ◌==◌, if◌then◌else◌,
}

-- `prev` and `next` of struct list_head, of every node
pub record Links : Type 0 where
  pub prev : ℕ → ℕ
  pub next : ℕ → ℕ

unfoldable pub update : (ℕ → ℕ) → ℕ → ℕ → ℕ → ℕ
update f a v b = if b == a then v else f b

-- `a->prev = v` and `a->next = v`
abbrev pub set_prev : Links → ℕ → ℕ → Links
set_prev h a v = record h { prev = update h.prev a v }

abbrev pub set_next : Links → ℕ → ℕ → Links
set_next h a v = record h { next = update h.next a v }

-- ____list_add
unfoldable pub add_between : Links → ℕ → ℕ → ℕ → Links
add_between h n prev next =
    let h1 = set_prev h next n in
    let h2 = set_next h1 n next in let h3 = set_prev h2 n prev in set_next h3 prev n

-- ____list_splice
unfoldable pub splice_between : Links → ℕ → ℕ → ℕ → Links
splice_between h l prev next =
    let first = h.next l in
    let last = h.prev l in
    let h1 = set_prev h first prev in
    let h2 = set_next h1 prev first in let h3 = set_next h2 last next in set_prev h3 next last

-- ____list_exchange
unfoldable pub exchange_between : Links → ℕ → ℕ → ℕ → ℕ → ℕ → ℕ → Links
exchange_between h n1 n1prev n1next n2 n2prev n2next =
    let h1 = set_next (set_prev h n1 n2prev) n2prev n1 in
    let h2 = set_prev (set_next h1 n1 n2next) n2next n1 in
    let h3 = set_next (set_prev h2 n2 n1prev) n1prev n2 in
    set_prev (set_next h3 n2 n1next) n1next n2

-- list_init
unfoldable pub list_init : Links → ℕ → Links
list_init h head = set_next (set_prev h head head) head head

-- list_empty
unfoldable pub list_empty : Links → ℕ → Bool
list_empty h head = head == h.next head

-- list_add
unfoldable pub list_add : Links → ℕ → ℕ → Links
unfolding add_between
list_add h node head = add_between h node head (h.next head)

-- list_add_tail
unfoldable pub list_add_tail : Links → ℕ → ℕ → Links
unfolding add_between
list_add_tail h node head = add_between h node (h.prev head) head

-- list_del; the second assignment reads `node->next` after the first one.
unfoldable pub list_del : Links → ℕ → Links
list_del h node =
    let next = h.next node in
    let prev = h.prev node in
    let h1 = set_next h (h.prev node) next in set_prev h1 (h1.next node) prev

-- list_splice
unfoldable pub list_splice : Links → ℕ → ℕ → Links
unfolding list_empty splice_between
list_splice h l head = if list_empty h l then h else splice_between h l head (h.next head)

-- list_splice_tail
unfoldable pub list_splice_tail : Links → ℕ → ℕ → Links
unfolding list_empty splice_between
list_splice_tail h l head = if list_empty h l then h else splice_between h l (h.prev head) head

-- list_exchange
unfoldable pub list_exchange : Links → ℕ → ℕ → Links
unfolding exchange_between
list_exchange h node1 node2 =
    exchange_between h node1 (h.prev node1) (h.next node1) node2 (h.prev node2) (h.next node2)

-- the loop of list_for_each from `pos`: the nodes it visits; `none` where the fuel is used up
unfoldable pub for_each_from : ℕ → Links → ℕ → ℕ → Option (List ℕ)
for_each_from zero h pos head = none
for_each_from (suc fuel) h pos head = elim (pos == head) [
  | true ↦ some []
  | false ↦ elim (for_each_from fuel h (h.next pos) head) [
    | none ↦ none
    | some visited ↦ some (pos ∷ visited)
  ]
]

-- list_for_each
unfoldable pub list_for_each : ℕ → Links → ℕ → Option (List ℕ)
list_for_each fuel h head = for_each_from fuel h (h.next head) head

-- list_for_each_safe with a body that may delete the node at hand: `n` is read before the body.
unfoldable pub for_each_safe_from : ℕ → (Links → ℕ → Links) → Links → ℕ → ℕ → ℕ → Option Links
for_each_safe_from zero body h pos n head = none
for_each_safe_from (suc fuel) body h pos n head = elim (pos == head) [
  | true ↦ some h
  | false ↦ let h' = body h pos in for_each_safe_from fuel body h' n (h'.next n) head
]

-- list_for_each_safe
unfoldable pub list_for_each_safe : ℕ → (Links → ℕ → Links) → Links → ℕ → Option Links
list_for_each_safe fuel body h head =
    let pos = h.next head in for_each_safe_from fuel body h pos (h.next pos) head
