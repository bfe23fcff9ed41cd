-- ===== src/ListHead/Release.antt =====
-- The loops that free every node of a list: in simple_thread_pool_destroy (threads and tasks),
-- httpc_Message_release (headers) and simple_url_release (the pairs of a query).
use libsimple.Base.{ℕ, ◌<◌, ◌≡◌, refl, subst, false, Option, some, List, [], ◌∷◌, length}
use libsimple.ListHead.{Links, list_for_each_safe}
use libsimple.ListHead.Ring.{IsRing}
use libsimple.ListHead.Walk.{release_node, drop_others, filter, list_for_each_safe-filter}

unfoldable pub release_all : (Links → ℕ → ℕ × ℕ) → ℕ → Links → ℕ → Option Links
release_all junk fuel = list_for_each_safe fuel (release_node junk)

filter-none : (xs : List ℕ) → filter (λ n. false) xs ≡ []
unfolding filter
filter-none [] = refl
filter-none (x ∷ xs) = filter-none xs

-- The loop ends (more fuel than there are nodes is enough), and the list is empty.
pub release_all-empties :
    (junk : Links → ℕ → ℕ × ℕ) (h : Links) (head : ℕ) (nodes : List ℕ) (fuel : ℕ)
    → IsRing h head nodes
    → length nodes < fuel
    → (h' : Links) × (release_all junk fuel h head ≡ some h') × IsRing h' head []
unfolding release_all drop_others
release_all-empties junk h head nodes fuel v f =
    let (h', e, v') = list_for_each_safe-filter junk (λ n. false) h head nodes fuel v f in
    (h', e, subst (IsRing h' head) (filter-none nodes) v')
