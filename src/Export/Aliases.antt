-- ===== src/Export/Aliases.antt =====
-- What isAliasStatusInSync decides.
use worker_operator.Base.{
  ◌≤◌, true, String, List, [], ◌∷◌, string_eq, nat_eq, contains, count, ◌≡◌, ◌↔◌, ◌∙◌, refl, sym,
  arith,
}
use mathlib.Core.List.{Perm}
use worker_operator.Nodes.Lists.{list_contains, all_contained, list_equal}
use worker_operator.Nodes.Equal.{list_equal_of_distinct}
use worker_operator.Export.Compare.{all_listed, is_alias_status_in_sync}

list_contains_eq : (l : List String) (v : String) → contains l v ≡ list_contains l v
unfolding list_contains
list_contains_eq [] v = refl
list_contains_eq (x ∷ l) v = ground (arith, list_contains_eq l v)

all_contained_eq : (l1 l2 : List String) → all_listed l2 l1 ≡ all_contained l1 l2
unfolding all_listed all_contained
all_contained_eq [] l2 = refl
all_contained_eq (x ∷ l1) l2 = ground (arith, all_contained_eq l1 l2, list_contains_eq l2 x)

-- It is the comparison of the hub's controllers with the lists exchanged.
list_equal_eq :
    (status spec : List String) → is_alias_status_in_sync status spec ≡ list_equal spec status
unfolding is_alias_status_in_sync list_equal
list_equal_eq status spec = ground (arith, all_contained_eq spec status)

-- For aliases without repetitions, the status counts as in sync exactly if it lists the aliases in
-- some order.
pub is_alias_status_in_sync-Perm :
    (status spec : List String)
    → ((v : String) → count v spec ≤ 1)
    → (is_alias_status_in_sync status spec ≡ true) ↔ Perm spec status
is_alias_status_in_sync-Perm status spec d =
    let p = list_equal_of_distinct spec status d in
    let q = list_equal_eq status spec in (λ h. p.0 (sym q ∙ h), λ r. q ∙ p.1 r)
