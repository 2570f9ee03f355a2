-- ===== src/Tests/Nodes.antt =====
-- Lists of nodes.
use worker_operator.Base.{
  ℕ, String, true, List, [], ◌∷◌, ok, ◌≡◌, ◌↔◌, refl, ◌≤◌, string_eq, nat_eq, arith, count,
}
use mathlib.Core.List.{Perm}
use worker_operator.Nodes.Lists.{same_string_slice, list_equal, list_contains}
use worker_operator.Nodes.Info.{Node, NodeInfo, reconcile, get_node_ip}
use worker_operator.Nodes.Compare.{same_string_slice-Perm}
use worker_operator.Nodes.Equal.{list_equal_of_distinct, list_equal-replicate, replicate}
use worker_operator.Nodes.Refresh.{Reconciled, reconcile_lem, forget, get_node_ip-forget}

abbrev two : List String
two = "a" ∷ "b" ∷ []

abbrev three : List String
three = "a" ∷ "b" ∷ "a" ∷ []

distinct : (v : ℕ) → count v (1 ∷ 2 ∷ []) ≤ 1
unfolding count nat_eq
distinct v = ground arith

abbrev one_two : List ℕ
one_two = 1 ∷ 2 ∷ []

abbrev two_one : List ℕ
two_one = 2 ∷ 1 ∷ []

abbrev ready : Node
ready = record {
  addresses = record { type = "InternalIP"; address = "10.0.0.1" } ∷ [];
  conditions = record { type = "Ready"; status = "True" } ∷ [];
}

abbrev info : NodeInfo
info = record { node_ip_list = "a" ∷ [] }

same_string_slice-Perm_example :
    (same_string_slice three ("b" ∷ "a" ∷ "a" ∷ []) ≡ true) ↔ Perm three ("b" ∷ "a" ∷ "a" ∷ [])
same_string_slice-Perm_example = same_string_slice-Perm three ("b" ∷ "a" ∷ "a" ∷ [])

list_equal_of_distinct_example : (list_equal one_two two_one ≡ true) ↔ Perm one_two two_one
list_equal_of_distinct_example = list_equal_of_distinct one_two two_one distinct

list_equal-replicate_example : list_equal (replicate 2 1) one_two ≡ true
unfolding list_contains nat_eq
list_equal-replicate_example = list_equal-replicate 1 one_two refl

get_node_ip-forget_example :
    get_node_ip (ok (forget (ready ∷ []))) info ≡ get_node_ip (ok (ready ∷ [])) info
get_node_ip-forget_example = get_node_ip-forget (ready ∷ []) info

reconcile_lem_example : Reconciled (ok (ready ∷ [])) info (reconcile (ok (ready ∷ [])) info)
reconcile_lem_example = reconcile_lem (ok (ready ∷ [])) info
