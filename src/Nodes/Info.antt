-- ===== src/Nodes/Info.antt =====
-- pkg/cluster/node.go and the rest of node_reconciler.go. The API server's answer to the list of
-- nodes is an argument; the mutex is held throughout each operation.
use worker_operator.Base.{
  String, Bool, true, false, Option, none, some, List, [], ◌∷◌, ◌++◌, Result, ok, err, Error, other,
  ◌==◌, string_eq, if◌then◌else◌,
}
use worker_operator.Nodes.Lists.{same_string_slice}

-- `NodeAddress` and `NodeCondition`: a type, and an address or a status.
pub record NodeAddress : Type 0 where
  pub type : String
  pub address : String

pub record NodeCondition : Type 0 where
  pub type : String
  pub status : String

pub record Node : Type 0 where
  pub addresses : List NodeAddress
  pub conditions : List NodeCondition

pub record NodeInfo : Type 0 where
  pub node_ip_list : List String

abbrev pub node_external_ip : String
node_external_ip = "ExternalIP"

abbrev pub node_internal_ip : String
node_internal_ip = "InternalIP"

unfoldable pub all_addresses : List Node → List NodeAddress
all_addresses [] = []
all_addresses (n ∷ ns) = n.addresses ++ all_addresses ns

unfoldable pub ips_of_type : String → List NodeAddress → List String
ips_of_type t [] = []
ips_of_type t (a ∷ as') =
    let rest = ips_of_type t as' in if a.type == t then a.address ∷ rest else rest

-- The loops over the addresses: the external ones, or where there is none the internal ones.
unfoldable pub select_ips : List NodeAddress → List String
unfolding ips_of_type
select_ips addresses = elim (ips_of_type node_external_ip addresses) [
  | [] ↦ ips_of_type node_internal_ip addresses
  | ip ∷ ips ↦ ip ∷ ips
]

-- `populateNodeIpList`. An error of the API server comes back wrapped; so does an empty list.
unfoldable pub populate_node_ip_list : Result (List Node) → NodeInfo → Option Error × NodeInfo
unfolding select_ips all_addresses
populate_node_ip_list (err e) info = (some other, info)
populate_node_ip_list (ok []) info = (some other, info)
populate_node_ip_list (ok (n ∷ ns)) info =
    (none, record info { node_ip_list = select_ips (all_addresses (n ∷ ns)) })

-- `getNodeExternalIpList`
unfoldable pub get_node_external_ip_list :
    Result (List Node) → NodeInfo → Result (List String) × NodeInfo
unfolding populate_node_ip_list
get_node_external_ip_list nodes info =
    let out = populate_node_ip_list nodes info in
    elim out.0 [ some e ↦ (err e, out.1) | none ↦ (ok out.1.node_ip_list, out.1) ]

-- `GetNodeIP`: the addresses, the error beside them, and the global `NodeInfo`.
unfoldable pub get_node_ip : Result (List Node) → NodeInfo → List String × Option Error × NodeInfo
unfolding get_node_external_ip_list
get_node_ip nodes info =
    let out = get_node_external_ip_list nodes info in
    elim out.0 [
      | err e ↦ ("" ∷ [], some e, out.1)
      | ok [] ↦ ("" ∷ [], none, out.1)
      | ok (ip ∷ ips) ↦ (ip ∷ ips, none, out.1)
    ]

-- The inner loop of `filterAvailableNodes`.
unfoldable pub is_available : List NodeCondition → Bool
is_available [] = false
is_available (c ∷ cs) =
    if c.type == "Ready"
    then (if c.status == "True" then true else is_available cs)
    else is_available cs

unfoldable pub filter_available_nodes : List Node → List Node
unfolding is_available
filter_available_nodes [] = []
filter_available_nodes (n ∷ ns) =
    let rest = filter_available_nodes ns in if is_available n.conditions then n ∷ rest else rest

-- `NodeReconciler.Reconcile`; the empty `ctrl.Result` is left out.
unfoldable pub reconcile : Result (List Node) → NodeInfo → Option Error × NodeInfo
unfolding select_ips all_addresses filter_available_nodes same_string_slice
reconcile (err e) info = (some e, info)
reconcile (ok []) info = (some other, info)
reconcile (ok (n ∷ ns)) info =
    let node_ips = select_ips (all_addresses (filter_available_nodes (n ∷ ns))) in
    elim node_ips [
      | [] ↦ (some other, info)
      | ip ∷ ips ↦ (
        none,
        if same_string_slice info.node_ip_list (ip ∷ ips)
            then info
            else record info { node_ip_list = ip ∷ ips },
      )
    ]
