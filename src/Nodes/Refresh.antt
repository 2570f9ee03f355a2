-- ===== src/Nodes/Refresh.antt =====
-- What the node controllers make of the nodes.
use worker_operator.Base.{
  subst, true, false, ◌==◌, ◌↔◌, ◌++◌, arith, Option, Error, ap, sym, ◌∙◌, String, some, other,
  none, List, [], ◌∷◌, Result, ok, err, ◌≡◌, ◌≢◌, ◌⊎◌, inl, inr, refl, if◌then◌else◌, Bool-cases,
  string_eq,
}
use mathlib.Core.List.{Perm}
use mathlib.Core.List.Perm
use worker_operator.Nodes.Lists.{same_string_slice}
use worker_operator.Nodes.Info.{
  NodeAddress, NodeCondition, Node, NodeInfo, is_available, ips_of_type, all_addresses, select_ips,
  filter_available_nodes, reconcile, get_node_ip,
}
use worker_operator.Nodes.Compare.{same_string_slice-Perm}

-- The node has the condition "Ready" with the status "True".
abbrev pub IsReady : List NodeCondition → Type 0
IsReady [] = ⊥
IsReady (c ∷ cs) = ((c.type ≡ "Ready") × (c.status ≡ "True")) ⊎ IsReady cs

-- The addresses of the nodes that are ready.
pub data ReadyAddresses : List Node → List NodeAddress → Type 0 where
  no_node : ReadyAddresses [] []
  ready_node :
      {n : Node} {ns : List Node} {rest : List NodeAddress}
      → IsReady n.conditions
      → ReadyAddresses ns rest
      → ReadyAddresses (n ∷ ns) (n.addresses ++ rest)
  unready_node :
      {n : Node} {ns : List Node} {rest : List NodeAddress}
      → ¬ IsReady n.conditions
      → ReadyAddresses ns rest
      → ReadyAddresses (n ∷ ns) rest

-- The addresses of a type, in order.
pub data OfType (t : String) : List NodeAddress → List String → Type 0 where
  no_address : OfType t [] []
  taken :
      {a : NodeAddress} {rest : List NodeAddress} {ips : List String}
      → a.type ≡ t
      → OfType t rest ips
      → OfType t (a ∷ rest) (a.address ∷ ips)
  left :
      {a : NodeAddress} {rest : List NodeAddress} {ips : List String}
      → a.type ≢ t
      → OfType t rest ips
      → OfType t (a ∷ rest) ips

-- The addresses that a reconcile is to leave: of the ready nodes, the external ones if any, and
-- else the internal ones.
abbrev pub Wanted : List Node → List String → Type 0
Wanted nodes ips =
    (addresses : List NodeAddress) × (external : List String) × ReadyAddresses nodes addresses
    × OfType "ExternalIP" addresses external
    × (((external ≢ []) × (ips ≡ external)) ⊎ ((external ≡ []) × OfType "InternalIP" addresses ips))

is_available-IsReady : (cs : List NodeCondition) → (is_available cs ≡ true) ↔ IsReady cs
unfolding is_available
is_available-IsReady [] = (λ h. cc, λ h. absurd h)
is_available-IsReady (c ∷ cs) = ground (arith, is_available-IsReady cs)

filtered-ReadyAddresses :
    (nodes : List Node) → ReadyAddresses nodes (all_addresses (filter_available_nodes nodes))
unfolding all_addresses filter_available_nodes
filtered-ReadyAddresses [] = no_node
filtered-ReadyAddresses (n ∷ ns) =
    let ih = filtered-ReadyAddresses ns in
    let ready = is_available-IsReady n.conditions in
    elim (Bool-cases (is_available n.conditions)) [
      | inl e ↦ rw e (ready_node (ready.0 e) ih)
      | inr e ↦ rw e (unready_node (λ r. true-ne-false (sym (ready.1 r) ∙ e)) ih)
    ]
  where
    true-ne-false : true ≢ false
    true-ne-false p = cc

ips_of_type-OfType : (t : String) (as' : List NodeAddress) → OfType t as' (ips_of_type t as')
unfolding ips_of_type
ips_of_type-OfType t [] = no_address
ips_of_type-OfType t (a ∷ as') =
    let ih = ips_of_type-OfType t as' in
    elim (Bool-cases (a.type == t)) [
      | inl e ↦ rw e (taken (ground (arith, e)) ih)
      | inr e ↦ rw e (left (ground (arith, e)) ih)
    ]

-- What the code selects.
abbrev selected : List Node → List String
selected nodes = select_ips (all_addresses (filter_available_nodes nodes))

selected-Wanted : (nodes : List Node) → Wanted nodes (selected nodes)
unfolding select_ips
selected-Wanted nodes =
    let addresses = all_addresses (filter_available_nodes nodes) in
    let ready = filtered-ReadyAddresses nodes in
    let outer = ips_of_type-OfType "ExternalIP" addresses in
    by_external addresses (ips_of_type "ExternalIP" addresses) ready outer
  where
    by_external :
        (addresses : List NodeAddress) (external : List String)
        → ReadyAddresses nodes addresses
        → OfType "ExternalIP" addresses external
        → Wanted nodes
            (elim external [ [] ↦ ips_of_type "InternalIP" addresses | ip ∷ ips ↦ ip ∷ ips ])
    by_external addresses [] ready outer =
        (addresses, [], ready, outer, inr (refl, ips_of_type-OfType "InternalIP" addresses))
    by_external addresses (ip ∷ ips) ready outer =
        (addresses, ip ∷ ips, ready, outer, inl ((λ p. cc), refl))

kept_or_set :
    (info : NodeInfo) (ips : List String)
    → Perm
        (if same_string_slice info.node_ip_list ips
          then info
          else record info { node_ip_list = ips }).node_ip_list
        ips
kept_or_set info ips = elim (Bool-cases (same_string_slice info.node_ip_list ips)) [
  | inl e ↦ rw e ((same_string_slice-Perm info.node_ip_list ips).0 e)
  | inr e ↦ rw e (Perm.refl ips)
]

List-cases :
    (ips : List String) → (ips ≡ []) ⊎ ((ip : String) × (rest : List String) × (ips ≡ ip ∷ rest))
List-cases [] = inl refl
List-cases (ip ∷ rest) = inr (ip, rest, refl)

-- How a reconcile may end: with the shared list set to the wanted addresses, up to order, of which
-- there is one at least; or with an error and the shared list as it was, where the nodes could not
-- be listed or there is no wanted address.
pub data Reconciled (answer : Result (List Node)) (info : NodeInfo)
    : Option Error × NodeInfo → Type 0 where
  refreshed :
      (nodes : List Node) (info' : NodeInfo)
      → answer ≡ ok nodes
      → (ips : List String) → Wanted nodes ips
      → ips ≢ []
      → Perm info'.node_ip_list ips
      → Reconciled answer info (none, info')
  unlisted : (e : Error) → answer ≡ err e → Reconciled answer info (some e, info)
  without_address :
      (nodes : List Node)
      → answer ≡ ok nodes
      → Wanted nodes []
      → Reconciled answer info (some other, info)

-- Every reconcile of the nodes ends in one of three ways: it reports no error and leaves in the
-- shared list, up to order, exactly the addresses of the ready nodes (their external addresses, or
-- their internal ones if there is no external one), at least one; or the nodes could not be listed
-- and it returns that error; or the ready nodes have no address and it reports an error. In the
-- last two the shared list stays as it was.
pub reconcile_lem :
    (answer : Result (List Node)) (info : NodeInfo) → Reconciled answer info (reconcile answer info)
unfolding reconcile all_addresses filter_available_nodes
reconcile_lem (err e) info = unlisted e refl
reconcile_lem (ok []) info =
    without_address [] refl ([], [], no_node, no_address, inr (refl, no_address))
reconcile_lem (ok (n ∷ ns)) info = elim (List-cases (selected (n ∷ ns))) [
  | inl e ↦
      rw (e, reconcile)
        (without_address (n ∷ ns) refl (subst (Wanted (n ∷ ns)) e (selected-Wanted (n ∷ ns))))
  | inr (ip, rest, e) ↦
      rw (e, reconcile)
        (refreshed (n ∷ ns) _ refl (ip ∷ rest)
          (subst (Wanted (n ∷ ns)) e (selected-Wanted (n ∷ ns))) (λ z. cc)
          (kept_or_set info (ip ∷ rest)))
]

-- The nodes without their conditions, so that none is ready.
abbrev pub forget : List Node → List Node
forget [] = []
forget (n ∷ ns) = record n { conditions = [] } ∷ forget ns

all_addresses-forget : (ns : List Node) → all_addresses (forget ns) ≡ all_addresses ns
unfolding all_addresses
all_addresses-forget [] = refl
all_addresses-forget (n ∷ ns) = rw (all_addresses-forget ns)

-- What `GetNodeIP` gives for a list of nodes with these addresses.
from_addresses : NodeInfo → List NodeAddress → List String × Option Error × NodeInfo
from_addresses info a = elim (select_ips a) [
  | [] ↦ ("" ∷ [], none, record info { node_ip_list = select_ips a })
  | ip ∷ ips ↦ (ip ∷ ips, none, record info { node_ip_list = select_ips a })
]

get_node_ip-from_addresses :
    (n : Node) (ns : List Node) (info : NodeInfo)
    → get_node_ip (ok (n ∷ ns)) info ≡ from_addresses info (all_addresses (n ∷ ns))
unfolding get_node_ip from_addresses
get_node_ip-from_addresses n ns info = refl

-- `GetNodeIP` gives the same result whether the nodes are ready or not: it takes no account of
-- their conditions.
pub get_node_ip-forget :
    (nodes : List Node) (info : NodeInfo)
    → get_node_ip (ok (forget nodes)) info ≡ get_node_ip (ok nodes) info
unfolding get_node_ip
get_node_ip-forget [] info = refl
get_node_ip-forget (n ∷ ns) info =
    get_node_ip-from_addresses (record n { conditions = [] }) (forget ns) info
    ∙ ap (from_addresses info) (all_addresses-forget (n ∷ ns))
    ∙ sym (get_node_ip-from_addresses n ns info)
