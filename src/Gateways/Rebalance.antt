-- ===== src/Gateways/Rebalance.antt =====
-- `getPodPairToRebalance` of controllers/slicegateway/utils.go.
use worker_operator.Base.{
  ℕ, String, Option, none, some, List, [], ◌∷◌, ok, err, other, ◌≡◌, refl, subst, sym, ◌/=◌,
  string_eq, nat_eq, if◌then◌else◌, Option-cases, inl, inr, arith,
}
use worker_operator.Objects.{SliceGateway, GwPodInfo, Pod}
use worker_operator.Gateways.{find_gw_pod_info, peer_of_info, get_peer_gw_pod_name}

-- What one turn of the loop returns, if it returns.
unfoldable pub pair_of_info : ℕ → Option GwPodInfo → Option (String × String)
pair_of_info up none = none
pair_of_info up (some info) =
    if info.tunnel_status.status /= up
    then none
    else if info.peer_pod_name /= ""
    then some (info.pod_name, info.peer_pod_name)
    else none

unfoldable pub get_pod_pair_to_rebalance : ℕ → List Pod → SliceGateway → String × String
unfolding find_gw_pod_info pair_of_info
get_pod_pair_to_rebalance up [] gw = ("", "")
get_pod_pair_to_rebalance up (pod ∷ pods) gw =
    elim (pair_of_info up (find_gw_pod_info gw.gateway_pod_status pod.name)) [
      | some pair ↦ pair
      | none ↦ get_pod_pair_to_rebalance up pods gw
    ]

find_gw_pod_info-name :
    (status : List GwPodInfo) (n : String) (info : GwPodInfo)
    → find_gw_pod_info status n ≡ some info
    → info.pod_name ≡ n
unfolding find_gw_pod_info
find_gw_pod_info-name [] n info e = cc
find_gw_pod_info-name (s ∷ ss) n info e = ground (arith, find_gw_pod_info-name ss n info)

-- The pair agrees with the peer that `GetPeerGwPodName` finds.
pair_of_info-peer :
    (up : ℕ) (o : Option GwPodInfo) (p : String × String)
    → pair_of_info up o ≡ some p
    → peer_of_info up o ≡ ok p.1
unfolding pair_of_info peer_of_info
pair_of_info-peer up none p e = cc
pair_of_info-peer up (some info) p e = grind arith

pair_of_info-name :
    (up : ℕ) (o : Option GwPodInfo) (n : String) (p : String × String)
    → ((info : GwPodInfo) → o ≡ some info → info.pod_name ≡ n)
    → pair_of_info up o ≡ some p
    → p.0 ≡ n
unfolding pair_of_info
pair_of_info-name up none n p h e = cc
pair_of_info-name up (some info) n p h e = let same : info.pod_name ≡ n = h info refl in grind arith

no_pair-peer :
    (up : ℕ) (o : Option GwPodInfo) → pair_of_info up o ≡ none → peer_of_info up o ≡ err other
unfolding pair_of_info peer_of_info
no_pair-peer up none e = refl
no_pair-peer up (some info) e = ground arith

-- A pod of the list with the peer that is found for it; or no pod of the list has a peer.
pub data Rebalanced (up : ℕ) (gw : SliceGateway) : List Pod → String × String → Type 0 where
  here :
      {pods : List Pod} (pod : Pod) (peer : String)
      → get_peer_gw_pod_name up pod.name gw ≡ ok peer
      → Rebalanced up gw (pod ∷ pods) (pod.name, peer)
  later :
      {pods : List Pod} {p : String × String} (pod : Pod)
      → get_peer_gw_pod_name up pod.name gw ≡ err other
      → Rebalanced up gw pods p
      → Rebalanced up gw (pod ∷ pods) p
  no_pair : Rebalanced up gw [] ("", "")

-- The pair of pods to rebalance is the first pod of the node for which `GetPeerGwPodName` gives a
-- peer, with that peer, or two empty names where it gives an error for every pod.
pub get_pod_pair_to_rebalance_lem :
    (up : ℕ) (pods : List Pod) (gw : SliceGateway)
    → Rebalanced up gw pods (get_pod_pair_to_rebalance up pods gw)
unfolding get_pod_pair_to_rebalance get_peer_gw_pod_name
get_pod_pair_to_rebalance_lem up [] gw = no_pair
get_pod_pair_to_rebalance_lem up (pod ∷ pods) gw =
    elim (Option-cases (pair_of_info up (find_gw_pod_info gw.gateway_pod_status pod.name))) [
      | inl e ↦
          rw (e, get_pod_pair_to_rebalance)
            (later pod (no_pair-peer up _ e) (get_pod_pair_to_rebalance_lem up pods gw))
      | inr (p, e) ↦
          rw (e, get_pod_pair_to_rebalance)
            (subst (λ x. Rebalanced up gw (pod ∷ pods) (x, p.1))
              (sym (
                pair_of_info-name up _ pod.name p
                  (find_gw_pod_info-name gw.gateway_pod_status pod.name) e))
              (here pod p.1 (pair_of_info-peer up _ p e)))
    ]
