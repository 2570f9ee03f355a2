-- ===== src/Gateways.antt =====
-- controllers/slicegateway/utils.go: the names of gateway pods and deployments.
pub mod Names
pub mod Ports
pub mod Rebalance
use worker_operator.Base.{
  ℕ, String, ◌<>◌, Bool, ◌||◌, Option, none, some, List, [], ◌∷◌, Result, ok, err, other, ◌==◌,
  ◌/=◌, string_eq, nat_eq, if◌then◌else◌, dash, split, cut_prefix,
}
use worker_operator.Objects.{SliceGateway, GwPodInfo}

abbrev pub is_server : SliceGateway → Bool
is_server gw = gw.host_type == "Server"

unfoldable pub find_gw_pod_info : List GwPodInfo → String → Option GwPodInfo
find_gw_pod_info [] pod_name = none
find_gw_pod_info (gw_pod ∷ status) pod_name =
    if gw_pod.pod_name == pod_name then some gw_pod else find_gw_pod_info status pod_name

-- What `GetPeerGwPodName` does with the entry found. `up` is the number of `GW_TUNNEL_STATE_UP`.
unfoldable pub peer_of_info : ℕ → Option GwPodInfo → Result String
peer_of_info up none = err other
peer_of_info up (some info) =
    if info.tunnel_status.status /= up
    then err other
    else if info.peer_pod_name == ""
    then err other
    else ok info.peer_pod_name

unfoldable pub get_peer_gw_pod_name : ℕ → String → SliceGateway → Result String
unfolding find_gw_pod_info peer_of_info
get_peer_gw_pod_name up gw_pod_name gw =
    peer_of_info up (find_gw_pod_info gw.gateway_pod_status gw_pod_name)

-- The last test and the result: of the words after the identifier, two are kept.
unfoldable pub dep_name_of_words : String → List String → String
dep_name_of_words id (empty ∷ gw_instance ∷ dep_instance ∷ rest) =
    id <> ("-" <> (gw_instance <> ("-" <> dep_instance)))
dep_name_of_words id _ = ""

unfoldable pub get_dep_name_from_pod_name : String → String → String
unfolding dep_name_of_words split cut_prefix
get_dep_name_from_pod_name slice_gw_id pod_name =
    if (slice_gw_id == "") || (pod_name == "") then "" else elim (cut_prefix pod_name slice_gw_id) [
      | none ↦ ""
      | some after ↦ dep_name_of_words slice_gw_id (split dash after)
    ]
