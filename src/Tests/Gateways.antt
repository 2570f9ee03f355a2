-- ===== src/Tests/Gateways.antt =====
-- Names of gateways, deployments and pods.
use worker_operator.Base.{String, ◌<>◌, false, ◌≡◌, ◌≢◌, refl, string_eq, has_byte, dash, nat_eq}
use worker_operator.Base.{ℕ, List, [], ◌∷◌, Dict, count, ◌≤◌, arith}
use worker_operator.Gateways.Ports.{
  Allocated, allocate_node_port_to_client, allocate_node_port_to_client-Allocated,
}
use worker_operator.Objects.{SliceGateway, GwPodInfo, Pod}
use worker_operator.Base.{none}
use worker_operator.Recycler.Reconcile.{blank_slicegw}
use worker_operator.Gateways.Rebalance.{
  Rebalanced, get_pod_pair_to_rebalance, get_pod_pair_to_rebalance_lem,
}
use worker_operator.Recycler.Names.{get_new_deployment_name}
use worker_operator.Gateways.{get_dep_name_from_pod_name}
use worker_operator.Gateways.Names.{
  IsOtherInstance, get_new_deployment_name_lem, get_dep_name_from_pod_name_lem,
}

has_no_dash : has_byte dash "0" ≡ false
unfolding has_byte nat_eq
has_no_dash = refl

get_new_deployment_name_lem_example :
    (w : String) × IsOtherInstance "0" w
    × (get_new_deployment_name ("red-c1-c2-0" <> ("-" <> "0")) ≡ "red-c1-c2-0" <> ("-" <> w))
get_new_deployment_name_lem_example = get_new_deployment_name_lem "red-c1-c2-0" "0" has_no_dash

abbrev gw_id : String
gw_id = "red-c1-c2"

id-ne-nil : gw_id ≢ ""
unfolding string_eq
id-ne-nil e = cc

get_dep_name_from_pod_name_lem_example :
    get_dep_name_from_pod_name "red-c1-c2"
      ("red-c1-c2" <> ("-" <> ("0" <> ("-" <> ("0" <> ("-" <> "7f9-x2x"))))))
    ≡ "red-c1-c2" <> ("-" <> ("0" <> ("-" <> "0")))
get_dep_name_from_pod_name_lem_example =
    get_dep_name_from_pod_name_lem "red-c1-c2" "0" "0" "7f9-x2x" id-ne-nil has_no_dash has_no_dash

abbrev ports : List ℕ
ports = 30001 ∷ 30002 ∷ []

abbrev node_ports : Dict String ℕ
node_ports = ("dep-0", 30001) ∷ []

distinct : (p : ℕ) → count p ports ≤ 1
unfolding count nat_eq
distinct p = ground arith

allocate_node_port_to_client-Allocated_example :
    Allocated ports "dep-1" node_ports (allocate_node_port_to_client ports "dep-1" node_ports)
allocate_node_port_to_client-Allocated_example =
    allocate_node_port_to_client-Allocated ports "dep-1" node_ports distinct

abbrev pod : Pod
pod = record { name = "p"; labels = none; node_name = "n"; phase = "Running"; pod_ip = "10.0.0.1" }

abbrev pod_info : GwPodInfo
pod_info = record {
  pod_name = "p";
  peer_pod_name = "q";
  pod_ip = "10.0.0.1";
  local_nsm_ip = "10.1.0.1";
  tunnel_status = record {
    intf_name = "tun0";
    local_ip = "";
    remote_ip = "";
    latency = 0;
    tx_rate = 0;
    rx_rate = 0;
    packet_loss = 0;
    status = 1;
    tunnel_state = "UP";
  };
  remote_port = 0;
}

abbrev gw : SliceGateway
gw = record blank_slicegw { gateway_pod_status = pod_info ∷ [] }

get_pod_pair_to_rebalance_lem_example :
    Rebalanced 1 gw (pod ∷ []) (get_pod_pair_to_rebalance 1 (pod ∷ []) gw)
get_pod_pair_to_rebalance_lem_example = get_pod_pair_to_rebalance_lem 1 (pod ∷ []) gw
