-- ===== src/Tests/Recycler.antt =====
-- One recycler between the gateways gw-s (server) and gw-c (client), with answers that let each
-- step go through.
use worker_operator.Base.{
  ℕ, zero, suc, String, Bool, true, none, some, List, [], ◌∷◌, ok, Error, refl, Retry, IsRetry,
  stop, newest, older, arith, string_eq, nat_eq, Adds, perform, emit, continue, return, ◌>>=◌, ◌>>◌,
  insert, split, join, cut_prefix,
}
use worker_operator.Objects.{SliceGateway, GwRecycler, GwPodInfo, Pod}
use worker_operator.Recycler.Names.{
  get_new_deployment_name, get_request_string, get_request_index, get_response_string,
  get_response_index,
}
use worker_operator.Recycler.Calls.{Call, Env, updated_pod}
use worker_operator.Recycler.Machine.{FsmLib, IsFsm}
use worker_operator.Recycler.Server.{
  server, server_init, server_new_deployment_created, server_slicerouter_updated,
  server_route_removed, advance, write_state,
}
use worker_operator.Recycler.Client.{client, client_create_new_deployment, respond, write_response}
use worker_operator.Recycler.Helpers.{
  mark_gw_route_for_deletion, exclude_gw_pod, get_pod_for_gw_deployment, create_new_deployment,
  find_deployment, add_intermediate_deployment, check_if_deployment_is_present,
  get_nsm_ip_for_new_deployment, get_nsm_ips_for_gw_deployment, nsm_ips_of_pods, nsm_ips_of_pod,
  check_route_in_slice_router, get_slice_router_pod_ip, running_pod_ip,
}
use worker_operator.Recycler.Reconcile.{handle, blank_slicegw}
use worker_operator.Recycler.Permitted.{Permitted}
use worker_operator.Recycler.Safety.Handle.{handle-Permitted}
use worker_operator.Recycler.Handshake.{
  SeesOwnWrites, Versions, opened, server_write, client_write, Among, calls,
}
use worker_operator.Recycler.Handshake
use worker_operator.Recycler.Handshake.Stages.{Agreed}
use worker_operator.Recycler.Handshake.Order.{new_recycler, Due, Versions-Agreed, deletion_in_order}

-- A retry helper that gives up at once.
abbrev once : Retry Call
once body = body

abbrev all_errors : Error → Bool
all_errors e = true

once-IsRetry : IsRetry all_errors 10 once
once-IsRetry body h = stop h

-- A machine is its state, and every event is accepted.
abbrev fsm_lib : FsmLib
fsm_lib = record {
  Machine = String;
  new_fsm = λ s table. s;
  current = λ m. m;
  set_state = λ s m. s;
  event = λ n m. (ok tt, m);
}

fsm_lib-IsFsm : IsFsm fsm_lib
fsm_lib-IsFsm = record { current-set = λ s m. refl }

abbrev pod : Pod
pod = record {
  name = "p";
  labels = some [];
  node_name = "n";
  phase = "Running";
  pod_ip = "10.0.0.1";
}

abbrev pod_info : GwPodInfo
pod_info = record {
  pod_name = "p";
  peer_pod_name = "q";
  pod_ip = "10.0.0.1";
  local_nsm_ip = "10.1.0.1";
  tunnel_status = record {
    intf_name = "tun0";
    local_ip = "";
    remote_ip = "";
    latency = 0;
    tx_rate = 0;
    rx_rate = 0;
    packet_loss = 0;
    status = 0;
    tunnel_state = "UP";
  };
  remote_port = 0;
}

abbrev server_gw : SliceGateway
server_gw = record blank_slicegw {
  name = "gw-s";
  slice_name = "red";
  host_type = "Server";
  gateway_pod_status = pod_info ∷ [];
}

abbrev client_gw : SliceGateway
client_gw = record server_gw { name = "gw-c"; host_type = "Client" }

abbrev after : ℕ → List Call → List Call
after zero cs = cs
after (suc n) [] = []
after (suc n) (c ∷ cs) = after n cs

abbrev fresh : GwRecycler
fresh = new_recycler "gw-s-0-0" "gw-c-0-0" "gw-s-0-0" "gw-s" "gw-c"

-- The hub holds `cur`, and every call succeeds.
abbrev env : GwRecycler → Env
env cur = record {
  get_recycler = λ h n. ok cur;
  update_recycler = λ h r. ok tt;
  update_recycler_status = λ h r. ok tt;
  get_slicegw = λ h n. ok server_gw;
  update_slicegw_status = λ h g. ok tt;
  list_deployments = λ h s g. ok (record { name = "gw-s-0-1"; labels = none } ∷ []);
  update_deployment = λ h d. ok tt;
  list_pods = λ h d. ok (pod ∷ []);
  update_pod = λ h p. ok tt;
  list_router_pods = λ h s. ok [];
  get_route = λ h a s ip. ok true;
}

handle-Permitted_example :
    Adds
      (Permitted "red/r" fresh server_gw)
      []
      (handle (env fresh) once once fsm_lib "red/r" fresh server_gw "init" []).1
handle-Permitted_example =
    handle-Permitted (env fresh) once once all_errors all_errors 10 10 fsm_lib "red/r" fresh
      server_gw "init" once-IsRetry once-IsRetry fsm_lib-IsFsm []

abbrev created_version : GwRecycler
created_version = record fresh {
  state = "new_deployment_created_state";
  request = "create_new_deployment";
}

abbrev answered_version : GwRecycler
answered_version = record created_version { response = "new_deployment_created" }

abbrev rerouted_version : GwRecycler
rerouted_version = record answered_version {
  state = "slicerouter_updated_state";
  request = "update_routing_table";
}

abbrev run : SliceGateway → GwRecycler → List Call
run gw cur = calls fsm_lib once once (env cur) "red/r" cur gw "init" []

one_write : Versions fsm_lib once once fresh created_version (fresh ∷ [])
unfolding new_recycler handle server server_init server_new_deployment_created client
    client_create_new_deployment respond write_response create_new_deployment find_deployment
    add_intermediate_deployment advance write_state check_if_deployment_is_present
    get_nsm_ip_for_new_deployment get_nsm_ips_for_gw_deployment nsm_ips_of_pods nsm_ips_of_pod
    check_route_in_slice_router get_slice_router_pod_ip running_pod_ip get_request_string
    get_request_index get_response_string get_response_index get_new_deployment_name split join
    cut_prefix perform emit continue return ◌>>=◌ ◌>>◌ string_eq nat_eq
one_write =
    server_write (env fresh) "red/r" server_gw "init" [] (after 3 (run server_gw fresh)) fresh
      created_version (ok tt) opened (Handshake.newest refl) (omega arith) (older _ newest)

two_writes : Versions fsm_lib once once fresh answered_version (created_version ∷ fresh ∷ [])
unfolding new_recycler handle server server_init server_new_deployment_created client
    client_create_new_deployment respond write_response create_new_deployment find_deployment
    add_intermediate_deployment advance write_state check_if_deployment_is_present
    get_nsm_ip_for_new_deployment get_nsm_ips_for_gw_deployment nsm_ips_of_pods nsm_ips_of_pod
    check_route_in_slice_router get_slice_router_pod_ip running_pod_ip get_request_string
    get_request_index get_response_string get_response_index get_new_deployment_name split join
    cut_prefix perform emit continue return ◌>>=◌ ◌>>◌ string_eq nat_eq
two_writes =
    client_write (env created_version) "red/r" client_gw "init" []
      (after 3 (run client_gw created_version)) created_version answered_version (ok tt) one_write
      (Handshake.newest refl) (omega arith) (older _ newest)

-- The server's controller has seen the client's answer.
three_writes :
    Versions fsm_lib once once fresh rerouted_version
      (answered_version ∷ created_version ∷ fresh ∷ [])
unfolding new_recycler handle server server_init server_new_deployment_created client
    client_create_new_deployment respond write_response create_new_deployment find_deployment
    add_intermediate_deployment advance write_state check_if_deployment_is_present
    get_nsm_ip_for_new_deployment get_nsm_ips_for_gw_deployment nsm_ips_of_pods nsm_ips_of_pod
    check_route_in_slice_router get_slice_router_pod_ip running_pod_ip get_request_string
    get_request_index get_response_string get_response_index get_new_deployment_name split join
    cut_prefix perform emit continue return ◌>>=◌ ◌>>◌ string_eq nat_eq
three_writes =
    server_write (env answered_version) "red/r" server_gw "init" []
      (after 2 (run server_gw answered_version)) answered_version rerouted_version (ok tt)
      two_writes (Handshake.newest refl) (omega arith) newest

own_writes_seen : SeesOwnWrites fsm_lib once once three_writes
unfolding three_writes two_writes one_write
own_writes_seen = (refl, (refl, (refl, tt)))

Versions-Agreed_example : Agreed rerouted_version
Versions-Agreed_example =
    Versions-Agreed fsm_lib once once all_errors all_errors 10 10 fresh rerouted_version
      (answered_version ∷ created_version ∷ fresh ∷ []) "gw-s-0-0" "gw-c-0-0" "gw-s-0-0" "gw-s"
      "gw-c" once-IsRetry once-IsRetry fsm_lib-IsFsm refl three_writes own_writes_seen
      rerouted_version (Handshake.newest refl)

-- The pod of the old gateway, excluded on the server.
deletion_in_order_example : Due rerouted_version (
    updated_pod
      (record pod { labels = some (("kubeslice.io/exclude-gw-route", "true") ∷ []) })
      (ok tt))
unfolding handle server server_slicerouter_updated server_route_removed mark_gw_route_for_deletion
    exclude_gw_pod get_pod_for_gw_deployment new_recycler insert get_nsm_ip_for_new_deployment
    get_nsm_ips_for_gw_deployment nsm_ips_of_pods nsm_ips_of_pod check_route_in_slice_router
    get_slice_router_pod_ip running_pod_ip perform emit continue return ◌>>=◌ ◌>>◌ string_eq nat_eq
deletion_in_order_example =
    deletion_in_order fsm_lib once once all_errors all_errors 10 10 fresh rerouted_version
      (answered_version ∷ created_version ∷ fresh ∷ []) (env rerouted_version) "red/r" server_gw
      "init" [] (after 5 (run server_gw rerouted_version)) rerouted_version "gw-s-0-0" "gw-c-0-0"
      "gw-s-0-0" "gw-s" "gw-c" once-IsRetry once-IsRetry fsm_lib-IsFsm refl three_writes
      own_writes_seen (Handshake.newest refl) (omega arith)
      (updated_pod (record pod { labels = some (("kubeslice.io/exclude-gw-route", "true") ∷ []) })
        (ok tt))
      (older _ (older _ (older _ (older _ newest))))
