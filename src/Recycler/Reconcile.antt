-- ===== src/Recycler/Reconcile.antt =====
-- `Reconcile` of the recycler: the objects are read, the machine of the request is found or made,
-- and the server's or the client's part runs.
use worker_operator.Base.{
  String, Option, none, some, [], ok, err, Error, is_not_found, Requeue, no_requeue, ◌==◌,
  string_eq, if◌then◌else◌, Dict, lookup, insert, erase, get_or, Retry, return, ◌>>=◌,
}
use worker_operator.Objects.{SliceGateway, GwRecycler}
use worker_operator.Recycler.Names.{st_init}
use worker_operator.Recycler.Calls.{Call, Env, Action, get_recycler, get_slicegw}
use worker_operator.Recycler.Machine.{FsmLib, transitions}
use worker_operator.Recycler.Server.{Outcome, server}
use worker_operator.Recycler.Client.{client}

-- The zero value of the Go struct.
abbrev pub blank_slicegw : SliceGateway
blank_slicegw = record {
  name = "";
  slice_name = "";
  gateway_id = "";
  host_type = "";
  connectivity_type = "";
  remote_gateway_id = "";
  remote_subnet = "";
  remote_node_ips = [];
  remote_node_ports = [];
  server_lb_ips = [];
  intermediate_deployments = [];
  gateway_pod_status = [];
}

module _ (E : Env) where
  -- The slice gateway of this cluster: the server's, else the client's; `none` where the recycler
  -- is not for this cluster. An error other than not found leaves the zero value.
  unfoldable pub find_slicegw : GwRecycler → Action (Option SliceGateway)
  find_slicegw cr = do
    server_gw ← get_slicegw E cr.slice_gw_server
    elim server_gw [
      | ok g ↦ return (some g)
      | err e ↦
          if is_not_found e
          then (do
            client_gw ← get_slicegw E cr.slice_gw_client
            elim client_gw [ ok g ↦ return (some g) | err e' ↦ return none ])
          else return (some blank_slicegw)
    ]

module _ (E : Env) (retry_do retry_on_conflict : Retry Call) (F : FsmLib) where
  -- From the restored machine state on: `f.SetState`, and the two branches.
  unfoldable pub handle : String → GwRecycler → SliceGateway → F.Machine → Action (Outcome F)
  handle name cr gw f =
      if gw.host_type == "Server"
      then server E retry_do retry_on_conflict F name cr gw (F.set_state cr.state f)
      else if gw.host_type == "Client"
      then client E retry_do retry_on_conflict F name cr gw f
      else return (no_requeue, none, f)

  abbrev pub Machines : Type 0
  Machines = Dict String F.Machine

  unfoldable pub reconcile : String → Machines → Action (Requeue × Option Error × Machines)
  unfolding handle find_slicegw transitions
  reconcile name fsms = do
    got ← get_recycler E name
    elim got [
      | err e ↦
          if is_not_found e
          then return (no_requeue, none, erase name fsms)
          else return (no_requeue, some e, fsms)
      | ok cr ↦ do
        gw ← find_slicegw E cr
        elim gw [
          | none ↦ return (no_requeue, none, fsms)
          | some g ↦ do
            let f = get_or (F.new_fsm st_init transitions) (lookup name fsms)
            done ← handle name cr g f
            return (done.0, done.1, insert name done.2 fsms)
        ]
    ]
