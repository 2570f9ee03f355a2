-- ===== src/Recycler/Server.antt =====
-- reconciler.go of the recycler, the branch `isServer`: the server drives the state machine.
use worker_operator.Base.{
  String, Option, none, some, List, [], ◌∷◌, Result, ok, err, Error, Requeue, no_requeue,
  requeue_after, ◌==◌, string_eq, if◌then◌else◌, Retry, return, ◌>>=◌, ◌>>◌,
}
use worker_operator.Objects.{SliceGateway, GwRecycler}
use worker_operator.Recycler.Names.{
  st_init, st_new_deployment_created, st_slicerouter_updated, st_old_deployment_deleted, st_error,
  st_end, ev_verify_new_deployment_created, ev_update_routing_table, ev_delete_old_gw_deployment,
  ev_end, Request, req_none, req_create_new_deployment, req_update_routing_table,
  req_delete_old_gw_deployment, resp_new_deployment_created, resp_routing_table_updated,
  resp_old_deployment_deleted, get_request_string, behind, get_new_deployment_name,
}
use worker_operator.Recycler.Calls.{Call, Env, Action, get_recycler, update_recycler, record_event}
use worker_operator.Recycler.Helpers.{
  or_blank, or_false, create_new_deployment, mark_gw_route_for_deletion,
  trigger_gw_deployment_deletion, check_if_deployment_is_present, get_nsm_ip_for_new_deployment,
  check_route_in_slice_router,
}
use worker_operator.Recycler.Machine.{FsmLib}

-- What `Reconcile` returns, with the state machine as it leaves it.
abbrev pub Outcome : FsmLib → Type 0
Outcome F = Requeue × Option Error × F.Machine

module _ (E : Env) where
  -- The body that each state retries: `Spec.State` and `Spec.Request` of a fresh copy are set.
  unfoldable pub write_state : String → String → Request → Action (Result (Unit {0}))
  unfolding get_request_string
  write_state name state request = do
    got ← get_recycler E name
    elim got [
      | err e ↦ return (err e)
      | ok r ↦ update_recycler E (record r { state = state; request = get_request_string request })
    ]

module _ (E : Env) (retry_do retry_on_conflict : Retry Call) (F : FsmLib) where
  -- The end that the four productive states share: write the next state, then fire the event.
  -- `events` are the Kubernetes events that are recorded at last.
  unfoldable pub advance :
      String → String → Request → String → List String → Requeue → F.Machine → Action (Outcome F)
  advance name state request event events result f = do
    written ← retry_do (write_state E name state request)
    elim written [
      | err e ↦ return (no_requeue, some e, f)
      | ok _ ↦ elim (F.event event f).0 [
        | err e ↦ return (no_requeue, some e, (F.event event f).1)
        | ok _ ↦ elim events [
          | [] ↦ return (result, none, (F.event event f).1)
          | e ∷ _ ↦ record_event e >> return (result, none, (F.event event f).1)
        ]
      ]
    ]

  -- `name` is the request's `NamespacedName`.
  module _ (name : String) (cr : GwRecycler) (gw : SliceGateway) (f : F.Machine) where
    abbrev wait : Action (Outcome F)
    wait = return (requeue_after 10, none, f)

    abbrev new_dep : String
    new_dep = get_new_deployment_name cr.gw_pair.server_id

    unfoldable pub server_init : Action (Outcome F)
    server_init = do
      created ← create_new_deployment E retry_on_conflict new_dep gw.slice_name gw.name
      elim created [
        | err e ↦ return (no_requeue, some e, f)
        | ok _ ↦
            advance name st_new_deployment_created req_create_new_deployment
              ev_verify_new_deployment_created ("FSMNewGWSpawned" ∷ []) no_requeue f
      ]

    unfoldable pub server_new_deployment_created : Action (Outcome F)
    server_new_deployment_created = do
      present ← check_if_deployment_is_present E new_dep gw.slice_name gw.name
      if present
          then (if behind cr.response resp_new_deployment_created then wait else do
            nsm_ip ← get_nsm_ip_for_new_deployment E gw new_dep
            if or_blank nsm_ip == "" then wait else do
              installed ← check_route_in_slice_router E gw (or_blank nsm_ip)
              if or_false installed
                  then advance name st_slicerouter_updated req_update_routing_table
                      ev_update_routing_table [] no_requeue f
                  else wait)
          else wait

    -- The tests after the check of the old route.
    unfoldable pub server_route_removed : Action (Outcome F)
    server_route_removed =
        if behind cr.response resp_routing_table_updated
        then wait
        else advance name st_old_deployment_deleted req_delete_old_gw_deployment
            ev_delete_old_gw_deployment ("FSMRoutingTableUpdated" ∷ []) (requeue_after 5) f

    unfoldable pub server_slicerouter_updated : Action (Outcome F)
    server_slicerouter_updated = do
      marked ← mark_gw_route_for_deletion E retry_on_conflict cr.gw_pair.server_id
      elim marked [
        | err e ↦ return (requeue_after 10, some e, f)
        | ok _ ↦ do
          nsm_ip ← get_nsm_ip_for_new_deployment E gw cr.gw_pair.server_id
          if or_blank nsm_ip == "" then server_route_removed else do
            route_exists ← check_route_in_slice_router E gw (or_blank nsm_ip)
            if or_false route_exists then wait else server_route_removed
      ]

    unfoldable pub server_old_deployment_deleted : Action (Outcome F)
    server_old_deployment_deleted = do
      triggered ←
          trigger_gw_deployment_deletion E retry_on_conflict gw.slice_name gw.name
            cr.gw_pair.server_id new_dep
      elim triggered [
        | err e ↦ wait
        | ok _ ↦ do
          present ← check_if_deployment_is_present E cr.gw_pair.server_id gw.slice_name gw.name
          if present
              then wait
              else if behind cr.response resp_old_deployment_deleted
              then wait
              else advance name st_end req_none ev_end ("FSMDeleteOldGW" ∷ []) no_requeue f
      ]

    -- `switch f.Current()`
    unfoldable pub server : Action (Outcome F)
    server =
        if F.current f == st_init
        then server_init
        else if F.current f == st_new_deployment_created
        then server_new_deployment_created
        else if F.current f == st_slicerouter_updated
        then server_slicerouter_updated
        else if F.current f == st_old_deployment_deleted
        then server_old_deployment_deleted
        else if F.current f == st_error
        then return (requeue_after 30, none, f)
        else if F.current f == st_end
        then return (requeue_after 60, none, f)
        else return (requeue_after 30, none, f)
