-- ===== src/Recycler/Client.antt =====
-- reconciler.go of the recycler, the branch `isClient`: the client serves the server's requests.
use worker_operator.Base.{
  String, none, some, Result, ok, err, Requeue, no_requeue, requeue_after, ◌==◌, string_eq,
  if◌then◌else◌, Retry, return, ◌>>=◌, ◌>>◌,
}
use worker_operator.Objects.{SliceGateway, GwRecycler}
use worker_operator.Recycler.Names.{
  req_create_new_deployment, req_update_routing_table, req_delete_old_gw_deployment, Response,
  resp_new_deployment_created, resp_routing_table_updated, resp_old_deployment_deleted,
  get_request_index, get_response_string, behind, get_new_deployment_name,
}
use worker_operator.Recycler.Calls.{
  Call, Env, Action, get_recycler, update_recycler_status, record_event,
}
use worker_operator.Recycler.Helpers.{
  or_blank, or_false, create_new_deployment, mark_gw_route_for_deletion,
  trigger_gw_deployment_deletion, check_if_deployment_is_present, get_nsm_ip_for_new_deployment,
  check_route_in_slice_router,
}
use worker_operator.Recycler.Machine.{FsmLib}
use worker_operator.Recycler.Server.{Outcome}

module _ (E : Env) where
  -- The body that each request retries: `Status.Client.Response` of a fresh copy is set.
  unfoldable pub write_response : String → Response → Action (Result (Unit {0}))
  unfolding get_response_string
  write_response name response = do
    got ← get_recycler E name
    elim got [
      | err e ↦ return (err e)
      | ok r ↦ update_recycler_status E (record r { response = get_response_string response })
    ]

module _ (E : Env) (retry_do retry_on_conflict : Retry Call) (F : FsmLib) where
  -- The end that the three requests share: post the response, then record the event.
  unfoldable pub respond : String → Response → String → Requeue → F.Machine → Action (Outcome F)
  respond name response event result f = do
    written ← retry_do (write_response E name response)
    elim written [
      | err e ↦ return (no_requeue, some e, f)
      | ok _ ↦ record_event event >> return (result, none, f)
    ]

  module _ (name : String) (cr : GwRecycler) (gw : SliceGateway) (f : F.Machine) where
    abbrev wait : Action (Outcome F)
    wait = return (requeue_after 10, none, f)

    abbrev served : Action (Outcome F)
    served = return (no_requeue, none, f)

    abbrev new_dep : String
    new_dep = get_new_deployment_name cr.gw_pair.client_id

    unfoldable pub client_create_new_deployment : Action (Outcome F)
    client_create_new_deployment =
        if behind cr.response resp_new_deployment_created
        then (do
          created ← create_new_deployment E retry_on_conflict new_dep gw.slice_name gw.name
          elim created [
            | err e ↦ return (no_requeue, some e, f)
            | ok _ ↦ do
              nsm_ip ← get_nsm_ip_for_new_deployment E gw new_dep
              if or_blank nsm_ip == "" then wait else do
                installed ← check_route_in_slice_router E gw (or_blank nsm_ip)
                if or_false installed
                    then respond name resp_new_deployment_created "FSMNewGWSpawned" no_requeue f
                    else wait
          ])
        else served

    unfoldable pub client_route_removed : Action (Outcome F)
    client_route_removed =
        respond name resp_routing_table_updated "FSMRoutingTableUpdated" (requeue_after 5) f

    unfoldable pub client_update_routing_table : Action (Outcome F)
    client_update_routing_table =
        if behind cr.response resp_routing_table_updated
        then (do
          marked ← mark_gw_route_for_deletion E retry_on_conflict cr.gw_pair.client_id
          elim marked [
            | err e ↦ return (requeue_after 10, some e, f)
            | ok _ ↦ do
              nsm_ip ← get_nsm_ip_for_new_deployment E gw cr.gw_pair.client_id
              if or_blank nsm_ip == "" then client_route_removed else do
                route_exists ← check_route_in_slice_router E gw (or_blank nsm_ip)
                if or_false route_exists then wait else client_route_removed
          ])
        else served

    unfoldable pub client_delete_old_gw_deployment : Action (Outcome F)
    client_delete_old_gw_deployment =
        if behind cr.response resp_old_deployment_deleted
        then (do
          triggered ←
              trigger_gw_deployment_deletion E retry_on_conflict gw.slice_name gw.name
                cr.gw_pair.client_id new_dep
          elim triggered [
            | err e ↦ wait
            | ok _ ↦ do
              present ← check_if_deployment_is_present E cr.gw_pair.client_id gw.slice_name gw.name
              if present
                  then wait
                  else respond name resp_old_deployment_deleted "FSMDeleteOldGW" no_requeue f
          ])
        else served

    -- `switch getRequestIndex(workerslicegwrecycler.Spec.Request)`
    unfoldable pub client : Action (Outcome F)
    client = elim (get_request_index cr.request) [
      | req_create_new_deployment ↦ client_create_new_deployment
      | req_update_routing_table ↦ client_update_routing_table
      | req_delete_old_gw_deployment ↦ client_delete_old_gw_deployment
      | _ ↦ wait
    ]
