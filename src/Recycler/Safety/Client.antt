-- ===== src/Recycler/Safety/Client.antt =====
-- The client's part of the recycler makes permitted calls only.
use worker_operator.Base.{
  ℕ, String, Bool, List, ok, err, Error, ◌≡◌, refl, inl, inr, Retry, IsRetry, Emits, Emits-return,
  Emits-bind, Emits-then, Emits-emit, Emits-ask, Adds-perform, Emits-retry, Emits-if, return,
  string_eq, ◌==◌, true, Requeue, requeue_after, none,
}
use worker_operator.Objects.{SliceGateway, GwRecycler}
use worker_operator.Recycler.Names.{
  Request, Response, behind, resp_new_deployment_created, resp_routing_table_updated,
  resp_old_deployment_deleted, req_create_new_deployment, req_update_routing_table,
  req_delete_old_gw_deployment, get_response_string, get_request_index,
}
use worker_operator.Recycler.Calls.{Call, Env}
use worker_operator.Recycler.Helpers.{or_blank, or_false}
use worker_operator.Recycler.Machine.{FsmLib}
use worker_operator.Recycler.Server.{Outcome}
use worker_operator.Recycler.Client.{
  write_response, respond, client_create_new_deployment, client_route_removed,
  client_update_routing_table, client_delete_old_gw_deployment, client,
}
use worker_operator.Recycler.Footprint.{
  AllowsReads, Emits-create_new_deployment, Emits-check_if_deployment_is_present,
  Emits-get_nsm_ip_for_new_deployment, Emits-check_route_in_slice_router,
  Emits-mark_gw_route_for_deletion, Emits-trigger_gw_deployment_deletion,
}
use worker_operator.Recycler.Permitted.{
  Permitted, Permitted-reads, ClientWrite, answer, created, rerouted, removed,
}

module _ (E : Env) (retry_do retry_on_conflict : Retry Call) {again again' : Error → Bool}
    {n n' : ℕ} (law : IsRetry again n retry_do) (law' : IsRetry again' n' retry_on_conflict)
    (F : FsmLib) (name : String) (cr : GwRecycler) (gw : SliceGateway) where
  abbrev Q : List Call → Call → Type 0
  Q = Permitted name cr gw

  abbrev reads : AllowsReads Q
  reads = Permitted-reads name cr gw

  Emits-write_response :
      (a : Response)
      → gw.host_type ≡ "Client"
      → ((r : GwRecycler) → ClientWrite cr r (record r { response = get_response_string a }))
      → Emits Q (write_response E name a)
  unfolding write_response
  Emits-write_response a host write =
      Emits-ask Q _ _ _ (λ h. tt)
        (elim [
          | err e ↦ λ h. Emits-return Q _ _
          | ok r ↦ λ h. Adds-perform Q _ _ _ (λ res. (host, (r, (h, refl), write r)))
        ])

  module _ (f : F.Machine) (host : gw.host_type ≡ "Client") where
    Emits-respond :
        (a : Response) (ev : String) (result : Requeue)
        → ((r : GwRecycler) → ClientWrite cr r (record r { response = get_response_string a }))
        → Emits Q (respond E retry_do retry_on_conflict F name a ev result f)
    unfolding respond
    Emits-respond a ev result write =
        Emits-bind Q _ _ (Emits-retry Q retry_do _ law (Emits-write_response a host write)) (elim [
          | err e ↦ Emits-return Q _
          | ok _ ↦ Emits-then Q _ _ (Emits-emit Q _ (λ h. tt)) (Emits-return Q _)
        ])

    Emits-client_create_new_deployment :
        get_request_index cr.request ≡ req_create_new_deployment
        → Emits Q (client_create_new_deployment E retry_do retry_on_conflict F name cr gw f)
    unfolding client_create_new_deployment
    Emits-client_create_new_deployment asked =
        Emits-if Q (behind cr.response resp_new_deployment_created) _ _
          (λ due.
            Emits-bind Q _ _
              (Emits-create_new_deployment E Q reads retry_on_conflict law' _ _ _ (λ h g r e. (
                g,
                cr.gw_pair.client_id,
                (h, refl),
                inr (host, refl),
                inl (inr (host, asked, due), e, refl),
              )))
              (elim [
                | err e ↦ Emits-return Q _
                | ok _ ↦ Emits-bind Q _ _ (Emits-get_nsm_ip_for_new_deployment E Q reads gw _) λ ip.
                    Emits-if Q (or_blank ip == "") _ _ (λ _. Emits-return Q _)
                      (λ _.
                        Emits-bind Q _ _ (Emits-check_route_in_slice_router E Q reads gw _)
                          λ installed.
                            Emits-if Q (or_false installed) _ _
                              (λ _. Emits-respond _ _ _ (λ r. answer _ _ asked created due refl))
                              (λ _. Emits-return Q _))
              ]))
          (λ _. Emits-return Q _)

    Emits-client_route_removed :
        get_request_index cr.request ≡ req_update_routing_table
        → behind cr.response resp_routing_table_updated ≡ true
        → Emits Q (client_route_removed E retry_do retry_on_conflict F name cr gw f)
    unfolding client_route_removed
    Emits-client_route_removed asked due =
        Emits-respond _ _ _ (λ r. answer _ _ asked rerouted due refl)

    Emits-client_update_routing_table :
        get_request_index cr.request ≡ req_update_routing_table
        → Emits Q (client_update_routing_table E retry_do retry_on_conflict F name cr gw f)
    unfolding client_update_routing_table
    Emits-client_update_routing_table asked =
        Emits-if Q (behind cr.response resp_routing_table_updated) _ _
          (λ due.
            Emits-bind Q _ _
              (Emits-mark_gw_route_for_deletion E Q reads retry_on_conflict law' _
                (λ h p labels r e. (p, labels, inr (host, asked, due), e, refl)))
              (elim [
                | err e ↦ Emits-return Q _
                | ok _ ↦ Emits-bind Q _ _ (Emits-get_nsm_ip_for_new_deployment E Q reads gw _) λ ip.
                    Emits-if Q (or_blank ip == "") _ _ (λ _. Emits-client_route_removed asked due)
                      (λ _.
                        Emits-bind Q _ _ (Emits-check_route_in_slice_router E Q reads gw _)
                          λ exists.
                            Emits-if Q (or_false exists) _ _ (λ _. Emits-return Q _)
                              (λ _. Emits-client_route_removed asked due))
              ]))
          (λ _. Emits-return Q _)

    Emits-client_delete_old_gw_deployment :
        get_request_index cr.request ≡ req_delete_old_gw_deployment
        → Emits Q (client_delete_old_gw_deployment E retry_do retry_on_conflict F name cr gw f)
    unfolding client_delete_old_gw_deployment
    Emits-client_delete_old_gw_deployment asked =
        Emits-if Q (behind cr.response resp_old_deployment_deleted) _ _
          (λ due.
            Emits-bind Q _ _
              (Emits-trigger_gw_deployment_deletion E Q reads retry_on_conflict law' _ _ _ _
                (λ h x r e. (x, inr (host, e), inr (host, asked, due), refl))
                (λ h g r. (
                  g,
                  cr.gw_pair.client_id,
                  (h, refl),
                  inr (host, refl),
                  inr (inr (host, asked, due), refl),
                )))
              (elim [
                | err e ↦ Emits-return Q _
                | ok _ ↦
                    Emits-bind Q _ _ (Emits-check_if_deployment_is_present E Q reads _ _ _)
                      λ present.
                        Emits-if Q present _ _ (λ _. Emits-return Q _)
                          (λ _. Emits-respond _ _ _ (λ r. answer _ _ asked removed due refl))
              ]))
          (λ _. Emits-return Q _)

    pub Emits-client : Emits Q (client E retry_do retry_on_conflict F name cr gw f)
    unfolding client
    Emits-client = asks (get_request_index cr.request) refl
      where
        asks :
            (q : Request)
            → get_request_index cr.request ≡ q
            → Emits {A = Outcome F} Q (elim q [
              | req_create_new_deployment ↦
                  client_create_new_deployment E retry_do retry_on_conflict F name cr gw f
              | req_update_routing_table ↦
                  client_update_routing_table E retry_do retry_on_conflict F name cr gw f
              | req_delete_old_gw_deployment ↦
                  client_delete_old_gw_deployment E retry_do retry_on_conflict F name cr gw f
              | _ ↦ return (requeue_after 10, none, f)
            ])
        asks req_create_new_deployment e = Emits-client_create_new_deployment e
        asks req_update_routing_table e = Emits-client_update_routing_table e
        asks req_delete_old_gw_deployment e = Emits-client_delete_old_gw_deployment e
        asks _ e = Emits-return Q _
