-- ===== src/Recycler/Safety/Server.antt =====
-- The server's part of the recycler makes permitted calls only.
use worker_operator.Base.{
  ℕ, String, Bool, true, List, [], ◌∷◌, Result, ok, err, Error, ◌≡◌, refl, inl, inr, some, none,
  Retry, IsRetry, Emits, Emits-return, Emits-bind, Emits-then, Emits-emit, Emits-ask, Adds-perform,
  Emits-retry, Emits-if, return, ◌>>◌, no_requeue, string_eq, arith, ◌==◌, Requeue,
}
use worker_operator.Objects.{SliceGateway, GwRecycler}
use worker_operator.Recycler.Names.{
  st_init, st_new_deployment_created, st_slicerouter_updated, st_old_deployment_deleted, st_end,
  st_error, Request, behind, resp_new_deployment_created, resp_routing_table_updated,
  resp_old_deployment_deleted,
}
use worker_operator.Recycler.Calls.{Call, Env, record_event}
use worker_operator.Recycler.Helpers.{or_blank, or_false}
use worker_operator.Recycler.Machine.{FsmLib}
use worker_operator.Recycler.Server.{
  Outcome, write_state, advance, server_init, server_new_deployment_created, server_route_removed,
  server_slicerouter_updated, server_old_deployment_deleted, server,
}
use worker_operator.Recycler.Footprint.{
  AllowsReads, Emits-create_new_deployment, Emits-check_if_deployment_is_present,
  Emits-get_nsm_ip_for_new_deployment, Emits-check_route_in_slice_router,
  Emits-mark_gw_route_for_deletion, Emits-trigger_gw_deployment_deletion,
}
use worker_operator.Recycler.Permitted.{
  Permitted, Permitted-reads, ServerWrite, start, reroute, remove, finish, with_state,
}

module _ (E : Env) (retry_do retry_on_conflict : Retry Call) {again again' : Error → Bool}
    {n n' : ℕ} (law : IsRetry again n retry_do) (law' : IsRetry again' n' retry_on_conflict)
    (F : FsmLib) (name : String) (cr : GwRecycler) (gw : SliceGateway) where
  abbrev Q : List Call → Call → Type 0
  Q = Permitted name cr gw

  abbrev reads : AllowsReads Q
  reads = Permitted-reads name cr gw

  Emits-write_state :
      (s : String) (q : Request)
      → gw.host_type ≡ "Server"
      → ((r : GwRecycler) → ServerWrite cr r (with_state r s q))
      → Emits Q (write_state E name s q)
  unfolding write_state
  Emits-write_state s q host write =
      Emits-ask Q _ _ _ (λ h. tt)
        (elim [
          | err e ↦ λ h. Emits-return Q _ _
          | ok r ↦ λ h. Adds-perform Q _ _ _ (λ res. (host, (r, (h, refl), write r)))
        ])

  Emits-advance :
      (s : String) (q : Request) (ev : String) (es : List String) (result : Requeue) (f : F.Machine)
      → gw.host_type ≡ "Server"
      → ((r : GwRecycler) → ServerWrite cr r (with_state r s q))
      → Emits Q (advance E retry_do retry_on_conflict F name s q ev es result f)
  unfolding advance
  Emits-advance s q ev es result f host write =
      Emits-bind Q _ _ (Emits-retry Q retry_do _ law (Emits-write_state s q host write))
        (elim [ err e ↦ Emits-return Q _ | ok _ ↦ fired (F.event ev f).0 ])
    where
      left : Outcome F
      left = (result, none, (F.event ev f).1)

      noted :
          (es : List String)
          → Emits {A = Outcome F} Q
              (elim es [ [] ↦ return left | e ∷ _ ↦ record_event e >> return left ])
      noted [] = Emits-return Q _
      noted (e ∷ _) = Emits-then Q _ _ (Emits-emit Q _ (λ h. tt)) (Emits-return Q _)

      fired :
          (x : Result (Unit {0}))
          → Emits {A = Outcome F} Q (elim x [
            | err e ↦ return (no_requeue, some e, (F.event ev f).1)
            | ok _ ↦ elim es [ [] ↦ return left | e ∷ _ ↦ record_event e >> return left ]
          ])
      fired (err e) = Emits-return Q _
      fired (ok _) = noted es

  module _ (f : F.Machine) (host : gw.host_type ≡ "Server") where
    Emits-server_init :
        cr.state ≡ st_init → Emits Q (server_init E retry_do retry_on_conflict F name cr gw f)
    unfolding server_init
    Emits-server_init st =
        Emits-bind Q _ _
          (Emits-create_new_deployment E Q reads retry_on_conflict law' _ _ _ (λ h g r e.
            (g, cr.gw_pair.server_id, (h, refl), inl (host, refl), inl (inl (host, st), e, refl))))
          (elim [
            | err e ↦ Emits-return Q _
            | ok _ ↦ Emits-advance _ _ _ _ _ _ host (λ r. start st refl)
          ])

    Emits-server_new_deployment_created :
        cr.state ≡ st_new_deployment_created
        → Emits Q (server_new_deployment_created E retry_do retry_on_conflict F name cr gw f)
    unfolding server_new_deployment_created
    Emits-server_new_deployment_created st =
        Emits-bind Q _ _ (Emits-check_if_deployment_is_present E Q reads _ _ _) λ present.
          Emits-if Q present _ _
            (λ _.
              Emits-if Q (behind cr.response resp_new_deployment_created) _ _
                (λ _. Emits-return Q _)
                (λ answered.
                  Emits-bind Q _ _ (Emits-get_nsm_ip_for_new_deployment E Q reads gw _) λ ip.
                    Emits-if Q (or_blank ip == "") _ _ (λ _. Emits-return Q _)
                      (λ _.
                        Emits-bind Q _ _ (Emits-check_route_in_slice_router E Q reads gw _)
                          λ installed.
                            Emits-if Q (or_false installed) _ _
                              (λ _. Emits-advance _ _ _ _ _ _ host (λ r. reroute st answered refl))
                              (λ _. Emits-return Q _))))
            (λ _. Emits-return Q _)

    Emits-server_route_removed :
        cr.state ≡ st_slicerouter_updated
        → Emits Q (server_route_removed E retry_do retry_on_conflict F name cr gw f)
    unfolding server_route_removed
    Emits-server_route_removed st =
        Emits-if Q (behind cr.response resp_routing_table_updated) _ _ (λ _. Emits-return Q _)
          (λ answered. Emits-advance _ _ _ _ _ _ host (λ r. remove st answered refl))

    Emits-server_slicerouter_updated :
        cr.state ≡ st_slicerouter_updated
        → Emits Q (server_slicerouter_updated E retry_do retry_on_conflict F name cr gw f)
    unfolding server_slicerouter_updated
    Emits-server_slicerouter_updated st =
        Emits-bind Q _ _
          (Emits-mark_gw_route_for_deletion E Q reads retry_on_conflict law' _
            (λ h p labels r e. (p, labels, inl (host, st), e, refl)))
          (elim [
            | err e ↦ Emits-return Q _
            | ok _ ↦ Emits-bind Q _ _ (Emits-get_nsm_ip_for_new_deployment E Q reads gw _) λ ip.
                Emits-if Q (or_blank ip == "") _ _ (λ _. Emits-server_route_removed st)
                  (λ _.
                    Emits-bind Q _ _ (Emits-check_route_in_slice_router E Q reads gw _) λ exists.
                      Emits-if Q (or_false exists) _ _ (λ _. Emits-return Q _)
                        (λ _. Emits-server_route_removed st))
          ])

    Emits-server_old_deployment_deleted :
        cr.state ≡ st_old_deployment_deleted
        → Emits Q (server_old_deployment_deleted E retry_do retry_on_conflict F name cr gw f)
    unfolding server_old_deployment_deleted
    Emits-server_old_deployment_deleted st =
        Emits-bind Q _ _
          (Emits-trigger_gw_deployment_deletion E Q reads retry_on_conflict law' _ _ _ _
            (λ h x r e. (x, inl (host, e), inl (host, st), refl))
            (λ h g r.
              (g, cr.gw_pair.server_id, (h, refl), inl (host, refl), inr (inl (host, st), refl))))
          (elim [
            | err e ↦ Emits-return Q _
            | ok _ ↦
                Emits-bind Q _ _ (Emits-check_if_deployment_is_present E Q reads _ _ _) λ present.
                  Emits-if Q present _ _ (λ _. Emits-return Q _)
                    (λ _.
                      Emits-if Q (behind cr.response resp_old_deployment_deleted) _ _
                        (λ _. Emits-return Q _)
                        (λ answered. Emits-advance _ _ _ _ _ _ host (λ r. finish st answered refl)))
          ])

    pub Emits-server :
        F.current f ≡ cr.state → Emits Q (server E retry_do retry_on_conflict F name cr gw f)
    unfolding server
    Emits-server c =
        Emits-if Q (F.current f == st_init) _ _ (λ e. Emits-server_init (in_state e))
          λ _.
            Emits-if Q (F.current f == st_new_deployment_created) _ _
              (λ e. Emits-server_new_deployment_created (in_state e))
              λ _.
                Emits-if Q (F.current f == st_slicerouter_updated) _ _
                  (λ e. Emits-server_slicerouter_updated (in_state e))
                  λ _.
                    Emits-if Q (F.current f == st_old_deployment_deleted) _ _
                      (λ e. Emits-server_old_deployment_deleted (in_state e))
                      λ _.
                        Emits-if Q (F.current f == st_error) _ _ (λ _. Emits-return Q _)
                          λ _.
                            Emits-if Q (F.current f == st_end) _ _ (λ _. Emits-return Q _)
                              (λ _. Emits-return Q _)
      where
        in_state : {s : String} → (F.current f == s) ≡ true → cr.state ≡ s
        in_state e = ground arith
