-- ===== src/Recycler/Footprint.antt =====
-- What the recycler's helpers may write: a run of a helper meets any condition on calls that allows
-- the reads and the one kind of write that the helper makes.
use worker_operator.Base.{
  false, arith, ℕ, String, Bool, Option, none, some, List, [], ◌∷◌, ◌++◌, Result, ok, err, Error,
  contains, string_eq, ◌≡◌, insert, or_empty, Retry, return, IsRetry, Emits, Emits-return,
  Emits-ask, Adds-perform, Adds-if, Emits-bind, Emits-perform, Emits-retry, Emits-panic, refl,
}
use worker_operator.Objects.{SliceGateway, Pod, Deployment, GwRecycler, Labels}
use worker_operator.Recycler.Calls.{
  Call, got_recycler, got_slicegw, updated_slicegw_status, listed_deployments, updated_deployment,
  listed_pods, updated_pod, listed_router_pods, got_route, recorded_event, Env, update_pod,
  update_deployment,
}
use worker_operator.Recycler.Helpers.{
  get_pod_for_gw_deployment, get_nsm_ips_for_gw_deployment, get_nsm_ip_for_new_deployment,
  get_slice_router_pod_ip, check_route_in_slice_router, check_if_deployment_is_present,
  find_deployment, add_intermediate_deployment, create_new_deployment, exclude_gw_pod,
  mark_gw_route_for_deletion, mark_deployment, remove_intermediate_deployment,
  trigger_gw_deployment_deletion, remove_first, exclude_gw_route, marked_for_deletion,
}

find_deployment-name :
    (d : String) (ds : List Deployment) (x : Deployment)
    → find_deployment d ds ≡ some x
    → x.name ≡ d
unfolding find_deployment
find_deployment-name d [] x e = cc
find_deployment-name d (y ∷ ys) x e = ground (arith, find_deployment-name d ys x)

-- The condition holds of every read.
pub record AllowsReads (Q : List Call → Call → Type 0) : Type 0 where
  pub recycler : (h : List Call) (n : String) (r : Result GwRecycler) → Q h (got_recycler n r)
  pub slicegw : (h : List Call) (n : String) (r : Result SliceGateway) → Q h (got_slicegw n r)
  pub deployments :
      (h : List Call) (s g : String) (r : Result (List Deployment)) → Q h (listed_deployments s g r)
  pub pods : (h : List Call) (d : String) (r : Result (List Pod)) → Q h (listed_pods d r)
  pub router_pods :
      (h : List Call) (s : String) (r : Result (List Pod)) → Q h (listed_router_pods s r)
  pub route : (h : List Call) (a s ip : String) (r : Result Bool) → Q h (got_route a s ip r)
  pub event : (h : List Call) (e : String) → Q h (recorded_event e)

module _ (E : Env) (Q : List Call → Call → Type 0) (reads : AllowsReads Q) where
  Emits-get_pod_for_gw_deployment : (d : String) → Emits Q (get_pod_for_gw_deployment E d)
  unfolding get_pod_for_gw_deployment
  Emits-get_pod_for_gw_deployment d =
      Emits-bind Q _ _ (Emits-perform Q _ _ (λ h. reads.pods h d _)) (elim [
        | err e ↦ Emits-return Q _
        | ok [] ↦ Emits-panic Q _
        | ok (p ∷ ps) ↦ Emits-return Q _
      ])

  Emits-get_nsm_ips_for_gw_deployment :
      (g d : String) → Emits Q (get_nsm_ips_for_gw_deployment E g d)
  unfolding get_nsm_ips_for_gw_deployment
  Emits-get_nsm_ips_for_gw_deployment g d =
      Emits-bind Q _ _ (Emits-perform Q _ _ (λ h. reads.slicegw h g _)) (elim [
        | err e ↦ Emits-return Q _
        | ok gw ↦
            Emits-bind Q _ _ (Emits-perform Q _ _ (λ h. reads.pods h d _))
              (elim [ err e ↦ Emits-return Q _ | ok ps ↦ Emits-return Q _ ])
      ])

  pub Emits-get_nsm_ip_for_new_deployment :
      (gw : SliceGateway) (d : String) → Emits Q (get_nsm_ip_for_new_deployment E gw d)
  unfolding get_nsm_ip_for_new_deployment
  Emits-get_nsm_ip_for_new_deployment gw d =
      Emits-bind Q _ _ (Emits-get_nsm_ips_for_gw_deployment gw.name d) (elim [
        | err e ↦ Emits-return Q _
        | ok [] ↦ Emits-return Q _
        | ok (i ∷ is) ↦ Emits-return Q _
      ])

  Emits-get_slice_router_pod_ip : (s : String) → Emits Q (get_slice_router_pod_ip E s)
  unfolding get_slice_router_pod_ip
  Emits-get_slice_router_pod_ip s =
      Emits-bind Q _ _ (Emits-perform Q _ _ (λ h. reads.router_pods h s _))
        (elim [ err e ↦ Emits-return Q _ | ok ps ↦ Emits-return Q _ ])

  pub Emits-check_route_in_slice_router :
      (gw : SliceGateway) (ip : String) → Emits Q (check_route_in_slice_router E gw ip)
  unfolding check_route_in_slice_router
  Emits-check_route_in_slice_router gw ip =
      Emits-bind Q _ _ (Emits-get_slice_router_pod_ip gw.slice_name) (elim [
        | err e ↦ Emits-return Q _
        | ok a ↦ Emits-perform Q _ _ (λ h. reads.route h _ gw.remote_subnet ip _)
      ])

  pub Emits-check_if_deployment_is_present :
      (d s g : String) → Emits Q (check_if_deployment_is_present E d s g)
  unfolding check_if_deployment_is_present
  Emits-check_if_deployment_is_present d s g =
      Emits-bind Q _ _ (Emits-perform Q _ _ (λ h. reads.deployments h s g _))
        (elim [ err e ↦ Emits-return Q _ | ok ds ↦ Emits-return Q _ ])

  module _ (retry : Retry Call) {again : Error → Bool} {n : ℕ} (law : IsRetry again n retry) where
    pub Emits-create_new_deployment :
        (d s g : String)
        → ((h : List Call) (gw : SliceGateway) (r : Result (Unit {0}))
            → contains gw.intermediate_deployments d ≡ false
            → Q (got_slicegw g (ok gw) ∷ h) (
                updated_slicegw_status
                  (record gw { intermediate_deployments = gw.intermediate_deployments ++ (d ∷ []) })
                  r))
        → Emits Q (create_new_deployment E retry d s g)
    unfolding create_new_deployment
    Emits-create_new_deployment d s g write =
        Emits-bind Q _ _ (Emits-perform Q _ _ (λ h. reads.deployments h s g _))
          (elim [ err e ↦ Emits-return Q _ | ok ds ↦ found (find_deployment d ds) ])
      where
        body : Emits Q (add_intermediate_deployment E retry d g)
        body =
            Emits-ask Q _ _ _ (λ h. reads.slicegw h g _)
              (elim [
                | err e ↦ λ h. Emits-return Q _ _
                | ok gw ↦ λ h.
                    Adds-if Q (contains gw.intermediate_deployments d) _ _ _
                      (λ _. Emits-return Q _ _) (λ e. Adds-perform Q _ _ _ (λ r. write h gw r e))
              ])

        found :
            (o : Option Deployment)
            → Emits Q (elim o [
              | some d' ↦ return (ok tt)
              | none ↦ retry (add_intermediate_deployment E retry d g)
            ])
        found (some d') = Emits-return Q _
        found none = Emits-retry Q retry _ law body

    pub Emits-mark_gw_route_for_deletion :
        (d : String)
        → ((h : List Call) (p : Pod) (labels : Labels) (r : Result (Unit {0}))
            → p.labels ≡ some labels
            → Q h (
                updated_pod (record p { labels = some (insert exclude_gw_route "true" labels) }) r))
        → Emits Q (mark_gw_route_for_deletion E retry d)
    unfolding mark_gw_route_for_deletion
    Emits-mark_gw_route_for_deletion d write = Emits-retry Q retry _ law body
      where
        labelled :
            (p : Pod) (l : Option Labels)
            → p.labels ≡ l
            → Emits Q (elim l [
              | none ↦ return (ok tt)
              | some labels ↦
                  update_pod E (record p { labels = some (insert exclude_gw_route "true" labels) })
            ])
        labelled p none e = Emits-return Q _
        labelled p (some labels) e = Emits-perform Q _ _ (λ h. write h p labels _ e)

        body : Emits Q (exclude_gw_pod E retry d)
        body =
            Emits-bind Q _ _ (Emits-get_pod_for_gw_deployment d)
              (elim [ err e ↦ Emits-return Q _ | ok p ↦ labelled p p.labels refl ])

    pub Emits-trigger_gw_deployment_deletion :
        (s g d new_dep : String)
        → ((h : List Call) (x : Deployment) (r : Result (Unit {0}))
            → x.name ≡ d
            → Q h (
                updated_deployment
                  (record x {
                    labels = some (insert marked_for_deletion "true" (or_empty x.labels));
                  })
                  r))
        → ((h : List Call) (gw : SliceGateway) (r : Result (Unit {0}))
            → Q (got_slicegw g (ok gw) ∷ h) (
                updated_slicegw_status
                  (record gw {
                    intermediate_deployments = remove_first new_dep gw.intermediate_deployments;
                  })
                  r))
        → Emits Q (trigger_gw_deployment_deletion E retry s g d new_dep)
    unfolding trigger_gw_deployment_deletion
    Emits-trigger_gw_deployment_deletion s g d new_dep mark write =
        Emits-bind Q _ _ (Emits-retry Q retry _ law marking)
          (elim [ err e ↦ Emits-return Q _ | ok _ ↦ Emits-retry Q retry _ law removing ])
      where
        found :
            (o : Option Deployment)
            → ((x : Deployment) → o ≡ some x → x.name ≡ d)
            → Emits Q (elim o [
              | none ↦ return (ok tt)
              | some x ↦ update_deployment E (record x {
                labels = some (insert marked_for_deletion "true" (or_empty x.labels));
              })
            ])
        found none named = Emits-return Q _
        found (some x) named = Emits-perform Q _ _ (λ h. mark h x _ (named x refl))

        marking : Emits Q (mark_deployment E retry s g d)
        marking = Emits-bind Q _ _ (Emits-perform Q _ _ (λ h. reads.deployments h s g _)) (elim [
          | err e ↦ Emits-return Q _
          | ok ds ↦ found (find_deployment d ds) (find_deployment-name d ds)
        ])

        removing : Emits Q (remove_intermediate_deployment E retry g new_dep)
        removing =
            Emits-ask Q _ _ _ (λ h. reads.slicegw h g _)
              (elim [
                | err e ↦ λ h. Emits-return Q _ _
                | ok gw ↦ λ h. Adds-perform Q _ _ _ (write h gw)
              ])
