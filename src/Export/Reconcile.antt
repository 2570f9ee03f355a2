-- ===== src/Export/Reconcile.antt =====
-- `Reconcile` of reconciler.go, and the deletion of a service export.
use worker_operator.Base.{
  String, Bool, true, false, Option, none, some, [], ◌∷◌, ◌++◌, Result, ok, err, Error,
  is_not_found, Requeue, no_requeue, requeue_after, ◌/=◌, string_eq, if◌then◌else◌, contains,
  return, emit, ◌>>=◌, ◌>>◌,
}
use worker_operator.Export.Calls.{
  ServiceExport, Env, Action, get_export, update_export, update_export_status, get_slice,
  hub_delete_export, delete_istio, set_endpoints, record_event,
}
use worker_operator.Export.Steps.{
  Flow, done, go_on, ready, finalizer_name, label_service_export_with_slice, set_initial_status,
  check_namespace, check_ports, reconcile_app_pod, reconcile_ingress_gw_pod, reconcile_aliases,
  sync_svc_export_status, check_istio,
}

abbrev pub Outcome : Type 0
Outcome = Requeue × Option Error

-- A step, and the rest if it goes on.
unfoldable pub after_flow : Action Flow → Flow → Action Flow
after_flow rest (done result e) = return (done result e)
after_flow rest go_on = rest

infixr 5 ◌and_then◌
abbrev pub ◌and_then◌ : Action Flow → Action Flow → Action Flow
step and_then rest = step >>= after_flow rest

module _ (E : Env) where
  unfoldable pub export_steps : ServiceExport → Action Flow
  export_steps x =
      label_service_export_with_slice E x
      and_then set_initial_status E x
      and_then check_namespace E x
      and_then check_ports E x
      and_then reconcile_app_pod E x x.selector
      and_then (emit (set_endpoints x.available_endpoints) >> reconcile_ingress_gw_pod E x)
      and_then reconcile_aliases E x
      and_then sync_svc_export_status E x
      and_then check_istio E x

  unfoldable pub mark_ready : ServiceExport → Flow → Action Outcome
  mark_ready x (done result e) = return (result, e)
  mark_ready x go_on =
      if x.export_status /= ready
      then (do
        written ← update_export_status E (record x { export_status = ready })
        elim written [
          | err e ↦ return (no_requeue, some e)
          | ok _ ↦ return (requeue_after 30, none)
        ])
      else return (requeue_after 30, none)

  unfoldable pub export : ServiceExport → Action Outcome
  export x = do flow ← export_steps x; mark_ready x flow

  -- By whether the slice's configuration, if there is one, enables the ingress gateway.
  unfoldable pub delete_istio_resources : ServiceExport → Option Bool → Action (Result (Unit {0}))
  delete_istio_resources x none = return (ok tt)
  delete_istio_resources x (some false) = return (ok tt)
  delete_istio_resources x (some true) = delete_istio E x

  -- A slice that is not found has nothing to delete.
  unfoldable pub delete_service_export_resources : ServiceExport → Action (Result (Unit {0}))
  delete_service_export_resources x = do
    slice ← get_slice E x.slice
    elim slice [
      | err e ↦ if is_not_found e then return (ok tt) else return (err e)
      | ok s ↦ delete_istio_resources x s.ingress_enabled
    ]

  unfoldable pub remove_finalizer : ServiceExport → Action Outcome
  remove_finalizer x = do
    written ←
        update_export E (record x { finalizers = E.drop_finalizer x.finalizers finalizer_name })
    elim written [
      | err e ↦ return (no_requeue, some e)
      | ok _ ↦ record_event "ServiceExportDeleted" >> return (no_requeue, none)
    ]

  unfoldable pub delete_resources : ServiceExport → Action Outcome
  delete_resources x = do
    deleted ← delete_service_export_resources x
    elim deleted [
      | err e ↦ record_event "ServiceExportDeleteFailed" >> return (no_requeue, some e)
      | ok _ ↦ remove_finalizer x
    ]

  unfoldable pub delete_export : ServiceExport → Action Outcome
  delete_export x =
      if contains x.finalizers finalizer_name
      then (do
        told ← hub_delete_export E x
        elim told [ err e ↦ return (no_requeue, some e) | ok _ ↦ delete_resources x ])
      else return (no_requeue, none)

  abbrev pub with_finalizer : ServiceExport → ServiceExport
  with_finalizer x = record x { finalizers = x.finalizers ++ finalizer_name ∷ [] }

  unfoldable pub register_finalizer : ServiceExport → Action Outcome
  register_finalizer x = if contains x.finalizers finalizer_name then export x else (do
    written ← update_export E (with_finalizer x)
    elim written [ err e ↦ return (no_requeue, some e) | ok _ ↦ export (with_finalizer x) ])

  unfoldable pub reconcile : String → Action Outcome
  reconcile name = do
    got ← get_export E name
    elim got [
      | err e ↦ return (no_requeue, if is_not_found e then none else some e)
      | ok x ↦ if x.deleting then delete_export x else register_finalizer x
    ]
