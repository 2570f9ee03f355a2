-- ===== src/Export/Steps.antt =====
-- The steps of serviceexport.go and reconciler.go. A step that changes the export ends the
-- reconciliation.
use worker_operator.Base.{
  String, ◌<>◌, Bool, true, false, ◌&&◌, ◌||◌, Option, none, some, List, Result, ok, err, Error,
  other, Requeue, no_requeue, requeue_now, requeue_after, ◌==◌, ◌/=◌, string_eq, nat_eq,
  if◌then◌else◌, length, lookup, insert, or_empty, return, panic, emit, ◌>>=◌, ◌>>◌,
}
use worker_operator.Objects.{Labels}
use worker_operator.Export.Calls.{
  ServicePod, AppPod, ServiceExport, SliceStatus, RunningPod, Env, Action, update_export,
  update_export_status, get_slice, list_pods, hub_update_export, hub_update_endpoint,
  reconcile_istio, current_time, set_aliases, record_event,
}
use worker_operator.Export.Compare.{
  port_list_to_display_string, is_service_app_pod_changed, is_alias_status_in_sync, app_pods_of,
  find_ingress, is_valid_namespace,
}

-- A step returns, or goes on with the export as it is.
pub data Flow : Type 0 where
  done : Requeue → Option Error → Flow
  go_on : Flow

abbrev pub pending : String
pending = "PENDING"

abbrev pub ready : String
ready = "READY"

abbrev pub failed : String
failed = "ERROR"

abbrev pub slice_label : String
slice_label = "kubeslice.io/slice"

abbrev pub finalizer_name : String
finalizer_name = "networking.kubeslice.io/serviceexport-finalizer"

-- The end of a step by the answer to its write.
abbrev pub ended : Requeue → Result (Unit {0}) → Flow
ended result (err e) = done no_requeue (some e)
ended result (ok _) = done result none

module _ (E : Env) where
  unfoldable pub write_status : ServiceExport → Requeue → Action Flow
  write_status x result = do written ← update_export_status E x; return (ended result written)

  -- With the event of a failure and that of a success.
  unfoldable pub write_noted : ServiceExport → String → String → Action Flow
  write_noted x failure success = do
    written ← update_export_status E x
    elim written [
      | err e ↦ record_event failure >> return (done no_requeue (some e))
      | ok _ ↦ record_event success >> return (done requeue_now none)
    ]

  abbrev pub display : ServiceExport → String
  display x = port_list_to_display_string E.itoa x.ports

  abbrev pub initialised : ServiceExport → ServiceExport
  initialised x = record x {
    dns_name = x.name <> ("." <> (x.namespace <> ".svc.slice.local"));
    export_status = pending;
    exposed_ports = display x;
  }

  unfoldable pub set_initial_status : ServiceExport → Action Flow
  set_initial_status x =
      if x.export_status == ""
      then write_noted (initialised x) "SliceServiceExportInitialStatusUpdateFailed"
          "ServiceExportInitialStatusUpdated"
      else return go_on

  -- An error of the write is only logged.
  unfoldable pub reject_namespace : ServiceExport → Action Flow
  reject_namespace x =
      (if x.export_status /= pending
        then update_export_status E (record x { export_status = pending }) >> return tt
        else return tt)
      >> (record_event "ServiceExportStatusPending" >> return (done (requeue_after 10) none))

  unfoldable pub check_namespace : ServiceExport → Action Flow
  check_namespace x = do
    slice ← get_slice E x.slice
    elim slice [
      | err e ↦
          record_event "ServiceExportSliceFetchFailed" >> return (done (requeue_after 10) none)
      | ok s ↦
          if is_valid_namespace x.namespace s.name s.application_namespaces
          then return go_on
          else reject_namespace x
    ]

  unfoldable pub check_ports : ServiceExport → Action Flow
  check_ports x =
      if x.exposed_ports /= display x
      then (do
        written ← update_export_status E (record x { exposed_ports = display x; last_sync = 0 })
        elim written [
          | err e ↦
              record_event "ServiceExportUpdatePortsFailed" >> return (done no_requeue (some e))
          | ok _ ↦ return (done requeue_now none)
        ])
      else return go_on

  abbrev pub with_pods : List ServicePod → ServiceExport → ServiceExport
  with_pods pods x = record x {
    pods = pods;
    last_sync = 0;
    export_status = pending;
    available_endpoints = length pods;
  }

  abbrev pub pods_in : ServiceExport → SliceStatus → List RunningPod → List ServicePod
  pods_in x s pods = app_pods_of E.cluster_name x s.app_pods pods

  unfoldable pub compare_pods : ServiceExport → List ServicePod → Action Flow
  compare_pods x pods =
      if is_service_app_pod_changed pods x.pods
      then write_status (with_pods pods x) requeue_now
      else return go_on

  -- Reading the labels of a nil selector panics.
  unfoldable pub reconcile_app_pod : ServiceExport → Option Labels → Action Flow
  reconcile_app_pod x none = panic
  reconcile_app_pod x (some selector) = do
    listed ← list_pods E x.namespace selector
    elim listed [
      | err e ↦ return (done no_requeue (some e))
      | ok pods ↦ do
        slice ← get_slice E x.slice
        elim slice [
          | err e ↦ return (done no_requeue (some e))
          | ok s ↦ compare_pods x (pods_in x s pods)
        ]
    ]

  abbrev pub with_ingress : AppPod → ServiceExport → ServiceExport
  with_ingress p x = record x {
    last_sync = 0;
    export_status = pending;
    ingress_gw_enabled = true;
    ingress_gw_name = p.pod_name;
    ingress_gw_nsm_ip = p.nsm_ip;
  }

  -- The events are those of the caller.
  unfoldable pub compare_ingress : ServiceExport → Option AppPod → Action Flow
  compare_ingress x none =
      record_event "IngressGWPodReconciledSuccessfully" >> return (done (requeue_after 30) none)
  compare_ingress x (some p) =
      if (p.pod_name /= x.ingress_gw_name) || (p.nsm_ip /= x.ingress_gw_nsm_ip)
      then write_noted (with_ingress p x) "IngressGWPodReconcileFailed"
          "IngressGWPodReconciledSuccessfully"
      else return go_on

  abbrev pub ingress_failed : Error → Action Flow
  ingress_failed e = record_event "IngressGWPodReconcileFailed" >> return (done no_requeue (some e))

  unfoldable pub by_config : ServiceExport → SliceStatus → Option Bool → Action Flow
  unfolding find_ingress
  by_config x s none = ingress_failed other
  by_config x s (some false) = return go_on
  by_config x s (some true) = compare_ingress x (find_ingress s.app_pods)

  unfoldable pub reconcile_ingress_gw_pod : ServiceExport → Action Flow
  reconcile_ingress_gw_pod x = do
    slice ← get_slice E x.slice
    elim slice [ err e ↦ ingress_failed e | ok s ↦ by_config x s s.ingress_enabled ]

  -- Both lists empty, or the lists taken for the same.
  abbrev pub are_aliases_settled : ServiceExport → Bool
  are_aliases_settled x =
      ((length x.aliases == 0) && (length x.status_aliases == 0))
      || is_alias_status_in_sync x.status_aliases x.aliases

  -- The gauge is set by the caller.
  unfoldable pub reconcile_aliases : ServiceExport → Action Flow
  reconcile_aliases x = if are_aliases_settled x then return go_on else do
    written ← update_export_status E (record x { status_aliases = x.aliases; last_sync = 0 })
    elim written [
      | err e ↦ return (done no_requeue (some e))
      | ok _ ↦ emit (set_aliases (length x.aliases)) >> return (done requeue_now none)
    ]

  abbrev pub ingress_endpoint : ServiceExport → ServicePod
  ingress_endpoint x = record {
    name = x.name <> ("-" <> (x.namespace <> "-ingress"));
    nsm_ip = x.ingress_gw_nsm_ip;
    pod_ip = "";
    dns_name =
        x.name <> ("-ingress." <> (E.cluster_name <> ("." <> (x.namespace <> ".svc.slice.local"))));
  }

  unfoldable pub tell_hub : ServiceExport → Action (Result (Unit {0}))
  tell_hub x =
      if x.ingress_gw_enabled
      then hub_update_endpoint E x (ingress_endpoint x)
      else hub_update_export E x

  unfoldable pub sync_failed : ServiceExport → Error → Action Flow
  sync_failed x e = do
    written ← update_export_status E (record x { export_status = failed })
    elim written [
      | err e' ↦ return (done no_requeue (some e'))
      | ok _ ↦ record_event "SyncServiceExportStatusFailed" >> return (done no_requeue (some e))
    ]

  unfoldable pub sync_svc_export_status : ServiceExport → Action Flow
  sync_svc_export_status x = if x.last_sync /= 0 then return go_on else do
    told ← tell_hub x
    elim told [
      | err e ↦ sync_failed x e
      | ok _ ↦ do
        _ ← record_event "SyncServiceExportStatusSuccessfully"
        now ← current_time E
        write_status (record x { last_sync = now }) requeue_now
    ]

  unfoldable pub check_istio : ServiceExport → Action Flow
  check_istio x = do
    s ← reconcile_istio E x
    if s.requeue then return (done s.result s.error) else return go_on

  abbrev pub labelled : ServiceExport → ServiceExport
  labelled x = record x { labels = some (insert slice_label x.slice (or_empty x.labels)) }

  unfoldable pub set_label : ServiceExport → Option String → Action Flow
  set_label x none = do written ← update_export E (labelled x); return (ended requeue_now written)
  set_label x (some value) =
      if value /= x.slice
      then (do written ← update_export E (labelled x); return (ended requeue_now written))
      else return go_on

  unfoldable pub label_service_export_with_slice : ServiceExport → Action Flow
  label_service_export_with_slice x = set_label x (lookup slice_label (or_empty x.labels))
