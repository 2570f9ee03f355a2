-- ===== src/Export/Calls.antt =====
-- What the controller of service exports keeps, and what it asks of the outside: the worker's API
-- server, the hub client, the steps for Istio, the clock, the metrics and the event recorder. An
-- update leaves the object as it was written.
use worker_operator.Base.{ℕ, String, Bool, Option, List, Result, Error, Requeue, M, perform, emit}
use worker_operator.Objects.{Labels}

pub record ServicePod : Type 0 where
  pub name : String
  pub nsm_ip : String
  pub pod_ip : String
  pub dns_name : String

pub record AppPod : Type 0 where
  pub pod_name : String
  pub pod_namespace : String
  pub nsm_ip : String

pub record ServicePort : Type 0 where
  pub name : String
  pub container_port : ℕ
  pub protocol : String
  pub service_protocol : String
  pub service_port : ℕ

-- A service export: its metadata, the fields of its spec (the selector may be nil), and those of its
-- status. Times are in seconds.
pub record ServiceExport : Type 0 where
  pub name : String
  pub namespace : String
  pub deleting : Bool
  pub finalizers : List String
  pub labels : Option Labels
  pub slice : String
  pub selector : Option Labels
  pub ports : List ServicePort
  pub aliases : List String
  pub dns_name : String
  pub export_status : String
  pub exposed_ports : String
  pub pods : List ServicePod
  pub available_endpoints : ℕ
  pub ingress_gw_enabled : Bool
  pub ingress_gw_name : String
  pub ingress_gw_nsm_ip : String
  pub status_aliases : List String
  pub last_sync : ℕ

-- A slice's status: whether its configuration, which may be nil, enables the ingress gateway.
pub record SliceStatus : Type 0 where
  pub name : String
  pub ingress_enabled : Option Bool
  pub application_namespaces : List String
  pub app_pods : List AppPod

-- The fields of a pod that are read.
pub record RunningPod : Type 0 where
  pub name : String
  pub namespace : String
  pub phase : String
  pub pod_ip : String

-- What a step for Istio returns: its result and error, and whether the reconciliation ends.
pub record IstioStep : Type 0 where
  pub result : Requeue
  pub error : Option Error
  pub requeue : Bool

pub data Call : Type 0 where
  got_export : String → Result ServiceExport → Call
  updated_export : ServiceExport → Result (Unit {0}) → Call
  updated_export_status : ServiceExport → Result (Unit {0}) → Call
  got_slice : String → Result SliceStatus → Call
  -- the pods of a namespace with the labels of a selector
  listed_pods : String → Labels → Result (List RunningPod) → Call
  hub_updated_export : ServiceExport → Result (Unit {0}) → Call
  hub_updated_endpoint : ServiceExport → ServicePod → Result (Unit {0}) → Call
  hub_deleted_export : ServiceExport → Result (Unit {0}) → Call
  reconciled_istio : ServiceExport → IstioStep → Call
  deleted_istio : ServiceExport → Result (Unit {0}) → Call
  read_clock : ℕ → Call
  set_endpoints : ℕ → Call
  set_aliases : ℕ → Call
  recorded_event : String → Call

pub record Env : Type 0 where
  -- the environment variable CLUSTER_NAME
  pub cluster_name : String
  -- `strconv.Itoa`
  pub itoa : ℕ → String
  -- `controllerutil.RemoveFinalizer`
  pub drop_finalizer : List String → String → List String
  pub get_export : List Call → String → Result ServiceExport
  pub update_export : List Call → ServiceExport → Result (Unit {0})
  pub update_export_status : List Call → ServiceExport → Result (Unit {0})
  pub get_slice : List Call → String → Result SliceStatus
  pub list_pods : List Call → String → Labels → Result (List RunningPod)
  pub hub_update_export : List Call → ServiceExport → Result (Unit {0})
  pub hub_update_endpoint : List Call → ServiceExport → ServicePod → Result (Unit {0})
  pub hub_delete_export : List Call → ServiceExport → Result (Unit {0})
  pub reconcile_istio : List Call → ServiceExport → IstioStep
  pub delete_istio : List Call → ServiceExport → Result (Unit {0})
  pub now : List Call → ℕ

abbrev pub Action : Type 0 → Type 0
Action = M Call

module _ (E : Env) where
  abbrev pub get_export : String → Action (Result ServiceExport)
  get_export n = perform (λ h. E.get_export h n) (got_export n)

  abbrev pub update_export : ServiceExport → Action (Result (Unit {0}))
  update_export x = perform (λ h. E.update_export h x) (updated_export x)

  abbrev pub update_export_status : ServiceExport → Action (Result (Unit {0}))
  update_export_status x = perform (λ h. E.update_export_status h x) (updated_export_status x)

  abbrev pub get_slice : String → Action (Result SliceStatus)
  get_slice n = perform (λ h. E.get_slice h n) (got_slice n)

  abbrev pub list_pods : String → Labels → Action (Result (List RunningPod))
  list_pods n l = perform (λ h. E.list_pods h n l) (listed_pods n l)

  abbrev pub hub_update_export : ServiceExport → Action (Result (Unit {0}))
  hub_update_export x = perform (λ h. E.hub_update_export h x) (hub_updated_export x)

  abbrev pub hub_update_endpoint : ServiceExport → ServicePod → Action (Result (Unit {0}))
  hub_update_endpoint x p = perform (λ h. E.hub_update_endpoint h x p) (hub_updated_endpoint x p)

  abbrev pub hub_delete_export : ServiceExport → Action (Result (Unit {0}))
  hub_delete_export x = perform (λ h. E.hub_delete_export h x) (hub_deleted_export x)

  abbrev pub reconcile_istio : ServiceExport → Action IstioStep
  reconcile_istio x = perform (λ h. E.reconcile_istio h x) (reconciled_istio x)

  abbrev pub delete_istio : ServiceExport → Action (Result (Unit {0}))
  delete_istio x = perform (λ h. E.delete_istio h x) (deleted_istio x)

  abbrev pub current_time : Action ℕ
  current_time = perform E.now read_clock

abbrev pub record_event : String → Action (Unit {0})
record_event e = emit (recorded_event e)
