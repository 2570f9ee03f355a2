-- ===== src/Namespaces/Calls.antt =====
-- What the slice controller keeps about namespaces, and what it asks of the outside: the worker's API
-- server, the hub client and the event recorder.
use worker_operator.Base.{String, Bool, Option, List, Result, M, perform, emit, returned}
use worker_operator.Objects.{Labels}
use worker_operator.Webhook.Mutate.{ObjectMeta, Workload}

-- A namespace's name, labels and annotations; these maps may be nil.
pub record Namespace : Type 0 where
  pub name : String
  pub labels : Option Labels
  pub annotations : Option Labels

pub record IsolationProfile : Type 0 where
  pub isolation_enabled : Bool
  pub application_namespaces : List String
  pub allowed_namespaces : List String

-- A slice: the isolation profile of its configuration, each of which may be nil, and the fields of its
-- status that the controller writes.
pub record Slice : Type 0 where
  pub name : String
  pub slice_config : Option (Option IsolationProfile)
  pub application_namespaces : List String
  pub allowed_namespaces : List String
  pub network_policies_installed : Bool

pub data Kind : Type 0 where
  deployment stateful_set daemon_set : Kind

-- The cluster's labels and annotations for namespaces; these maps may be nil.
pub record NamespaceConfig : Type 0 where
  pub config_labels : Option Labels
  pub config_annotations : Option Labels

pub data Call : Type 0 where
  -- the names of the namespaces labelled with a slice
  listed_app_namespaces : String → Result (List String) → Call
  -- the namespaces labelled as allowed
  listed_allowed_namespaces : Result (List Namespace) → Call
  got_namespace : String → Result Namespace → Call
  created_namespace : Namespace → Result (Unit {0}) → Call
  updated_namespace : Namespace → Result (Unit {0}) → Call
  got_slice : String → Result Slice → Call
  updated_slice_status : Slice → Result (Unit {0}) → Call
  got_namespace_config : Result NamespaceConfig → Call
  updated_app_namespaces : String → List String → Result (Unit {0}) → Call
  listed_pods : String → Result (List ObjectMeta) → Call
  updated_pod : ObjectMeta → Result (Unit {0}) → Call
  listed_workloads : Kind → String → Result (List Workload) → Call
  updated_workload : Kind → Workload → Result (Unit {0}) → Call
  -- the network policy of a slice in a namespace
  deleted_policy : String → String → Result (Unit {0}) → Call
  updated_policy : String → String → Result (Unit {0}) → Call
  created_policy : String → String → Result (Unit {0}) → Call
  recorded_event : String → Call

pub record Env : Type 0 where
  -- the environment variable CLUSTER_NAME
  pub cluster_name : String
  -- the order in which Go goes through the keys of a map
  pub map_order : List Call → List String → List String
  pub list_app_namespaces : List Call → String → Result (List String)
  pub list_allowed_namespaces : List Call → Result (List Namespace)
  pub get_namespace : List Call → String → Result Namespace
  pub create_namespace : List Call → Namespace → Result (Unit {0})
  pub update_namespace : List Call → Namespace → Result (Unit {0})
  pub get_slice : List Call → String → Result Slice
  pub update_slice_status : List Call → Slice → Result (Unit {0})
  pub get_namespace_config : List Call → Result NamespaceConfig
  pub update_app_namespaces : List Call → String → List String → Result (Unit {0})
  pub list_pods : List Call → String → Result (List ObjectMeta)
  pub update_pod : List Call → ObjectMeta → Result (Unit {0})
  pub list_workloads : List Call → Kind → String → Result (List Workload)
  pub update_workload : List Call → Kind → Workload → Result (Unit {0})
  pub delete_policy : List Call → String → String → Result (Unit {0})
  pub update_policy : List Call → String → String → Result (Unit {0})
  pub create_policy : List Call → String → String → Result (Unit {0})

abbrev pub Action : Type 0 → Type 0
Action = M Call

module _ (E : Env) where
  abbrev pub list_app_namespaces : String → Action (Result (List String))
  list_app_namespaces s = perform (λ h. E.list_app_namespaces h s) (listed_app_namespaces s)

  abbrev pub list_allowed_namespaces : Action (Result (List Namespace))
  list_allowed_namespaces = perform E.list_allowed_namespaces listed_allowed_namespaces

  abbrev pub get_namespace : String → Action (Result Namespace)
  get_namespace n = perform (λ h. E.get_namespace h n) (got_namespace n)

  abbrev pub create_namespace : Namespace → Action (Result (Unit {0}))
  create_namespace n = perform (λ h. E.create_namespace h n) (created_namespace n)

  abbrev pub update_namespace : Namespace → Action (Result (Unit {0}))
  update_namespace n = perform (λ h. E.update_namespace h n) (updated_namespace n)

  abbrev pub get_slice : String → Action (Result Slice)
  get_slice n = perform (λ h. E.get_slice h n) (got_slice n)

  abbrev pub update_slice_status : Slice → Action (Result (Unit {0}))
  update_slice_status s = perform (λ h. E.update_slice_status h s) (updated_slice_status s)

  abbrev pub get_namespace_config : Action (Result NamespaceConfig)
  get_namespace_config = perform E.get_namespace_config got_namespace_config

  abbrev pub update_app_namespaces : String → List String → Action (Result (Unit {0}))
  update_app_namespaces n l =
      perform (λ h. E.update_app_namespaces h n l) (updated_app_namespaces n l)

  abbrev pub list_pods : String → Action (Result (List ObjectMeta))
  list_pods n = perform (λ h. E.list_pods h n) (listed_pods n)

  abbrev pub update_pod : ObjectMeta → Action (Result (Unit {0}))
  update_pod p = perform (λ h. E.update_pod h p) (updated_pod p)

  abbrev pub list_workloads : Kind → String → Action (Result (List Workload))
  list_workloads k n = perform (λ h. E.list_workloads h k n) (listed_workloads k n)

  abbrev pub update_workload : Kind → Workload → Action (Result (Unit {0}))
  update_workload k w = perform (λ h. E.update_workload h k w) (updated_workload k w)

  abbrev pub delete_policy : String → String → Action (Result (Unit {0}))
  delete_policy s n = perform (λ h. E.delete_policy h s n) (deleted_policy s n)

  abbrev pub update_policy : String → String → Action (Result (Unit {0}))
  update_policy s n = perform (λ h. E.update_policy h s n) (updated_policy s n)

  abbrev pub create_policy : String → String → Action (Result (Unit {0}))
  create_policy s n = perform (λ h. E.create_policy h s n) (created_policy s n)

-- The keys of a map in the order in which Go goes through them.
abbrev pub key_order : Env → List String → Action (List String)
key_order E keys h = (returned (E.map_order h keys), h)

abbrev pub record_event : String → Action (Unit {0})
record_event e = emit (recorded_event e)
