-- ===== src/Cluster/Calls.antt =====
-- What the cluster controller keeps, and what it asks of the outside: the hub's API server (the
-- cluster, the secret of the dashboard), the worker's API server, the clock, the file of the
-- clean-up script, the metrics and the event recorder.
use worker_operator.Base.{ℕ, String, Bool, Option, List, Result, M, perform, emit}
use worker_operator.Objects.{Labels}

pub record ComponentStatus : Type 0 where
  pub component : String
  pub component_health_status : String

-- Times are in seconds from the zero time.
pub record ClusterHealth : Type 0 where
  pub component_statuses : List ComponentStatus
  pub cluster_health_status : String
  pub last_updated : ℕ

-- The hub's `Cluster`: whether it has a deletion timestamp, its finalizers, the fields of its spec
-- and of its status that the controller uses. The list of subnets and the health may be nil.
pub record HubCluster : Type 0 where
  pub name : String
  pub deleting : Bool
  pub finalizers : List String
  pub cloud_provider : String
  pub cloud_region : String
  pub spec_node_ips : List String
  pub dashboard_enabled : Bool
  pub dashboard_endpoint : String
  pub dashboard_access_token : String
  pub network_present : Bool
  pub cni_subnet : Option (List String)
  pub node_ips : List String
  pub registration_status : String
  pub cluster_health : Option ClusterHealth

pub record Component : Type 0 where
  pub name : String
  pub labels : Labels
  pub ns : String
  pub ignore_missing : Bool

-- A pod's phase, and the exit code of each container that has terminated, as a 32-bit word.
pub record ComponentPod : Type 0 where
  pub phase : String
  pub container_statuses : List (Option ℕ)

-- A node's region label and provider.
pub record CloudNode : Type 0 where
  pub labels : Labels
  pub provider_id : String

-- An object with the version that the API server gave it, empty for a new object.
pub record Stored (A : Type 0) : Type 0 where
  pub resource_version : String
  pub body : A

-- The parts of the deregistration job that are not constant.
pub record CleanupJob : Type 0 where
  pub image : String
  pub project_namespace : String
  pub hub_endpoint : String
  pub cluster_name : String

-- The objects of the deregistration; the roles have the rules of the operator's role, and the
-- namespace's identifier for their owner.
pub data Resource : Type 0 where
  service_account : Resource
  cluster_role : String → String → Resource
  cluster_role_binding : String → Resource
  config_map : Stored String → Resource
  job : Stored CleanupJob → Resource

-- The data of a secret, which may be nil.
pub record HubSecret : Type 0 where
  pub name : String
  pub token : String
  pub ca_crt : String

pub data Call : Type 0 where
  got_cluster : String → Result HubCluster → Call
  updated_cluster : HubCluster → Result (Unit {0}) → Call
  updated_cluster_status : HubCluster → Result (Unit {0}) → Call
  listed_nodes : Result (List CloudNode) → Call
  -- the data of a config map, which may be nil
  got_nsm_config : String → String → Result (Option Labels) → Call
  got_node_ip : Bool → Result (List String) → Call
  -- how many daemon sets of the network service manager there are
  listed_nsmgr : Result ℕ → Call
  listed_component_pods : Component → Result (List ComponentPod) → Call
  got_service_account : String → Result (List String) → Call
  got_secret : String → Result (Option Labels) → Call
  created_hub_secret : HubSecret → Result (Unit {0}) → Call
  updated_hub_secret : HubSecret → Result (Unit {0}) → Call
  listed_slices : Result ℕ → Call
  listed_slice_gateways : Result ℕ → Call
  got_operator_role : String → Result String → Call
  got_namespace_uid : String → Result String → Call
  read_file : String → Result String → Call
  got_config_map : String → Result (Stored String) → Call
  got_job : String → Result (Stored CleanupJob) → Call
  created : Resource → Result (Unit {0}) → Call
  deleted : Resource → Result (Unit {0}) → Call
  slept : ℕ → Call
  -- the current time
  read_clock : ℕ → Call
  set_cluster_up : Bool → Call
  set_component_up : String → Bool → Call
  recorded_event : String → Call

pub record Env : Type 0 where
  -- the variables CLUSTER_NAME, HUB_PROJECT_NAMESPACE, CLUSTER_ENDPOINT, HUB_HOST_ENDPOINT,
  -- SCRIPT_PATH and WORKER_INSTALLER_IMAGE
  pub cluster_name : String
  pub project_namespace : String
  pub cluster_endpoint : String
  pub hub_endpoint : String
  pub script_dir : String
  pub worker_installer_image : String
  -- `path.Join`
  pub join_path : String → String → String
  -- the key `Prefixes` of a YAML text: an error, none, or its value, which may be no list
  pub yaml_prefixes : String → Result (Option (Option (List String)))
  pub get_cluster : List Call → String → Result HubCluster
  pub update_cluster : List Call → HubCluster → Result (Unit {0})
  pub update_cluster_status : List Call → HubCluster → Result (Unit {0})
  pub list_nodes : List Call → Result (List CloudNode)
  pub get_nsm_config : List Call → String → String → Result (Option Labels)
  pub get_node_ip : List Call → Bool → Result (List String)
  pub list_nsmgr : List Call → Result ℕ
  pub list_component_pods : List Call → Component → Result (List ComponentPod)
  pub get_service_account : List Call → String → Result (List String)
  pub get_secret : List Call → String → Result (Option Labels)
  pub create_hub_secret : List Call → HubSecret → Result (Unit {0})
  pub update_hub_secret : List Call → HubSecret → Result (Unit {0})
  pub list_slices : List Call → Result ℕ
  pub list_slice_gateways : List Call → Result ℕ
  pub get_operator_role : List Call → String → Result String
  pub get_namespace_uid : List Call → String → Result String
  pub read_script : List Call → String → Result String
  pub get_config_map : List Call → String → Result (Stored String)
  pub get_job : List Call → String → Result (Stored CleanupJob)
  pub create : List Call → Resource → Result (Unit {0})
  pub delete : List Call → Resource → Result (Unit {0})
  pub now : List Call → ℕ

abbrev pub Action : Type 0 → Type 0
Action = M Call

module _ (E : Env) where
  abbrev pub get_cluster : String → Action (Result HubCluster)
  get_cluster n = perform (λ h. E.get_cluster h n) (got_cluster n)

  abbrev pub update_cluster : HubCluster → Action (Result (Unit {0}))
  update_cluster c = perform (λ h. E.update_cluster h c) (updated_cluster c)

  abbrev pub update_cluster_status : HubCluster → Action (Result (Unit {0}))
  update_cluster_status c = perform (λ h. E.update_cluster_status h c) (updated_cluster_status c)

  abbrev pub list_nodes : Action (Result (List CloudNode))
  list_nodes = perform E.list_nodes listed_nodes

  abbrev pub get_nsm_config : String → String → Action (Result (Option Labels))
  get_nsm_config n ns = perform (λ h. E.get_nsm_config h n ns) (got_nsm_config n ns)

  abbrev pub find_node_ip : Bool → Action (Result (List String))
  find_node_ip present = perform (λ h. E.get_node_ip h present) (got_node_ip present)

  abbrev pub list_nsmgr : Action (Result ℕ)
  list_nsmgr = perform E.list_nsmgr listed_nsmgr

  abbrev pub list_component_pods : Component → Action (Result (List ComponentPod))
  list_component_pods c = perform (λ h. E.list_component_pods h c) (listed_component_pods c)

  abbrev pub get_service_account : String → Action (Result (List String))
  get_service_account n = perform (λ h. E.get_service_account h n) (got_service_account n)

  abbrev pub get_secret : String → Action (Result (Option Labels))
  get_secret n = perform (λ h. E.get_secret h n) (got_secret n)

  abbrev pub create_hub_secret : HubSecret → Action (Result (Unit {0}))
  create_hub_secret s = perform (λ h. E.create_hub_secret h s) (created_hub_secret s)

  abbrev pub update_hub_secret : HubSecret → Action (Result (Unit {0}))
  update_hub_secret s = perform (λ h. E.update_hub_secret h s) (updated_hub_secret s)

  abbrev pub list_slices : Action (Result ℕ)
  list_slices = perform E.list_slices listed_slices

  abbrev pub list_slice_gateways : Action (Result ℕ)
  list_slice_gateways = perform E.list_slice_gateways listed_slice_gateways

  abbrev pub get_operator_role : String → Action (Result String)
  get_operator_role n = perform (λ h. E.get_operator_role h n) (got_operator_role n)

  abbrev pub get_namespace_uid : String → Action (Result String)
  get_namespace_uid n = perform (λ h. E.get_namespace_uid h n) (got_namespace_uid n)

  abbrev pub read_script : String → Action (Result String)
  read_script path = perform (λ h. E.read_script h path) (read_file path)

  abbrev pub get_config_map : String → Action (Result (Stored String))
  get_config_map n = perform (λ h. E.get_config_map h n) (got_config_map n)

  abbrev pub get_job : String → Action (Result (Stored CleanupJob))
  get_job n = perform (λ h. E.get_job h n) (got_job n)

  abbrev pub create : Resource → Action (Result (Unit {0}))
  create o = perform (λ h. E.create h o) (created o)

  abbrev pub delete : Resource → Action (Result (Unit {0}))
  delete o = perform (λ h. E.delete h o) (deleted o)

  abbrev pub current_time : Action ℕ
  current_time = perform E.now read_clock

abbrev pub record_event : String → Action (Unit {0})
record_event e = emit (recorded_event e)
