-- ===== src/Cluster/Deregister.antt =====
-- pkg/hub/controllers/cluster/deregister.go, and `handleClusterDeletion` of reconciler.go.
pub mod Polls
pub mod Attempts
pub mod Stale
pub mod Warrant
use worker_operator.Base.{
  ℕ, zero, suc, ◌+◌, String, Bool, true, false, not, ◌&&◌, Option, none, some, List, [], ◌∷◌, ◌++◌,
  Result, ok, err, Error, other, is_already_exists, Requeue, no_requeue, requeue_after, ◌==◌, ◌/=◌,
  string_eq, nat_eq, ltb, contains, if◌then◌else◌, RetryLib, return, emit, ◌>>=◌, ◌>>◌,
}
use worker_operator.Cluster.Calls.{
  HubCluster, Stored, CleanupJob, Resource, service_account, cluster_role, cluster_role_binding,
  config_map, job, Call, slept, Env, Action, get_cluster, update_cluster, update_cluster_status,
  list_slices, list_slice_gateways, get_operator_role, get_namespace_uid, read_script,
  get_config_map, get_job, create, delete, record_event,
}

abbrev pub control_plane_namespace : String
control_plane_namespace = "kubeslice-system"

abbrev pub operator_cluster_role_name : String
operator_cluster_role_name = "kubeslice-manager-role"

abbrev pub cluster_deregister_config_map : String
cluster_deregister_config_map = "cluster-deregister-cm"

abbrev pub deregister_job_name : String
deregister_job_name = "cluster-deregisteration-job"

abbrev pub cluster_deregister_finalizer : String
cluster_deregister_finalizer = "worker.kubeslice.io/cluster-deregister-finalizer"

abbrev pub default_installer_image : String
default_installer_image = "aveshasystems/worker-installer:1.1.8"

abbrev pub script_path : String
script_path = "../../../../scripts"

abbrev pub max_deregistration_attempts : ℕ
max_deregistration_attempts = 3

abbrev pub deregister_in_progress : String
deregister_in_progress = "DeregisterInProgress"

abbrev pub deregister_failed : String
deregister_failed = "DeregisterFailed"

abbrev pub new_object : {A : Type 0} → A → Stored A
new_object a = record { resource_version = ""; body = a }

-- Whether a list was answered, and is empty.
unfoldable pub is_empty_list : Result ℕ → Bool
is_empty_list (err e) = false
is_empty_list (ok n) = n == 0

module _ (E : Env) where
  -- The loops of `retryListSlice` and `retryListSliceGW`, whose count of retries goes up to
  -- `left`; both try again after an error and after a list that is not empty.
  unfoldable pub list_until_empty : Action (Result ℕ) → ℕ → Action Bool
  unfolding is_empty_list
  list_until_empty list zero = do answer ← list; return (is_empty_list answer)
  list_until_empty list (suc left) = do
    answer ← list
    if is_empty_list answer then return true else emit (slept 5) >> list_until_empty list left

  unfoldable pub retry_list_slice : ℕ → Action Bool
  retry_list_slice max_retries = list_until_empty (list_slices E) max_retries

  unfoldable pub retry_list_slice_gw : ℕ → Action Bool
  retry_list_slice_gw max_retries = list_until_empty (list_slice_gateways E) max_retries

  abbrev pub job_for_cluster_deregister : CleanupJob
  job_for_cluster_deregister = record {
    image =
        if E.worker_installer_image == ""
        then default_installer_image
        else E.worker_installer_image;
    project_namespace = E.project_namespace;
    hub_endpoint = E.hub_endpoint;
    cluster_name = E.cluster_name;
  }

  abbrev pub cleanup_script_path : String
  cleanup_script_path =
      if E.script_dir /= ""
      then E.join_path E.script_dir "cleanup.sh"
      else E.join_path script_path "cleanup.sh"

  -- A creation, and what follows it; an object that exists is left as it is.
  unfoldable pub ensure : Resource → Action (Result (Unit {0})) → Action (Result (Unit {0}))
  ensure o rest = do
    answer ← create E o
    elim answer [ err e ↦ if is_already_exists e then rest else return (err e) | ok _ ↦ rest ]

  -- An object that was found is deleted and then created; it was read into the variable of the
  -- new object, so it is the one that was found that is created.
  unfoldable pub replace : Resource → Action (Result (Unit {0})) → Action (Result (Unit {0}))
  replace o rest = do
    answer ← delete E o
    elim answer [ err e ↦ return (err e) | ok _ ↦ ensure o rest ]

  unfoldable pub start_job : Action (Result (Unit {0}))
  start_job = do
    got ← get_job E deregister_job_name
    elim got [
      | err e ↦ ensure (job (new_object job_for_cluster_deregister)) (return (ok tt))
      | ok found ↦ replace (job found) (return (ok tt))
    ]

  unfoldable pub store_script : String → Action (Result (Unit {0}))
  store_script text = do
    got ← get_config_map E cluster_deregister_config_map
    elim got [
      | err e ↦ ensure (config_map (new_object text)) start_job
      | ok found ↦ replace (config_map found) start_job
    ]

  unfoldable pub load_script : Action (Result (Unit {0}))
  load_script = do
    script ← read_script E cleanup_script_path
    elim script [ err e ↦ return (err e) | ok text ↦ store_script text ]

  unfoldable pub grant_access : Action (Result (Unit {0}))
  grant_access = ensure service_account (do
    role ← get_operator_role E operator_cluster_role_name
    elim role [
      | err e ↦ return (err e)
      | ok rules ↦ do
        ns ← get_namespace_uid E control_plane_namespace
        elim ns [
          | err e ↦ return (err e)
          | ok uid ↦ ensure (cluster_role rules uid) (ensure (cluster_role_binding uid) load_script)
        ]
    ])

  unfoldable pub start_deregistration : Action (Result (Unit {0}))
  start_deregistration = do
    no_slices ← retry_list_slice 3
    if not no_slices then return (err other) else do
      no_gateways ← retry_list_slice_gw 3
      if not no_gateways then return (err other) else grant_access

  unfoldable pub set_registration_status :
      String → HubCluster → Action (HubCluster × Result (Unit {0}))
  set_registration_status status c = do
    got ← get_cluster E c.name
    elim got [
      | err e ↦ return (c, err e)
      | ok c' ↦ do
        done ← update_cluster_status E (record c' { registration_status = status })
        return (record c' { registration_status = status }, done)
    ]

module _ (E : Env) (R : RetryLib Call) where
  unfoldable pub update_registration_status :
      HubCluster → String → Action (HubCluster × Result (Unit {0}))
  update_registration_status c status = R.retry (set_registration_status E status) c

  -- What follows the mark.
  unfoldable pub run_deregistration :
      HubCluster × Result (Unit {0}) → Action (HubCluster × Result (Unit {0}))
  run_deregistration (c, err e) = return (c, err e)
  run_deregistration (c, ok _) = do done ← start_deregistration E; return (c, done)

  unfoldable pub create_deregister_job : HubCluster → Action (HubCluster × Result (Unit {0}))
  create_deregister_job c = do
    marked ← update_registration_status c deregister_in_progress
    run_deregistration marked

-- What `handleClusterDeletion` leaves: the global count of failed attempts, the cluster, and
-- whether the reconciliation stops with the result.
pub record Handling : Type 0 where
  pub attempts : ℕ
  pub cluster : HubCluster
  pub stop : Bool
  pub result : Requeue
  pub error : Option Error

abbrev pub wait_for_deletion : ℕ → HubCluster → Handling
wait_for_deletion n c = record {
  attempts = n;
  cluster = c;
  stop = true;
  result = requeue_after 60;
  error = none;
}

abbrev pub go_on_with : ℕ → HubCluster → Handling
go_on_with n c = record {
  attempts = n;
  cluster = c;
  stop = false;
  result = no_requeue;
  error = none;
}

abbrev pub stopped_by : ℕ → HubCluster → Error → Handling
stopped_by n c e = record {
  attempts = n;
  cluster = c;
  stop = true;
  result = no_requeue;
  error = some e;
}

abbrev pub with_finalizer : HubCluster → HubCluster
with_finalizer c = record c { finalizers = c.finalizers ++ cluster_deregister_finalizer ∷ [] }

-- Whether a deregistration is to be tried.
abbrev pub is_due : ℕ → HubCluster → Bool
is_due n c =
    (contains c.finalizers cluster_deregister_finalizer
      && (c.registration_status /= deregister_in_progress))
    && ltb n max_deregistration_attempts

module _ (E : Env) (R : RetryLib Call) where
  unfoldable pub register_finalizer : ℕ → HubCluster → Action Handling
  register_finalizer n c =
      if contains c.finalizers cluster_deregister_finalizer then return (go_on_with n c) else (do
        done ← update_cluster E (with_finalizer c)
        elim done [
          | err e ↦ return (stopped_by n (with_finalizer c) e)
          | ok _ ↦ return (go_on_with n (with_finalizer c))
        ])

  -- What follows the attempt; a failed one is counted.
  unfoldable pub settle : ℕ → HubCluster × Result (Unit {0}) → Action Handling
  settle n (c, ok _) = return (wait_for_deletion n c)
  settle n (c, err e) = do
    noted ← update_registration_status E R c deregister_failed
    _ ← record_event "DeregistrationJobFailed"
    return (stopped_by (n + 1) noted.0 e)

  unfoldable pub deregister : ℕ → HubCluster → Action Handling
  deregister n c = do made ← create_deregister_job E R c; settle n made

  unfoldable pub handle_cluster_deletion : ℕ → HubCluster → Action Handling
  handle_cluster_deletion n c =
      if c.deleting
      then (if is_due n c then deregister n c else return (wait_for_deletion n c))
      else register_finalizer n c
