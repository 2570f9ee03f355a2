-- ===== src/Tests/Cluster.antt =====
-- The cluster controller at concrete inputs.
use worker_operator.Base.{
  String, Bool, true, false, none, some, List, [], ◌∷◌, Result, ok, err, Error, not_found, other,
  RetryLib, IsRetryLib, last_try, ◌≡◌, ◌↔◌, ap, ◌∙◌, ◌+◌, arith, Adds, Post, if◌then◌else◌, ◌==◌,
  string_eq, nat_eq, All,
}
use worker_operator.Cluster.Calls.{
  HubCluster, Component, ComponentPod, Stored, CleanupJob, Resource, service_account, cluster_role,
  cluster_role_binding, config_map, job, Call, Env, listed_slices, listed_slice_gateways,
}
use worker_operator.Cluster.Deregister.{
  cluster_deregister_finalizer, retry_list_slice, retry_list_slice_gw, create_deregister_job,
}
use worker_operator.Cluster.Deregister.Polls.{Stops, retry_list_slice-Stops}
use worker_operator.Cluster.Deregister.Warrant.{Warranted}
use worker_operator.Cluster.Deregister.Stale.{IsVersioning, Anew, create_deregister_job-Anew}
use worker_operator.Cluster.Deregister.Attempts.{IsBounded, reconcile-IsBounded}
use worker_operator.Cluster.Health.{status_of, status_of_pods, normal}
use worker_operator.Cluster.Health.Normal.{IsHealthy, status_of_pods-normal}
use worker_operator.Cluster.Health.Assessed.{Assessed}
use worker_operator.Cluster.Status.{validate_node_ips, update_cni_subnet_config, update_node_ips}
use worker_operator.Cluster.Status.Settled.{
  validate_node_ips-eq, GoesOn, SubnetsAgree, IpsAgree, update_cni_subnet_config-SubnetsAgree,
  update_node_ips-IpsAgree,
}
use worker_operator.Cluster.Reconcile.{reconcile}
use worker_operator.Cluster.Warrant.{reconcile-Warranted}

abbrev once : RetryLib Call
once = record { retry = λ body s. body s }

abbrev all_errors : Error → Bool
all_errors e = true

once-IsRetryLib : IsRetryLib all_errors 5 once
once-IsRetryLib = record { tries = λ body s h. last_try s h }

abbrev leaving : HubCluster
leaving = record {
  name = "c1";
  deleting = true;
  finalizers = cluster_deregister_finalizer ∷ [];
  cloud_provider = "gcp";
  cloud_region = "us-west1";
  spec_node_ips = [];
  dashboard_enabled = true;
  dashboard_endpoint = "";
  dashboard_access_token = "";
  network_present = true;
  cni_subnet = some ("10.0.0.0/8" ∷ []);
  node_ips = "1.2.3.4" ∷ [];
  registration_status = "Registered";
  cluster_health =
      some (record { component_statuses = []; cluster_health_status = "Normal"; last_updated = 0 });
}

abbrev old_map : Stored String
old_map = record { resource_version = "7"; body = "exit" }

abbrev old_job : Stored CleanupJob
old_job = record {
  resource_version = "8";
  body = record { image = "i"; project_namespace = "p"; hub_endpoint = "h"; cluster_name = "c1" };
}

-- An API server that refuses objects with a version.
abbrev create_fresh : Resource → Result (Unit {0})
create_fresh service_account = ok tt
create_fresh (cluster_role rules uid) = ok tt
create_fresh (cluster_role_binding uid) = ok tt
create_fresh (config_map m) = if m.resource_version == "" then ok tt else err other
create_fresh (job j) = if j.resource_version == "" then ok tt else err other

abbrev env : Env
env = record {
  cluster_name = "c1";
  project_namespace = "kubeslice-avesha";
  cluster_endpoint = "https://c1";
  hub_endpoint = "https://hub";
  script_dir = "";
  worker_installer_image = "";
  join_path = λ dir file. dir;
  yaml_prefixes = λ text. ok (some (some ("10.0.0.0/8" ∷ [])));
  get_cluster = λ h n. ok leaving;
  update_cluster = λ h c. ok tt;
  update_cluster_status = λ h c. ok tt;
  list_nodes = λ h. ok [];
  get_nsm_config = λ h n ns. ok (some (("excluded_prefixes_output.yaml", "Prefixes: []") ∷ []));
  get_node_ip = λ h present. ok ("1.2.3.4" ∷ []);
  list_nsmgr = λ h. ok 1;
  list_component_pods = λ h c. ok [];
  get_service_account = λ h n. ok [];
  get_secret = λ h n. err not_found;
  create_hub_secret = λ h s. ok tt;
  update_hub_secret = λ h s. ok tt;
  list_slices = λ h. ok 0;
  list_slice_gateways = λ h. ok 0;
  get_operator_role = λ h n. ok "rules";
  get_namespace_uid = λ h n. ok "uid";
  read_script = λ h path. ok "exit";
  get_config_map = λ h n. ok old_map;
  get_job = λ h n. ok old_job;
  create = λ h o. create_fresh o;
  delete = λ h o. ok tt;
  now = λ h. 1000;
}

abbrev version_of : {A : Type 0} → Result (Stored A) → String
version_of (ok s) = s.resource_version
version_of (err e) = ""

env-IsVersioning : IsVersioning env
unfolding string_eq
env-IsVersioning = record {
  map_versioned = λ h n found p e. let q = ap version_of p ∙ e in cc;
  job_versioned = λ h n found p e. let q = ap version_of p ∙ e in cc;
  map_refused = λ h m ne. ground (arith, ne);
  job_refused = λ h j ne. ground (arith, ne);
}

reconcile-Warranted_example : Adds (Warranted 0) [] (reconcile env once 0 "c1" []).1
reconcile-Warranted_example = reconcile-Warranted env once once-IsRetryLib 0 "c1"

create_deregister_job-Anew_example :
    Post (λ out k. Anew out.1 k) (create_deregister_job env once leaving [])
create_deregister_job-Anew_example = create_deregister_job-Anew env env-IsVersioning once leaving []

reconcile-IsBounded_example : Post (IsBounded env once 2) (reconcile env once 2 "c1" [])
reconcile-IsBounded_example = reconcile-IsBounded env once 2 "c1" [] (omega arith)

retry_list_slice-Stops_example :
    Stops env env.list_slices listed_slices (3 + 3 + 1) [] (retry_list_slice env 3 [])
    × Stops env env.list_slice_gateways listed_slice_gateways
        (3 + 3 + 1)
        []
        (retry_list_slice_gw env 3 [])
retry_list_slice-Stops_example = retry_list_slice-Stops env 3 []

abbrev netop : Component
netop = record { name = "netop"; labels = []; ns = "kubeslice-system"; ignore_missing = false }

abbrev pods : List ComponentPod
pods = record { phase = "Running"; container_statuses = none ∷ some 0 ∷ [] } ∷ []

status_of_pods-normal_example :
    (status_of_pods netop (ok pods) ≡ some (status_of netop normal))
    ↔ (pod : ComponentPod) × (rest : List ComponentPod) × (ok pods ≡ ok (pod ∷ rest))
      × All IsHealthy (pod ∷ rest)
status_of_pods-normal_example = status_of_pods-normal netop (ok pods)

abbrev ips : List String
ips = "1.2.3.4" ∷ "1.2.3.5" ∷ []

validate_node_ips-eq_example : (validate_node_ips ips ips ≡ true) ↔ (ips ≡ ips)
validate_node_ips-eq_example = validate_node_ips-eq ips ips

update_cni_subnet_config-SubnetsAgree_example :
    Post (GoesOn env (SubnetsAgree env)) (update_cni_subnet_config env once leaving [])
update_cni_subnet_config-SubnetsAgree_example =
    update_cni_subnet_config-SubnetsAgree env once once-IsRetryLib leaving []

update_node_ips-IpsAgree_example :
    Post (GoesOn env (IpsAgree env)) (update_node_ips env once leaving [])
update_node_ips-IpsAgree_example = update_node_ips-IpsAgree env once once-IsRetryLib leaving []
