-- ===== src/Cluster/Health.antt =====
-- The health of the components: component.go, and of reconciler.go `getComponentStatus`,
-- `updateClusterHealthStatus` and `updateClusterMetrics`.
pub mod Normal
pub mod Statuses
pub mod Assessed
use worker_operator.Base.{
  ℕ, String, Bool, true, false, ◌&&◌, ◌||◌, Option, none, some, List, [], ◌∷◌, ◌++◌, Result, ok,
  err, ◌==◌, ◌/=◌, string_eq, nat_eq, if◌then◌else◌, length, get_or, return, panic, emit, ◌>>=◌,
  ◌>>◌, map,
}
use worker_operator.Objects.{Labels}
use worker_operator.Cluster.Calls.{
  Component, ComponentPod, ComponentStatus, ClusterHealth, HubCluster, Env, Action,
  list_component_pods, record_event, set_cluster_up, set_component_up,
}
use worker_operator.Cluster.Deregister.{control_plane_namespace}

abbrev pub component_of : String → Labels → String → Component
component_of name labels ns = record {
  name = name;
  labels = labels;
  ns = ns;
  ignore_missing = false;
}

-- The namespaces that the environment does not set, and the `ControlPlaneNamespace` of controllers.
abbrev pub components : List Component
components =
    component_of "nsmgr" (("app", "nsmgr") ∷ []) control_plane_namespace
    ∷ component_of "forwarder" (("app", "forwarder-kernel") ∷ []) control_plane_namespace
    ∷ component_of "admission-webhook" (("app", "kubeslice-nsm-webhook") ∷ [])
        "kubeslice-nsm-webhook-system"
    ∷ component_of "netop" (("app", "app_net_op") ∷ ("kubeslice.io/pod-type", "netop") ∷ [])
        control_plane_namespace
    ∷ component_of "spire-agent" (("app", "spire-agent") ∷ []) "spire"
    ∷ component_of "spire-server" (("app", "spire-server") ∷ []) "spire"
    ∷ record (component_of "istiod" (("app", "istiod") ∷ ("istio", "pilot") ∷ []) "istio-system") {
      ignore_missing = true;
    }
    ∷ component_of "node-ips" [] ""
    ∷ component_of "cni-subnets" [] ""
    ∷ []

abbrev pub normal : String
normal = "Normal"

abbrev pub warning : String
warning = "Warning"

abbrev pub failing : String
failing = "Error"

abbrev pub status_of : Component → String → ComponentStatus
status_of c s = record { component = c.name; component_health_status = s }

abbrev pub normal_if : Bool → String
normal_if b = if b then normal else failing

-- A container that has terminated with an exit code other than 0.
unfoldable pub has_failed : List (Option ℕ) → Bool
has_failed [] = false
has_failed (none ∷ cs) = has_failed cs
has_failed (some code ∷ cs) = if code /= 0 then true else has_failed cs

-- The loop over the pods of a component.
unfoldable pub are_healthy : List ComponentPod → Bool
unfolding has_failed
are_healthy [] = true
are_healthy (pod ∷ pods) =
    let rest = are_healthy pods in
    if pod.phase /= "Running"
    then false
    else if has_failed pod.container_statuses
    then false
    else rest

-- The status of a component by the list of its pods; none where it is left out.
unfoldable pub status_of_pods : Component → Result (List ComponentPod) → Option ComponentStatus
unfolding are_healthy
status_of_pods c (err e) = none
status_of_pods c (ok []) = if c.ignore_missing then none else some (status_of c failing)
status_of_pods c (ok (pod ∷ pods)) = some (status_of c (normal_if (are_healthy (pod ∷ pods))))

abbrev pub not_empty : List String → Bool
not_empty [] = false
not_empty (x ∷ xs) = true

-- A component and what is added to the health: an error of the list is only logged.
abbrev pub add_status :
    Option ComponentStatus → List ComponentStatus × String → List ComponentStatus × String
add_status none health = health
add_status (some cs) (statuses, health) =
    (statuses ++ cs ∷ [], if cs.component_health_status /= normal then warning else health)

abbrev pub event_of : String → Action (Unit {0})
event_of health =
    if health == normal
    then record_event "ClusterHealthy"
    else if health == warning
    then record_event "ClusterUnhealthy"
    else return tt

module _ (E : Env) where
  unfoldable pub get_component_status : Component → HubCluster → Action (Option ComponentStatus)
  unfolding status_of_pods
  get_component_status c cr =
      if c.name == "node-ips"
      then return
          (some (status_of c (normal_if (not_empty cr.spec_node_ips || not_empty cr.node_ips))))
      else if c.name == "cni-subnets"
      then return (some (status_of c (normal_if (not_empty (get_or [] cr.cni_subnet)))))
      else (do pods ← list_component_pods E c; return (status_of_pods c pods))

  -- The loop over the components, from the statuses and the health so far.
  unfoldable pub check_components :
      HubCluster
      → List Component
      → List ComponentStatus × String
      → Action (List ComponentStatus × String)
  check_components cr [] health = return health
  check_components cr (c ∷ cs) health = do
    status ← get_component_status c cr
    check_components cr cs (add_status status health)

  -- Reading a nil health panics.
  unfoldable pub note_change : Option ClusterHealth → String → Action (Unit {0})
  note_change none health = panic
  note_change (some old) health =
      if old.cluster_health_status /= health then event_of health else return tt

  abbrev pub with_health : List ComponentStatus × String → ClusterHealth → ClusterHealth
  with_health (statuses, status) old = record old {
    component_statuses = statuses;
    cluster_health_status = status;
  }

  unfoldable pub set_health :
      HubCluster → Option ClusterHealth → List ComponentStatus × String → Action HubCluster
  set_health cr none health = panic
  set_health cr (some old) health =
      return (record cr { cluster_health = some (with_health health old) })

  unfoldable pub update_cluster_health_status : HubCluster → Action HubCluster
  update_cluster_health_status cr =
      if cr.network_present
      then (do
        health ← check_components cr components ([], normal)
        _ ← note_change cr.cluster_health health.1
        set_health cr cr.cluster_health health)
      else set_health cr cr.cluster_health ([], normal)

-- The gauges.
unfoldable pub set_components_up : List ComponentStatus → Action (Unit {0})
set_components_up [] = return tt
set_components_up (cs ∷ rest) =
    emit (set_component_up cs.component (cs.component_health_status == normal))
    >> set_components_up rest

unfoldable pub update_cluster_metrics : Option ClusterHealth → Action (Unit {0})
update_cluster_metrics none = panic
update_cluster_metrics (some health) =
    emit (set_cluster_up (health.cluster_health_status == normal))
    >> set_components_up health.component_statuses
