-- ===== src/Webhook/Mutate.antt =====
-- The mutations of pkg/webhook/pod/webhook.go, and the test whether one is due.
pub mod Injection
use worker_operator.Base.{
  String, ◌<>◌, Bool, true, false, not, ◌&&◌, Option, none, some, Result, ok, err, ◌==◌, ◌/=◌,
  string_eq, if◌then◌else◌, Run, returned, panicked, lookup, insert, or_empty, List, [], contains,
}
use worker_operator.Objects.{Labels}

-- `ObjectMeta`; a map may be nil.
pub record ObjectMeta : Type 0 where
  pub name : String
  pub namespace : String
  pub labels : Option Labels
  pub annotations : Option Labels

-- A deployment, stateful set or daemon set: its metadata and those of its pod template.
pub record Workload : Type 0 where
  pub meta : ObjectMeta
  pub template : ObjectMeta

abbrev pub slice_key : String
slice_key = "kubeslice.io/slice"

abbrev pub status_key : String
status_key = "kubeslice.io/status"

abbrev pub pod_type_key : String
pod_type_key = "kubeslice.io/pod-type"

abbrev pub control_plane_namespace : String
control_plane_namespace = "kubeslice-system"

abbrev pub nsm_key1 : String
nsm_key1 = "ns.networkservicemesh.io"

abbrev pub nsm_key2 : String
nsm_key2 = "networkservicemesh.io"

abbrev pub exclude_key : String
exclude_key = "kubeslice.io/exclude"

-- The annotations of an injected pod, and its labels.
abbrev pub injected_annotations : String → Labels → Labels
injected_annotations slice a =
    insert nsm_key2 ("kernel://vl3-service-" <> (slice <> "/nsm0"))
      (insert nsm_key1 ("vl3-service-" <> slice) (insert status_key "injected" a))

abbrev pub injected_labels : String → Labels → Labels
injected_labels slice l = insert slice_key slice (insert pod_type_key "app" l)

unfoldable pub mutate_pod : ObjectMeta → String → ObjectMeta
mutate_pod pod slice = record pod {
  labels = some (injected_labels slice (or_empty pod.labels));
  annotations = some (injected_annotations slice (or_empty pod.annotations));
}

unfoldable pub mutate_deployment : Workload → String → Workload
unfolding mutate_pod
mutate_deployment deploy slice = record {
  template = mutate_pod deploy.template slice;
  meta = record deploy.meta {
    labels = some (insert slice_key slice (or_empty deploy.meta.labels));
  };
}

unfoldable pub mutate_stateful_set : Workload → String → Workload
unfolding mutate_pod
mutate_stateful_set ss slice = record {
  template = mutate_pod ss.template slice;
  meta = record ss.meta { labels = some (insert slice_key slice (or_empty ss.meta.labels)) };
}

unfoldable pub mutate_daemon_set : Workload → String → Workload
unfolding mutate_pod
mutate_daemon_set ds slice = record {
  template = mutate_pod ds.template slice;
  meta = record ds.meta { labels = some (insert slice_key slice (or_empty ds.meta.labels)) };
}

-- The fields of a slice's `Status.SliceConfig` that are read; the namespaces stand in its
-- `NamespaceIsolationProfile`, which may be nil.
pub record SliceConfig : Type 0 where
  pub overlay_network_deployment_mode : String
  pub application_namespaces : Option (List String)

-- What the API server answers in the course of one request: the labels of a namespace, which may
-- be nil; a new client; and the configuration of a slice, read by either client, which may be nil.
pub record SliceInfo : Type 0 where
  pub get_namespace : String → Result (Option Labels)
  pub get_slice : String → Result (Option SliceConfig)
  pub new_client : Result (Unit {0})
  pub get_slice_anew : String → Result (Option SliceConfig)

-- `val, exists := m[key]`, and the test of `val`.
unfoldable pub has_value : String → Option String → Bool
has_value v none = false
has_value v (some w) = w == v

unfoldable pub is_excluded : ObjectMeta → Bool
unfolding has_value
is_excluded meta = has_value "true" (lookup exclude_key (or_empty meta.labels))

unfoldable pub is_injected : ObjectMeta → Bool
unfolding has_value
is_injected meta = has_value "injected" (lookup status_key (or_empty meta.annotations))

-- `GetSliceOverlayNetworkType`, by the answer for the slice. Reading a nil configuration panics.
unfoldable pub overlay_network_type : Result (Option SliceConfig) → Run (Result String)
overlay_network_type (err e) = returned (err e)
overlay_network_type (ok none) = panicked
overlay_network_type (ok (some config)) = returned (ok config.overlay_network_deployment_mode)

-- The loop of `SliceAppNamespaceConfigured`; so does reading a nil isolation profile.
unfoldable pub is_among : String → Option (List String) → Run (Result Bool)
is_among namespace none = panicked
is_among namespace (some namespaces) = returned (ok (contains namespaces namespace))

-- `SliceAppNamespaceConfigured`, by the answers for the client and the slice.
unfoldable pub namespace_configured :
    String → Result (Unit {0}) → Result (Option SliceConfig) → Run (Result Bool)
unfolding is_among
namespace_configured namespace (err e) answer = returned (err e)
namespace_configured namespace (ok _) (err e) = returned (err e)
namespace_configured namespace (ok _) (ok none) = panicked
namespace_configured namespace (ok _) (ok (some config)) =
    is_among namespace config.application_namespaces

unfoldable pub if_configured : String → Run (Result Bool) → Run (Option String)
if_configured slice panicked = panicked
if_configured slice (returned (err e)) = returned none
if_configured slice (returned (ok configured)) = returned (if configured then some slice else none)

-- `v1alpha1.SINGLENET` is the API's name for one network: the argument `single_net`.
unfoldable pub if_single : String → Run (Result String) → Run (Option String) → Run (Option String)
if_single single_net panicked rest = panicked
if_single single_net (returned (err e)) rest = returned none
if_single single_net (returned (ok network_type)) rest =
    if (network_type /= "") && (network_type /= single_net) then returned none else rest

module _ (I : SliceInfo) (single_net : String) where
  -- The slice that labels the namespace, and what follows.
  unfoldable pub slice_of_label : String → Option String → Run (Option String)
  unfolding if_configured if_single overlay_network_type namespace_configured
  slice_of_label namespace none = returned none
  slice_of_label namespace (some slice) =
      if_single single_net (overlay_network_type (I.get_slice slice))
        (if_configured slice (namespace_configured namespace I.new_client (I.get_slice_anew slice)))

  unfoldable pub slice_of_labels : String → Result (Option Labels) → Run (Option String)
  unfolding slice_of_label
  slice_of_labels namespace (err e) = returned none
  slice_of_labels namespace (ok none) = returned none
  slice_of_labels namespace (ok (some labels)) = slice_of_label namespace (lookup slice_key labels)

  -- The slice's name where a mutation is required.
  unfoldable pub mutation_required : ObjectMeta → Run (Option String)
  unfolding is_excluded is_injected slice_of_labels
  mutation_required meta =
      if is_excluded meta
      then returned none
      else if meta.namespace == ""
      then returned none
      else if is_injected meta
      then returned none
      else if meta.namespace == control_plane_namespace
      then returned none
      else slice_of_labels meta.namespace (I.get_namespace meta.namespace)
