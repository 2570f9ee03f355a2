-- ===== src/Tests/Namespaces.antt =====
-- The namespaces of a slice at concrete inputs.
use worker_operator.Base.{
  Bool, true, false, none, some, [], ◌∷◌, ok, err, Error, not_found, RetryLib, ◌≡◌, refl, has_byte,
  comma, split, lookup, or_empty, string_eq, nat_eq,
}
use worker_operator.Webhook.Mutate.{
  ObjectMeta, Workload, mutate_pod, mutate_deployment, slice_key, pod_type_key, status_key,
  nsm_key1, nsm_key2,
}
use worker_operator.Namespaces.Calls.{Namespace, Slice, Call, Env}
use worker_operator.Namespaces.Offboard.{strip_meta, strip_workload}
use worker_operator.Namespaces.Offboard.Restored.{
  IsRest, strip_meta-mutate_pod, strip_workload-mutate_deployment,
}
use worker_operator.Namespaces.Onboard.Bound.{Reported}
use worker_operator.Namespaces.Allowed.{annotated, with_annotation, without_slice}
use worker_operator.Namespaces.Allowed.Annotation.{annotation_of, without_slice-annotated}

abbrev once : RetryLib Call
once = record { retry = λ body s. body s }

abbrev all_errors : Error → Bool
all_errors e = true

abbrev slice : Slice
slice = record {
  name = "red";
  slice_config = some (
      some (record {
        isolation_enabled = true;
        application_namespaces = "shop" ∷ "bank" ∷ [];
        allowed_namespaces = [];
      }));
  application_namespaces = [];
  allowed_namespaces = [];
  network_policies_installed = false;
}

abbrev env : Env
env = record {
  cluster_name = "c1";
  map_order = λ h keys. keys;
  list_app_namespaces = λ h s. ok ("bank" ∷ "old" ∷ []);
  list_allowed_namespaces = λ h. ok [];
  get_namespace = λ h n. err not_found;
  create_namespace = λ h ns. ok tt;
  update_namespace = λ h ns. ok tt;
  get_slice = λ h n. ok slice;
  update_slice_status = λ h s. ok tt;
  get_namespace_config = λ h. ok (record { config_labels = none; config_annotations = none });
  update_app_namespaces = λ h n l. ok tt;
  list_pods = λ h n. ok [];
  update_pod = λ h p. ok tt;
  list_workloads = λ h k n. ok [];
  update_workload = λ h k w. ok tt;
  delete_policy = λ h s n. ok tt;
  update_policy = λ h s n. ok tt;
  create_policy = λ h s n. ok tt;
}

abbrev pod : ObjectMeta
pod = record {
  name = "p";
  namespace = "shop";
  labels = some (("app", "cart") ∷ []);
  annotations = none;
}

strip_meta-mutate_pod_example :
    IsRest
      (slice_key ∷ pod_type_key ∷ [])
      (or_empty pod.labels)
      (or_empty (strip_meta "red" (mutate_pod pod "red")).labels)
    × IsRest
        (status_key ∷ nsm_key1 ∷ nsm_key2 ∷ [])
        (or_empty pod.annotations)
        (or_empty (strip_meta "red" (mutate_pod pod "red")).annotations)
strip_meta-mutate_pod_example = strip_meta-mutate_pod "red" pod

abbrev deploy : Workload
deploy = record { meta = pod; template = pod }

strip_workload-mutate_deployment_example :
    lookup slice_key (or_empty (strip_workload "red" (mutate_deployment deploy "red")).meta.labels)
    ≡ some "red"
strip_workload-mutate_deployment_example = strip_workload-mutate_deployment "red" deploy

abbrev allowed : Namespace
allowed = record {
  name = "kube-system";
  labels = none;
  annotations = some (("kubeslice.io/trafficAllowedToSlices", "blue,green") ∷ []);
}

has_no_comma : has_byte comma "red" ≡ false
unfolding has_byte nat_eq
has_no_comma = refl

red_is_added : annotated "red" (annotation_of allowed) ≡ some "blue,green,red"
unfolding annotated lookup split string_eq nat_eq
red_is_added = refl

without_slice-annotated_example :
    annotation_of (without_slice "red" "blue,green,red" (with_annotation "blue,green,red" allowed))
    ≡ annotation_of allowed
without_slice-annotated_example =
    without_slice-annotated "red" has_no_comma allowed "blue,green,red" red_is_added
