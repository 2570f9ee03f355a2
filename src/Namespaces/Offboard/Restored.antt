-- ===== src/Namespaces/Offboard/Restored.antt =====
-- What the offboarding of a namespace undoes of the webhook's injection.
use worker_operator.Base.{
  String, ◌<>◌, true, none, some, List, [], ◌∷◌, string_eq, if◌then◌else◌, contains, lookup, insert,
  erase, lookup-insert, lookup-erase, or_empty, ◌≡◌, refl, ap, ◌∙◌, arith,
}
use worker_operator.Objects.{Labels}
use worker_operator.Webhook.Mutate.{
  ObjectMeta, Workload, has_value, mutate_pod, mutate_deployment, injected_labels,
  injected_annotations, slice_key, status_key, pod_type_key, nsm_key1, nsm_key2,
}
use worker_operator.Namespaces.Offboard.{
  erase_value, strip_labels, strip_annotations, strip_meta, strip_workload,
}

has_value-same : (v : String) → has_value v (some v) ≡ true
unfolding has_value
has_value-same v = ground arith

erase_value-found :
    (key value : String) (m : Labels)
    → lookup key m ≡ some value
    → erase_value key value m ≡ erase key m
unfolding erase_value
erase_value-found key value m e = rw (e, has_value-same value) refl

-- The entries of a map but for those with the given keys.
abbrev pub IsRest : List String → Labels → Labels → Type 0
IsRest keys m m' = (k : String) → lookup k m' ≡ (if contains keys k then none else lookup k m)

label-found :
    (slice : String) (l : Labels)
    → lookup slice_key (erase pod_type_key (injected_labels slice l)) ≡ some slice
unfolding string_eq
label-found slice l =
    lookup-erase slice_key pod_type_key _ ∙ lookup-insert slice_key slice_key slice _

strip_labels-injected_labels :
    (slice : String) (l : Labels)
    → IsRest (slice_key ∷ pod_type_key ∷ []) l (strip_labels slice (injected_labels slice l))
unfolding strip_labels
strip_labels-injected_labels slice l k =
    let inner = insert pod_type_key "app" l in
    ap (lookup k) (erase_value-found slice_key slice _ (label-found slice l))
    ∙ ground (
      arith,
      lookup-erase k slice_key (erase pod_type_key (insert slice_key slice inner)),
      lookup-erase k pod_type_key (insert slice_key slice inner),
      lookup-insert k slice_key slice inner,
      lookup-insert k pod_type_key "app" l,
    )

module _ (slice : String) (a : Labels) where
  abbrev service : String
  service = "vl3-service-" <> slice

  abbrev kernel : String
  kernel = "kernel://vl3-service-" <> (slice <> "/nsm0")

  service-found : lookup nsm_key1 (injected_annotations slice a) ≡ some service
  unfolding string_eq
  service-found =
      lookup-insert nsm_key1 nsm_key2 kernel _ ∙ lookup-insert nsm_key1 nsm_key1 service _

  kernel-found : lookup nsm_key2 (erase nsm_key1 (injected_annotations slice a)) ≡ some kernel
  unfolding string_eq
  kernel-found = lookup-erase nsm_key2 nsm_key1 _ ∙ lookup-insert nsm_key2 nsm_key2 kernel _

  erased :
      strip_annotations slice (injected_annotations slice a)
      ≡ erase status_key (erase nsm_key2 (erase nsm_key1 (injected_annotations slice a)))
  unfolding strip_annotations
  erased =
      ap (λ m. erase status_key (erase_value nsm_key2 kernel m))
        (erase_value-found nsm_key1 service (injected_annotations slice a) service-found)
      ∙ ap (erase status_key) (erase_value-found nsm_key2 kernel _ kernel-found)

  strip_annotations-injected_annotations :
      IsRest
        (status_key ∷ nsm_key1 ∷ nsm_key2 ∷ [])
        a
        (strip_annotations slice (injected_annotations slice a))
  strip_annotations-injected_annotations k =
      let m1 = insert status_key "injected" a in
      let m2 = insert nsm_key1 service m1 in
      let m3 = insert nsm_key2 kernel m2 in
      ap (lookup k) erased
      ∙ ground (
        arith,
        lookup-erase k status_key (erase nsm_key2 (erase nsm_key1 m3)),
        lookup-erase k nsm_key2 (erase nsm_key1 m3),
        lookup-erase k nsm_key1 m3,
        lookup-insert k nsm_key2 kernel m2,
        lookup-insert k nsm_key1 service m1,
        lookup-insert k status_key "injected" a,
      )

-- The offboarding takes from a pod that the webhook has mutated for the slice just the entries that the
-- webhook sets: all other labels and annotations are those that the pod had.
pub strip_meta-mutate_pod :
    (slice : String) (pod : ObjectMeta)
    → IsRest
        (slice_key ∷ pod_type_key ∷ [])
        (or_empty pod.labels)
        (or_empty (strip_meta slice (mutate_pod pod slice)).labels)
      × IsRest
          (status_key ∷ nsm_key1 ∷ nsm_key2 ∷ [])
          (or_empty pod.annotations)
          (or_empty (strip_meta slice (mutate_pod pod slice)).annotations)
unfolding strip_meta mutate_pod
strip_meta-mutate_pod slice pod = (
  strip_labels-injected_labels slice (or_empty pod.labels),
  strip_annotations-injected_annotations slice (or_empty pod.annotations),
)

-- The label of the slice that the webhook sets on a deployment itself stays when the namespace is
-- offboarded.
pub strip_workload-mutate_deployment :
    (slice : String) (deploy : Workload)
    → lookup slice_key
        (or_empty (strip_workload slice (mutate_deployment deploy slice)).meta.labels)
      ≡ some slice
unfolding strip_workload mutate_deployment
strip_workload-mutate_deployment slice deploy =
    ground (arith, lookup-insert slice_key slice_key slice (or_empty deploy.meta.labels))
