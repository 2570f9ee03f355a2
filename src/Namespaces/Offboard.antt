-- ===== src/Namespaces/Offboard.antt =====
-- `unbindAppNamespace` and `deleteAnnotationsAndLabels`.
pub mod Restored
use worker_operator.Base.{
  String, ◌<>◌, Option, none, some, List, [], ◌∷◌, Result, ok, err, is_not_found, string_eq,
  if◌then◌else◌, lookup, erase, or_empty, return, ◌>>=◌, ◌==◌, Bool, true, false,
}
use worker_operator.Objects.{Labels}
use worker_operator.Webhook.Mutate.{
  ObjectMeta, Workload, has_value, slice_key, status_key, pod_type_key, nsm_key1, nsm_key2,
}
use worker_operator.Namespaces.Calls.{
  Namespace, Slice, Kind, deployment, stateful_set, daemon_set, NamespaceConfig, Env, Action,
  get_namespace, update_namespace, list_pods, update_pod, list_workloads, update_workload,
  delete_policy,
}

abbrev pub inject_key : String
inject_key = "kubeslice.io/inject"

-- A change of a map that may be nil.
abbrev pub on_map : (Labels → Labels) → Option Labels → Option Labels
on_map f none = none
on_map f (some m) = some (f m)

-- `if ok && v == value { delete(m, key) }`
unfoldable pub erase_value : String → String → Labels → Labels
unfolding has_value
erase_value key value m = if has_value value (lookup key m) then erase key m else m

-- `removeEntries`
unfoldable pub remove_entries : Labels → Labels → Labels
unfolding erase_value
remove_entries m [] = m
remove_entries m ((key, value) ∷ entries) = remove_entries (erase_value key value m) entries

unfoldable pub strip_labels : String → Labels → Labels
unfolding erase_value
strip_labels slice labels = erase_value slice_key slice (erase pod_type_key labels)

unfoldable pub strip_annotations : String → Labels → Labels
unfolding erase_value
strip_annotations slice annotations = erase status_key (
    erase_value nsm_key2 ("kernel://vl3-service-" <> (slice <> "/nsm0"))
      (erase_value nsm_key1 ("vl3-service-" <> slice) annotations))

unfoldable pub strip_meta : String → ObjectMeta → ObjectMeta
unfolding strip_labels strip_annotations
strip_meta slice meta = record meta {
  labels = on_map (strip_labels slice) meta.labels;
  annotations = on_map (strip_annotations slice) meta.annotations;
}

-- A workload's own labels stay.
unfoldable pub strip_workload : String → Workload → Workload
unfolding strip_meta
strip_workload slice w = record {
  template = strip_meta slice w.template;
  meta = record w.meta { annotations = on_map (erase status_key) w.meta.annotations };
}

abbrev pub items : {A : Type 0} → Result (List A) → List A
items (err e) = []
items (ok xs) = xs

-- A namespace without the labels of the slice and of the cluster.
abbrev pub unbound : NamespaceConfig → Namespace → Namespace
unbound config ns = record ns {
  labels =
      on_map
        (λ l. remove_entries (erase inject_key (erase slice_key l)) (or_empty config.config_labels))
        ns.labels;
  annotations = on_map (λ a. remove_entries a (or_empty config.config_annotations)) ns.annotations;
}

abbrev pub is_some : {A : Type 0} → Option A → Bool
is_some none = false
is_some (some a) = true

module _ (E : Env) where
  unfoldable pub strip_pods : String → List ObjectMeta → Action (Result (Unit {0}))
  strip_pods slice [] = return (ok tt)
  strip_pods slice (pod ∷ pods) = do
    done ← update_pod E (strip_meta slice pod)
    elim done [ err e ↦ return (err e) | ok _ ↦ strip_pods slice pods ]

  unfoldable pub strip_workloads : String → Kind → List Workload → Action (Result (Unit {0}))
  strip_workloads slice kind [] = return (ok tt)
  strip_workloads slice kind (w ∷ ws) = do
    done ← update_workload E kind (strip_workload slice w)
    elim done [ err e ↦ return (err e) | ok _ ↦ strip_workloads slice kind ws ]

  -- An error of a list is only logged.
  unfoldable pub strip_kinds : String → String → List Kind → Action (Result (Unit {0}))
  strip_kinds slice ns [] = return (ok tt)
  strip_kinds slice ns (kind ∷ kinds) = do
    listed ← list_workloads E kind ns
    done ← strip_workloads slice kind (items listed)
    elim done [ err e ↦ return (err e) | ok _ ↦ strip_kinds slice ns kinds ]

  abbrev pub kinds_in_order : List Kind
  kinds_in_order = deployment ∷ stateful_set ∷ daemon_set ∷ []

  unfoldable pub delete_annotations_and_labels : String → String → Action (Result (Unit {0}))
  delete_annotations_and_labels slice ns = do
    listed ← list_pods E ns
    done ← strip_pods slice (items listed)
    elim done [ err e ↦ return (err e) | ok _ ↦ strip_kinds slice ns kinds_in_order ]

  -- An error of the deletion of the network policy is only logged.
  unfoldable pub strip_namespace : String → String → Action (Result (Unit {0}))
  strip_namespace slice ns = do _ ← delete_policy E slice ns; delete_annotations_and_labels slice ns

  unfoldable pub unbind_app_namespace :
      String → String → NamespaceConfig → Action (Result (Unit {0}))
  unbind_app_namespace slice ns config = do
    got ← get_namespace E ns
    elim got [
      | err e ↦ if is_not_found e then return (ok tt) else return (err e)
      | ok found ↦
          if is_some (lookup slice_key (or_empty found.labels))
          then (do
            done ← update_namespace E (unbound config found)
            elim done [ err e ↦ return (err e) | ok _ ↦ strip_namespace slice ns ])
          else strip_namespace slice ns
    ]
