-- ===== src/Namespaces/Onboard.antt =====
-- `buildAppNamespacesList`, `createAndLabelAppNamespaces` and `reconcileAppNamespaces`.
pub mod Bound
pub mod Loop
pub mod Reported
use worker_operator.Base.{
  String, ◌<>◌, Bool, true, false, not, Option, none, some, List, [], ◌∷◌, ◌++◌, Result, ok, err,
  Error, is_not_found, ◌==◌, string_eq, if◌then◌else◌, Dict, lookup, insert, or_empty, RetryLib,
  return, panic, ◌>>=◌,
}
use worker_operator.Objects.{Labels}
use worker_operator.Webhook.Mutate.{slice_key}
use worker_operator.Namespaces.Calls.{
  Namespace, IsolationProfile, Slice, NamespaceConfig, Call, Env, Action, list_app_namespaces,
  get_namespace, create_namespace, update_namespace, get_slice, update_slice_status,
  get_namespace_config, update_app_namespaces, key_order,
}
use worker_operator.Namespaces.Offboard.{inject_key, on_map, unbind_app_namespace}

abbrev pub control_plane : String
control_plane = "kubeslice-system"

-- Without the namespace of the control plane.
unfoldable pub build_app_namespaces_list : List String → List String
build_app_namespaces_list [] = []
build_app_namespaces_list (ns ∷ rest) =
    let others = build_app_namespaces_list rest in
    if ns == control_plane then others else ns ∷ others

-- The map of the existing namespaces, each with its mark.
abbrev pub Markers : Type 0
Markers = Dict String Bool

unfoldable pub existing_map : List String → Markers → Markers
existing_map [] m = m
existing_map (ns ∷ rest) m = existing_map rest (insert ns false m)

unfoldable pub unmarked : Markers → List String
unmarked [] = []
unmarked ((ns, mark) ∷ m) = let rest = unmarked m in if mark then rest else ns ∷ rest

abbrev pub bound_labels : String → Labels → Labels
bound_labels slice l = insert inject_key "true" (insert slice_key slice l)

-- The maps that `mergeMaps` returns are dropped, so the cluster's labels and annotations are not
-- added.
abbrev pub bound : String → Namespace → Namespace
bound slice ns = record ns { labels = some (bound_labels slice (or_empty ns.labels)) }

-- What the loop over the configured namespaces has made so far. The labels of a namespace that it
-- creates are the map of the cluster's labels itself, so labelling the one changes the other.
pub record Onboarding : Type 0 where
  pub labeled : List String
  pub markers : Markers
  pub changed : Bool
  pub config : NamespaceConfig

abbrev pub shared : String → Onboarding → Onboarding
shared slice o = record o {
  config = record o.config { config_labels = on_map (bound_labels slice) o.config.config_labels };
}

module _ (E : Env) (slice : String) where
  unfoldable pub label_namespace : String → Namespace → Onboarding → Action (Result Onboarding)
  label_namespace name ns o = do
    done ← update_namespace E (bound slice ns)
    elim done [
      | err e ↦ return (err e)
      | ok _ ↦ return (ok (record o { labeled = o.labeled ++ name ∷ []; changed = true }))
    ]

  abbrev pub configured : String → NamespaceConfig → Namespace
  configured name config = record {
    name = name;
    labels = config.config_labels;
    annotations = config.config_annotations;
  }

  -- What follows the creation; an error of it is only logged.
  unfoldable pub label_created :
      String → Onboarding → Result (Unit {0}) → Action (Result Onboarding)
  label_created name o (err e) = return (ok o)
  label_created name o (ok _) = label_namespace name (configured name o.config) (shared slice o)

  unfoldable pub bind_new : String → Onboarding → Action (Result Onboarding)
  bind_new name o = do
    got ← get_namespace E name
    elim got [
      | ok ns ↦ label_namespace name ns o
      | err e ↦
          if is_not_found e
          then (do made ← create_namespace E (configured name o.config); label_created name o made)
          else return (ok o)
    ]

  unfoldable pub bind : String → Onboarding → Action (Result Onboarding)
  bind name o = elim (lookup name o.markers) [
    | some mark ↦
        return
          (ok (record o { labeled = o.labeled ++ name ∷ []; markers = insert name true o.markers }))
    | none ↦ bind_new name o
  ]

  unfoldable pub create_and_label_app_namespaces :
      List String → Onboarding → Action (Result Onboarding)
  create_and_label_app_namespaces [] o = return (ok o)
  create_and_label_app_namespaces (name ∷ names) o = do
    bound_one ← bind name o
    elim bound_one [ err e ↦ return (err e) | ok o' ↦ create_and_label_app_namespaces names o' ]

  -- The sweep, in the order of the keys, and whether it met a namespace.
  unfoldable pub unbind_all : List String → NamespaceConfig → Bool → Action (Result Bool)
  unbind_all [] config changed = return (ok changed)
  unbind_all (ns ∷ rest) config changed = do
    done ← unbind_app_namespace E slice ns config
    elim done [ err e ↦ return (err e) | ok _ ↦ unbind_all rest config true ]

module _ (E : Env) (R : RetryLib Call) where
  abbrev pub with_application_namespaces : List String → Slice → Slice
  with_application_namespaces l s = record s { application_namespaces = l }

  unfoldable pub set_application_namespaces :
      List String → Slice → Action (Slice × Result (Unit {0}))
  set_application_namespaces l s = do
    got ← get_slice E s.name
    elim got [
      | err e ↦ return (s, err e)
      | ok s' ↦ do
        done ← update_slice_status E (with_application_namespaces l s')
        return (with_application_namespaces l s', done)
    ]

  -- The name of the slice's object on the hub is made of the name that the slice has then.
  unfoldable pub tell_hub :
      List String → Slice × Result (Unit {0}) → Action (Slice × Result (Unit {0}))
  tell_hub l (s, err e) = return (s, err e)
  tell_hub l (s, ok _) = do
    done ← update_app_namespaces E (s.name <> ("-" <> E.cluster_name)) l
    return (s, done)

  unfoldable pub report_namespaces : List String → Slice → Action (Slice × Result (Unit {0}))
  report_namespaces l s = do out ← R.retry (set_application_namespaces l) s; tell_hub l out

  unfoldable pub finish_onboarding :
      Slice → Onboarding → Result Bool → Action (Slice × Result (Unit {0}))
  finish_onboarding s o (err e) = return (s, err e)
  finish_onboarding s o (ok changed) =
      if changed then report_namespaces o.labeled s else return (s, ok tt)

  unfoldable pub sweep : Slice → Result Onboarding → Action (Slice × Result (Unit {0}))
  sweep s (err e) = return (s, err e)
  sweep s (ok o) = do
    keys ← key_order E (unmarked o.markers)
    swept ← unbind_all E s.name keys o.config o.changed
    finish_onboarding s o swept

  unfoldable pub onboard : Slice → IsolationProfile → Action (Slice × Result (Unit {0}))
  unfolding build_app_namespaces_list existing_map
  onboard s profile = do
    existing ← list_app_namespaces E s.name
    elim existing [
      | err e ↦ return (s, err e)
      | ok names ↦ do
        config ← get_namespace_config E
        elim config [
          | err e ↦ return (s, err e)
          | ok c ↦ do
            onboarded ←
                create_and_label_app_namespaces E s.name
                  (build_app_namespaces_list profile.application_namespaces)
                  (record {
                    labeled = [];
                    markers = existing_map names [];
                    changed = false;
                    config = c;
                  })
            sweep s onboarded
        ]
    ]

  -- Without a profile there is nothing to do; reading a nil configuration panics.
  unfoldable pub onboard_profile :
      Slice → Option (Option IsolationProfile) → Action (Slice × Result (Unit {0}))
  onboard_profile s none = panic
  onboard_profile s (some none) = return (s, ok tt)
  onboard_profile s (some (some profile)) = onboard s profile

  unfoldable pub reconcile_app_namespaces : Slice → Action (Slice × Result (Unit {0}))
  reconcile_app_namespaces s = onboard_profile s s.slice_config
