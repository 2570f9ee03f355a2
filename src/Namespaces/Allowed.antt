-- ===== src/Namespaces/Allowed.antt =====
-- The allowed namespaces: `reconcileAllowedNamespaces`, `annotateAllowedNamespace`,
-- `unbindAllowedNamespace`. The annotation lists the slices, with commas between them.
pub mod Annotation
use worker_operator.Base.{
  ℕ, String, ◌<>◌, Bool, true, false, not, Option, none, some, List, [], ◌∷◌, ◌++◌, Result, ok, err,
  Error, is_not_found, ◌==◌, string_eq, nat_eq, if◌then◌else◌, contains, lookup, insert, erase,
  or_empty, split, join, comma, Dict, RetryLib, return, panic, ◌>>=◌,
}
use worker_operator.Objects.{Labels}
use worker_operator.Namespaces.Calls.{
  Namespace, IsolationProfile, Slice, Call, Env, Action, list_allowed_namespaces, get_namespace,
  update_namespace, get_slice, update_slice_status, key_order,
}
use worker_operator.Namespaces.Offboard.{on_map}

abbrev pub allowed_key : String
allowed_key = "kubeslice.io/namespace"

abbrev pub allowed_annotation_key : String
allowed_annotation_key = "kubeslice.io/trafficAllowedToSlices"

abbrev pub default_namespaces : List String
default_namespaces = "kubeslice-system" ∷ "kube-system" ∷ "istio-system" ∷ []

unfoldable pub add_missing : List String → List String → List String
add_missing l [] = l
add_missing l (v ∷ vs) = if contains l v then add_missing l vs else add_missing (l ++ v ∷ []) vs

-- `indexOf`, and the deletion at the index: the first entry of the slice.
unfoldable pub delete_first : String → List String → List String
delete_first b [] = []
delete_first b (j ∷ a) = let rest = delete_first b a in if j == b then a else j ∷ rest

-- The annotation with a slice added, unless it is listed.
unfoldable pub annotated : String → Option String → Option String
annotated slice none = some slice
annotated slice (some v) =
    if contains (split comma v) slice then none else some (v <> ("," <> slice))

abbrev pub with_annotation : String → Namespace → Namespace
with_annotation v ns = record ns {
  annotations = some (insert allowed_annotation_key v (or_empty ns.annotations));
}

-- What becomes of a namespace from which the last slice goes, and of its annotation otherwise.
abbrev pub disallowed : Namespace → Namespace
disallowed ns = record ns {
  annotations = on_map (erase allowed_annotation_key) ns.annotations;
  labels = on_map (erase allowed_key) ns.labels;
}

abbrev pub is_single : List String → Bool
is_single [] = false
is_single (x ∷ []) = true
is_single (x ∷ y ∷ xs) = false

abbrev pub without_slice : String → String → Namespace → Namespace
without_slice slice v ns =
    if is_single (split comma v)
    then disallowed ns
    else with_annotation (join "," (delete_first slice (split comma v))) ns

-- The existing namespaces with their marks.
abbrev pub Marked : Type 0
Marked = Dict String (Namespace × Bool)

unfoldable pub allowed_map : List Namespace → Marked → Marked
allowed_map [] m = m
allowed_map (ns ∷ rest) m = allowed_map rest (insert ns.name (ns, false) m)

unfoldable pub not_marked : Marked → List String
not_marked [] = []
not_marked ((name, (ns, mark)) ∷ m) = let rest = not_marked m in if mark then rest else name ∷ rest

pub record Allowing : Type 0 where
  pub labeled : List String
  pub markers : Marked
  pub changed : Bool

module _ (E : Env) (slice : String) where
  -- Whether the annotation was to change; an error of the update is only logged.
  unfoldable pub annotate_allowed_namespace : Namespace → Action Bool
  unfolding annotated
  annotate_allowed_namespace ns =
      elim (annotated slice (lookup allowed_annotation_key (or_empty ns.annotations))) [
        | none ↦ return false
        | some v ↦ do _ ← update_namespace E (with_annotation v ns); return true
      ]

  unfoldable pub unbind_annotated : Namespace → Option String → Action (Result (Unit {0}))
  unbind_annotated ns none = return (ok tt)
  unbind_annotated ns (some v) =
      if contains (split comma v) slice
      then update_namespace E (without_slice slice v ns)
      else return (ok tt)

  unfoldable pub unbind_allowed_namespace : String → Action (Result (Unit {0}))
  unbind_allowed_namespace name = do
    got ← get_namespace E name
    elim got [
      | err e ↦ return (err e)
      | ok ns ↦ unbind_annotated ns (lookup allowed_annotation_key (or_empty ns.annotations))
    ]

  abbrev pub with_label : String → Namespace → Namespace
  with_label name ns = record ns { labels = some (insert allowed_key name (or_empty ns.labels)) }

  unfoldable pub allow : String → Allowing → Action (Result Allowing)
  allow name a = elim (lookup name a.markers) [
    | some (ns, mark) ↦ do
      applied ← annotate_allowed_namespace ns
      return (
          ok (record {
            labeled = a.labeled ++ name ∷ [];
            markers = insert name (ns, true) a.markers;
            changed = if applied then true else a.changed;
          }))
    | none ↦ do
      got ← get_namespace E name
      elim got [
        | err e ↦ return (ok a)
        | ok ns ↦ do
          done ← update_namespace E (with_label name ns)
          elim done [
            | err e ↦ return (err e)
            | ok _ ↦ return (ok (record a { labeled = a.labeled ++ name ∷ []; changed = true }))
          ]
      ]
  ]

  unfoldable pub allow_all : List String → Allowing → Action (Result Allowing)
  allow_all [] a = return (ok a)
  allow_all (name ∷ names) a = do
    allowed ← allow name a
    elim allowed [ err e ↦ return (err e) | ok a' ↦ allow_all names a' ]

  unfoldable pub disallow_all : List String → Bool → Action (Result Bool)
  disallow_all [] changed = return (ok changed)
  disallow_all (name ∷ names) changed = do
    done ← unbind_allowed_namespace name
    elim done [ err e ↦ return (err e) | ok _ ↦ disallow_all names true ]

-- A list that is not found is empty.
abbrev pub listed_or_error : Result (List Namespace) → Result (List Namespace)
listed_or_error (err e) = if is_not_found e then ok [] else err e
listed_or_error (ok l) = ok l

module _ (E : Env) (R : RetryLib Call) where
  abbrev pub with_allowed_namespaces : List String → Slice → Slice
  with_allowed_namespaces l s = record s { allowed_namespaces = l }

  unfoldable pub set_allowed_namespaces : List String → Slice → Action (Slice × Result (Unit {0}))
  set_allowed_namespaces l s = do
    got ← get_slice E s.name
    elim got [
      | err e ↦ return (s, err e)
      | ok s' ↦ do
        done ← update_slice_status E (with_allowed_namespaces l s')
        return (with_allowed_namespaces l s', done)
    ]

  unfoldable pub finish_allowing :
      Slice → Allowing → Result Bool → Action (Slice × Result (Unit {0}))
  finish_allowing s a (err e) = return (s, err e)
  finish_allowing s a (ok changed) =
      if changed then R.retry (set_allowed_namespaces a.labeled) s else return (s, ok tt)

  unfoldable pub sweep_allowed : Slice → Result Allowing → Action (Slice × Result (Unit {0}))
  sweep_allowed s (err e) = return (s, err e)
  sweep_allowed s (ok a) = do
    keys ← key_order E (not_marked a.markers)
    swept ← disallow_all E s.name keys a.changed
    finish_allowing s a swept

  unfoldable pub allow_existing :
      Slice → IsolationProfile → Result (List Namespace) → Action (Slice × Result (Unit {0}))
  unfolding add_missing allowed_map
  allow_existing s profile (err e) = return (s, err e)
  allow_existing s profile (ok existing) = do
    allowed ←
        allow_all E s.name (add_missing profile.allowed_namespaces default_namespaces)
          (record { labeled = []; markers = allowed_map existing []; changed = false })
    sweep_allowed s allowed

  unfoldable pub reconcile_allowed_namespaces : Slice → Action (Slice × Result (Unit {0}))
  reconcile_allowed_namespaces s = elim s.slice_config [
    | none ↦ panic
    | some none ↦ return (s, ok tt)
    | some (some profile) ↦ if not profile.isolation_enabled then return (s, ok tt) else (do
      existing ← list_allowed_namespaces E
      allow_existing s profile (listed_or_error existing))
  ]
