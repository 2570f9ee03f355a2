-- ===== src/Namespaces/Onboard/Bound.antt =====
-- When a namespace is bound to a slice, and the steps that report none.
use worker_operator.Base.{
  String, Bool, true, false, List, [], ◌∷◌, ◌++◌, ok, err, is_not_found, string_eq, contains,
  lookup, insert, lookup-insert, or_empty, ◌≡◌, arith, All, Adds, Emits, Emits-return, Emits-bind,
  Emits-perform, Emits-if, Did, Did-Adds,
}
use worker_operator.Webhook.Mutate.{ObjectMeta, Workload, slice_key}
use worker_operator.Namespaces.Calls.{
  Namespace, Kind, NamespaceConfig, Call, listed_app_namespaces, got_namespace, created_namespace,
  updated_namespace, updated_slice_status, updated_app_namespaces, Env,
}
use worker_operator.Namespaces.Offboard.{
  strip_pods, strip_workloads, strip_kinds, delete_annotations_and_labels, strip_namespace,
  unbind_app_namespace, is_some,
}
use worker_operator.Namespaces.Onboard.{Markers, existing_map, bound, unbind_all}

-- Why a namespace is bound to a slice: it was listed with the slice's label; or it was read, or else
-- created, and then updated with the label.
pub data Bound (slice name : String) (k : List Call) : Type 0 where
  listed :
      (names : List String)
      → Did (λ c. c ≡ listed_app_namespaces slice (ok names)) k
      → contains names name ≡ true
      → Bound slice name k
  relabelled :
      (ns : Namespace)
      → Did (λ c. c ≡ got_namespace name (ok ns)) k
      → Did (λ c. c ≡ updated_namespace (bound slice ns) (ok tt)) k
      → Bound slice name k
  created :
      (ns : Namespace)
      → ns.name ≡ name
      → Did (λ c. c ≡ created_namespace ns (ok tt)) k
      → Did (λ c. c ≡ updated_namespace (bound slice ns) (ok tt)) k
      → Bound slice name k

abbrev pub AllBound : String → List String → List Call → Type 0
AllBound slice l k = All (λ name. Bound slice name k) l

-- The namespaces that are reported are bound to the slice.
abbrev pub Reported : String → List Call → Call → Type 0
Reported slice k (updated_slice_status s r) = AllBound slice s.application_namespaces k
Reported slice k (updated_app_namespaces n l r) = AllBound slice l k
Reported slice k _ = Unit

module _ (slice : String) where
  Bound-Adds :
      {Q : List Call → Call → Type 0} (name : String) {h k : List Call}
      → Adds Q h k
      → Bound slice name h
      → Bound slice name k
  Bound-Adds name a (listed names d c) = listed names (Did-Adds _ d a) c
  Bound-Adds name a (relabelled ns d u) = relabelled ns (Did-Adds _ d a) (Did-Adds _ u a)
  Bound-Adds name a (created ns e d u) = created ns e (Did-Adds _ d a) (Did-Adds _ u a)

  pub AllBound-Adds :
      {Q : List Call → Call → Type 0} (l : List String) {h k : List Call}
      → Adds Q h k
      → AllBound slice l h
      → AllBound slice l k
  AllBound-Adds [] a b = tt
  AllBound-Adds (x ∷ xs) a b = (Bound-Adds x a b.0, AllBound-Adds xs a b.1)

  pub AllBound-snoc :
      (l : List String) (x : String) (k : List Call)
      → AllBound slice l k
      → Bound slice x k
      → AllBound slice (l ++ x ∷ []) k
  AllBound-snoc [] x k a b = (b, tt)
  AllBound-snoc (y ∷ l) x k a b = (a.0, AllBound-snoc l x k a.1 b)

-- The keys of the map are among the listed names.
abbrev pub Known : List String → Markers → Type 0
Known names m = (name : String) → is_some (lookup name m) ≡ true → contains names name ≡ true

pub Known-insert :
    (names : List String) (n : String) (b : Bool) (m : Markers)
    → contains names n ≡ true
    → Known names m
    → Known names (insert n b m)
Known-insert names n b m c i name s = ground (arith, lookup-insert name n b m, i name, c, s)

pub existing_map-Known :
    (names rest : List String) (m : Markers)
    → ((x : String) → contains rest x ≡ true → contains names x ≡ true)
    → Known names m
    → Known names (existing_map rest m)
unfolding existing_map
existing_map-Known names [] m f i = i
existing_map-Known names (n ∷ rest) m f i =
    existing_map-Known names rest (insert n false m) (λ x c. f x (ground (arith, c)))
      (Known-insert names n false m (f n (ground arith)) i)

module _ (E : Env) (slice : String) where
  abbrev Q : List Call → Call → Type 0
  Q = Reported slice

  Emits-strip_pods : (s : String) (l : List ObjectMeta) → Emits Q (strip_pods E s l)
  unfolding strip_pods
  Emits-strip_pods s [] = Emits-return Q _
  Emits-strip_pods s (x ∷ xs) =
      Emits-bind Q _ _ (Emits-perform Q _ _ (λ h. tt))
        (elim [ err e ↦ Emits-return Q _ | ok u ↦ Emits-strip_pods s xs ])

  Emits-strip_workloads :
      (s : String) (kind : Kind) (l : List Workload) → Emits Q (strip_workloads E s kind l)
  unfolding strip_workloads
  Emits-strip_workloads s kind [] = Emits-return Q _
  Emits-strip_workloads s kind (x ∷ xs) =
      Emits-bind Q _ _ (Emits-perform Q _ _ (λ h. tt))
        (elim [ err e ↦ Emits-return Q _ | ok u ↦ Emits-strip_workloads s kind xs ])

  Emits-strip_kinds : (s ns : String) (l : List Kind) → Emits Q (strip_kinds E s ns l)
  unfolding strip_kinds
  Emits-strip_kinds s ns [] = Emits-return Q _
  Emits-strip_kinds s ns (x ∷ xs) = Emits-bind Q _ _ (Emits-perform Q _ _ (λ h. tt)) (λ found.
      Emits-bind Q _ _ (Emits-strip_workloads s x _)
        (elim [ err e ↦ Emits-return Q _ | ok u ↦ Emits-strip_kinds s ns xs ]))

  Emits-strip_namespace : (s ns : String) → Emits Q (strip_namespace E s ns)
  unfolding strip_namespace delete_annotations_and_labels
  Emits-strip_namespace s ns = Emits-bind Q _ _ (Emits-perform Q _ _ (λ h. tt)) (λ u.
      Emits-bind Q _ _ (Emits-perform Q _ _ (λ h. tt)) (λ found.
        Emits-bind Q _ _ (Emits-strip_pods s _)
          (elim [ err e ↦ Emits-return Q _ | ok v ↦ Emits-strip_kinds s ns _ ])))

  Emits-unbind_app_namespace :
      (s ns : String) (config : NamespaceConfig) → Emits Q (unbind_app_namespace E s ns config)
  unfolding unbind_app_namespace
  Emits-unbind_app_namespace s ns config = Emits-bind Q _ _ (Emits-perform Q _ _ (λ h. tt)) (elim [
    | err e ↦ Emits-if Q (is_not_found e) _ _ (λ _. Emits-return Q _) (λ _. Emits-return Q _)
    | ok found ↦
        Emits-if Q (is_some (lookup slice_key (or_empty found.labels))) _ _
          (λ _.
            Emits-bind Q _ _ (Emits-perform Q _ _ (λ h. tt))
              (elim [ err e ↦ Emits-return Q _ | ok u ↦ Emits-strip_namespace s ns ]))
          (λ _. Emits-strip_namespace s ns)
  ])

  pub Emits-unbind_all :
      (l : List String) (config : NamespaceConfig) (b : Bool)
      → Emits Q (unbind_all E slice l config b)
  unfolding unbind_all
  Emits-unbind_all [] config b = Emits-return Q _
  Emits-unbind_all (x ∷ xs) config b =
      Emits-bind Q _ _ (Emits-unbind_app_namespace slice x config)
        (elim [ err e ↦ Emits-return Q _ | ok u ↦ Emits-unbind_all xs config true ])
