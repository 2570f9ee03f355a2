-- ===== src/Cluster/Health/Normal.antt =====
-- What the health of the cluster and of its components means.
use worker_operator.Base.{
  ℕ, String, Bool, true, false, Option, none, some, List, [], ◌∷◌, ◌++◌, Result, ok, err, ◌/=◌,
  string_eq, nat_eq, if◌then◌else◌, ◌≡◌, ◌≢◌, ◌↔◌, ◌⊎◌, inl, inr, refl, sym, ap, subst, arith, All,
  Bool-cases,
}
use worker_operator.Cluster.Calls.{Component, ComponentPod, ComponentStatus}
use worker_operator.Cluster.Health.{
  normal, warning, failing, status_of, normal_if, has_failed, are_healthy, status_of_pods,
  add_status,
}

-- A container runs, waits, or has ended with exit code 0.
abbrev pub IsFine : Option ℕ → Type 0
IsFine none = Unit
IsFine (some code) = code ≡ 0

abbrev pub IsHealthy : ComponentPod → Type 0
IsHealthy pod = (pod.phase ≡ "Running") × All IsFine pod.container_statuses

has_failed-false : (cs : List (Option ℕ)) → (has_failed cs ≡ false) ↔ All IsFine cs
unfolding has_failed
has_failed-false [] = (λ h. tt, λ h. refl)
has_failed-false (none ∷ cs) = let i = has_failed-false cs in (λ h. (tt, i.0 h), λ h. i.1 h.1)
has_failed-false (some code ∷ cs) =
    let i = has_failed-false cs in
    (λ h. (ground arith, i.0 (ground arith)), λ h. ground (arith, h.0, i.1 h.1))

pub are_healthy-All : (pods : List ComponentPod) → (are_healthy pods ≡ true) ↔ All IsHealthy pods
unfolding are_healthy
are_healthy-All [] = (λ h. tt, λ h. refl)
are_healthy-All (pod ∷ pods) =
    let i = are_healthy-All pods in
    let f = has_failed-false pod.container_statuses in
    (
      λ h. ((ground arith, f.0 (ground arith)), i.0 (ground arith)),
      λ h. ground (arith, h.0.0, f.1 h.0.1, i.1 h.1),
    )

normal_if-normal : (b : Bool) → (normal_if b ≡ normal) ↔ (b ≡ true)
unfolding string_eq
normal_if-normal true = (λ h. refl, λ h. refl)
normal_if-normal false = (λ h. cc, λ h. cc)

abbrev pods_of : Result (List ComponentPod) → List ComponentPod
pods_of (err e) = []
pods_of (ok pods) = pods

ok_inj : {k l : List ComponentPod} → ok k ≡ ok l → k ≡ l
ok_inj p = ap pods_of p

abbrev health_of : Option ComponentStatus → String
health_of none = ""
health_of (some cs) = cs.component_health_status

status_of-normal :
    (c : Component) (s : String) → some (status_of c s) ≡ some (status_of c normal) → s ≡ normal
status_of-normal c s h = ap health_of h

missing-normal :
    (c : Component) (b : Bool)
    → (if b then none else some (status_of c failing)) ≢ some (status_of c normal)
unfolding string_eq
missing-normal c true h = cc
missing-normal c false h = let q = ap health_of h in cc

-- The status that a component gets from the list of its pods is normal exactly if the list is answered,
-- is not empty, and holds running pods only, none with a container that ended with an exit code other than 0.
pub status_of_pods-normal :
    (c : Component) (answer : Result (List ComponentPod))
    → (status_of_pods c answer ≡ some (status_of c normal))
      ↔ (pod : ComponentPod) × (pods : List ComponentPod) × (answer ≡ ok (pod ∷ pods))
        × All IsHealthy (pod ∷ pods)
unfolding status_of_pods
status_of_pods-normal c (err e) = (λ h. cc, λ h. let q = h.2 in cc)
status_of_pods-normal c (ok []) =
    (λ h. absurd (missing-normal c c.ignore_missing h), λ h. let q = h.2 in cc)
status_of_pods-normal c (ok (pod ∷ pods)) =
    let a = are_healthy-All (pod ∷ pods) in
    let n = normal_if-normal (are_healthy (pod ∷ pods)) in
    (
      λ h. (pod, pods, refl, a.0 (n.0 (status_of-normal c _ h))),
      λ h.
          ap (λ s. some (status_of c s))
            (n.1 (a.1 (subst (λ l. All IsHealthy l) (sym (ok_inj h.2)) h.3))),
    )

-- A health is normal if all its statuses are, and a warning otherwise.
abbrev pub IsSummary : List ComponentStatus × String → Type 0
IsSummary (statuses, health) =
    ((health ≡ normal) ⊎ (health ≡ warning))
    × ((health ≡ normal) ↔ All (λ cs. cs.component_health_status ≡ normal) statuses)

All-snoc :
    {A : Type 0} (P : A → Type 0) (xs : List A) (x : A) → All P (xs ++ x ∷ []) ↔ (All P xs × P x)
All-snoc P [] x = (λ h. (tt, h.0), λ h. (h.1, tt))
All-snoc P (y ∷ xs) x =
    let i = All-snoc P xs x in
    (λ h. ((h.0, (i.0 h.1).0), (i.0 h.1).1), λ h. (h.0.0, i.1 (h.0.1, h.1)))

normal-ne-warning : normal ≢ warning
unfolding string_eq
normal-ne-warning e = cc

pub IsSummary-add_status :
    (o : Option ComponentStatus) (s : List ComponentStatus × String)
    → IsSummary s
    → IsSummary (add_status o s)
IsSummary-add_status none s h = h
IsSummary-add_status (some cs) (statuses, health) h =
    let a = All-snoc (λ c. c.component_health_status ≡ normal) statuses cs in
    elim (Bool-cases (cs.component_health_status /= normal)) [
      | inl e ↦ rw e (
        inr refl,
        (
          λ p. absurd (normal-ne-warning (sym p)),
          λ all. absurd (differs cs.component_health_status e (a.0 all).1),
        ),
      )
      | inr e ↦
          rw e (
            h.0,
            (λ p. a.1 (h.1.0 p, agrees cs.component_health_status e), λ all. h.1.1 (a.0 all).0),
          )
    ]
  where
    differs : (s : String) → (s /= normal) ≡ true → s ≢ normal
    differs s e = ground (arith, e)

    agrees : (s : String) → (s /= normal) ≡ false → s ≡ normal
    agrees s e = ground (arith, e)
