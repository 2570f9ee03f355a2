-- ===== src/Cluster/Health/Statuses.antt =====
-- The status of each component.
use worker_operator.Base.{
  Error, String, Bool, true, false, ◌||◌, Option, none, some, List, [], ◌∷◌, Result, ok, err, ◌==◌,
  string_eq, nat_eq, if◌then◌else◌, ◌≡◌, ◌≢◌, ◌⊎◌, ◌∙◌, inl, inr, refl, sym, arith, All, Bool-cases,
  get_or, Run, returned, panicked, Adds, Did, did_now, Did-Adds, Holds, Holds-return, Holds-ask,
  Holds-if,
}
use worker_operator.Cluster.Calls.{
  Component, ComponentPod, ComponentStatus, HubCluster, Call, listed_component_pods, Env,
}
use worker_operator.Cluster.Health.{
  normal, failing, status_of, normal_if, not_empty, status_of_pods, are_healthy,
  get_component_status,
}
use worker_operator.Cluster.Health.Normal.{IsHealthy, are_healthy-All}

-- The status of a component, or that it gets none, by the cluster and by the answer to the list of
-- its pods, which is among the calls.
pub data StatusOf (cr : HubCluster) (k : List Call) (c : Component) (o : Option String)
    : Type 0 where
  ips_known :
      c.name ≡ "node-ips"
      → (cr.spec_node_ips ≢ []) ⊎ (cr.node_ips ≢ [])
      → o ≡ some "Normal"
      → StatusOf cr k c o
  ips_unknown :
      c.name ≡ "node-ips"
      → cr.spec_node_ips ≡ []
      → cr.node_ips ≡ []
      → o ≡ some "Error"
      → StatusOf cr k c o
  subnets_known :
      c.name ≡ "cni-subnets" → get_or [] cr.cni_subnet ≢ [] → o ≡ some "Normal" → StatusOf cr k c o
  subnets_unknown :
      c.name ≡ "cni-subnets" → get_or [] cr.cni_subnet ≡ [] → o ≡ some "Error" → StatusOf cr k c o
  unlisted :
      (e : Error) → Did (λ x. x ≡ listed_component_pods c (err e)) k → o ≡ none → StatusOf cr k c o
  ignored :
      Did (λ x. x ≡ listed_component_pods c (ok [])) k
      → c.ignore_missing ≡ true
      → o ≡ none
      → StatusOf cr k c o
  missing :
      Did (λ x. x ≡ listed_component_pods c (ok [])) k
      → c.ignore_missing ≡ false
      → o ≡ some "Error"
      → StatusOf cr k c o
  healthy :
      (pod : ComponentPod) (pods : List ComponentPod)
      → Did (λ x. x ≡ listed_component_pods c (ok (pod ∷ pods))) k
      → All IsHealthy (pod ∷ pods)
      → o ≡ some "Normal"
      → StatusOf cr k c o
  unhealthy :
      (pod : ComponentPod) (pods : List ComponentPod)
      → Did (λ x. x ≡ listed_component_pods c (ok (pod ∷ pods))) k
      → ¬ All IsHealthy (pod ∷ pods)
      → o ≡ some "Error"
      → StatusOf cr k c o

-- The statuses of the components that have one, in order.
pub data Reported (cr : HubCluster) (k : List Call)
    : List Component → List ComponentStatus → Type 0 where
  all_reported : Reported cr k [] []
  left_out :
      {c : Component} {cs : List Component} {ss : List ComponentStatus}
      → StatusOf cr k c none
      → Reported cr k cs ss
      → Reported cr k (c ∷ cs) ss
  reported :
      {c : Component} {cs : List Component} {ss : List ComponentStatus} (s : String)
      → StatusOf cr k c (some s)
      → Reported cr k cs ss
      → Reported cr k (c ∷ cs) (record { component = c.name; component_health_status = s } ∷ ss)

abbrev pub Q : List Call → Call → Type 0
Q h c = Unit

-- What holds at the end may use what was added.
pub Holds-map :
    {A : Type 0} (S R : A → List Call → Type 0) (h : List Call) (out : Run A × List Call)
    → ((a : A) (k : List Call) → Adds Q h k → S a k → R a k)
    → Holds Q S h out
    → Holds Q R h out
Holds-map S R h (returned a, k) f x = (x.0, f a k x.0 x.1)
Holds-map S R h (panicked, k) f x = x

pub StatusOf-Adds :
    (cr : HubCluster) (c : Component) (o : Option String) (h k : List Call)
    → Adds Q h k
    → StatusOf cr h c o
    → StatusOf cr k c o
StatusOf-Adds cr c o h k a (ips_known n p e) = ips_known n p e
StatusOf-Adds cr c o h k a (ips_unknown n p q e) = ips_unknown n p q e
StatusOf-Adds cr c o h k a (subnets_known n p e) = subnets_known n p e
StatusOf-Adds cr c o h k a (subnets_unknown n p e) = subnets_unknown n p e
StatusOf-Adds cr c o h k a (unlisted x d e) = unlisted x (Did-Adds _ d a) e
StatusOf-Adds cr c o h k a (ignored d i e) = ignored (Did-Adds _ d a) i e
StatusOf-Adds cr c o h k a (missing d i e) = missing (Did-Adds _ d a) i e
StatusOf-Adds cr c o h k a (healthy p ps d i e) = healthy p ps (Did-Adds _ d a) i e
StatusOf-Adds cr c o h k a (unhealthy p ps d i e) = unhealthy p ps (Did-Adds _ d a) i e

abbrev pub named : Component → Option String → Option ComponentStatus
named c none = none
named c (some s) = some (status_of c s)

-- A status that the code gives a component.
abbrev pub Given : HubCluster → Component → Option ComponentStatus → List Call → Type 0
Given cr c o k = (s : Option String) × StatusOf cr k c s × (o ≡ named c s)

module _ (E : Env) (cr : HubCluster) where
  Given-missing :
      (c : Component) (b : Bool) (k : List Call)
      → c.ignore_missing ≡ b
      → Did (λ x. x ≡ listed_component_pods c (ok [])) k
      → Given cr c (if b then none else some (status_of c failing)) k
  Given-missing c true k e d = (none, ignored d e refl, refl)
  Given-missing c false k e d = (some failing, missing d e refl, refl)

  Given-pods :
      (c : Component) (answer : Result (List ComponentPod)) (k : List Call)
      → Did (λ x. x ≡ listed_component_pods c answer) k
      → Given cr c (status_of_pods c answer) k
  unfolding status_of_pods
  Given-pods c (err e) k d = (none, unlisted e d refl, refl)
  Given-pods c (ok []) k d = Given-missing c c.ignore_missing k refl d
  Given-pods c (ok (pod ∷ pods)) k d =
      let a = are_healthy-All (pod ∷ pods) in
      elim (Bool-cases (are_healthy (pod ∷ pods))) [
        | inl e ↦ rw e (some normal, healthy pod pods d (a.0 e) refl, refl)
        | inr e ↦ rw e (
          some failing,
          unhealthy pod pods d (λ all. true-ne-false (sym (a.1 all) ∙ e)) refl,
          refl,
        )
      ]
    where
      true-ne-false : true ≢ false
      true-ne-false p = cc

  Given-ips :
      (c : Component) (xs ys : List String) (k : List Call)
      → cr.spec_node_ips ≡ xs
      → cr.node_ips ≡ ys
      → c.name ≡ "node-ips"
      → Given cr c (some (status_of c (normal_if (not_empty xs || not_empty ys)))) k
  Given-ips c [] [] k p q n = (some failing, ips_unknown n p q refl, refl)
  Given-ips c [] (y ∷ ys) k p q n = (some normal, ips_known n (inr (λ z. cc)) refl, refl)
  Given-ips c (x ∷ xs) ys k p q n = (some normal, ips_known n (inl (λ z. cc)) refl, refl)

  Given-subnets :
      (c : Component) (xs : List String) (k : List Call)
      → get_or [] cr.cni_subnet ≡ xs
      → c.name ≡ "cni-subnets"
      → Given cr c (some (status_of c (normal_if (not_empty xs)))) k
  Given-subnets c [] k p n = (some failing, subnets_unknown n p refl, refl)
  Given-subnets c (x ∷ xs) k p n = (some normal, subnets_known n (λ z. cc) refl, refl)

  pub Holds-component :
      (c : Component) (h : List Call) → Holds Q (Given cr c) h (get_component_status E c cr h)
  unfolding get_component_status
  Holds-component c h =
      Holds-if Q (Given cr c) (c.name == "node-ips") _ _ h
        (λ n. Holds-return Q (Given cr c) _ h (Given-ips c _ _ h refl refl (ground (arith, n))))
        (λ _.
          Holds-if Q (Given cr c) (c.name == "cni-subnets") _ _ h
            (λ n. Holds-return Q (Given cr c) _ h (Given-subnets c _ h refl (ground (arith, n))))
            (λ _.
              Holds-ask Q (Given cr c) _ _ _ h (λ a. tt)
                (λ answer.
                  Holds-return Q (Given cr c) _ _ (Given-pods c answer _ (did_now _ refl)))))
