-- ===== src/Export/Changes.antt =====
-- What isServiceAppPodChanged takes for unchanged.
use worker_operator.Base.{
  String, false, some, List, [], ◌∷◌, ◌≡◌, ◌⊎◌, ◌∙◌, inl, inr, refl, sym, ap, arith, string_eq,
  nat_eq, ◌==◌, if◌then◌else◌, length, lookup, insert, lookup-insert, get_or, Dict, All,
  Option-cases, Bool-cases, subst,
}
use worker_operator.Export.Calls.{ServicePod}
use worker_operator.Export.Compare.{by_name, blank_pod, differs, is_service_app_pod_changed}

-- One of the pods has the pod's name and addresses.
abbrev pub IsShown : List ServicePod → ServicePod → Type 0
IsShown [] c = ⊥
IsShown (p ∷ ps) c =
    ((p.name ≡ c.name) × (p.nsm_ip ≡ c.nsm_ip) × (p.pod_ip ≡ c.pod_ip)) ⊎ IsShown ps c

-- One of the pods.
abbrev IsAmong : List ServicePod → ServicePod → Type 0
IsAmong [] v = ⊥
IsAmong (p ∷ ps) v = (p ≡ v) ⊎ IsAmong ps v

IsAmong-IsShown :
    (ps : List ServicePod) (v c : ServicePod)
    → IsAmong ps v
    → v.name ≡ c.name
    → v.nsm_ip ≡ c.nsm_ip
    → v.pod_ip ≡ c.pod_ip
    → IsShown ps c
IsAmong-IsShown [] v c a n i j = a
IsAmong-IsShown (p ∷ ps) v c (inl e) n i j =
    inl (ap (λ x. x.name) e ∙ n, ap (λ x. x.nsm_ip) e ∙ i, ap (λ x. x.pod_ip) e ∙ j)
IsAmong-IsShown (p ∷ ps) v c (inr a) n i j = inr (IsAmong-IsShown ps v c a n i j)

module _ (old : List ServicePod) where
  -- The map holds pods of the list by their names.
  abbrev IsIndex : Dict String ServicePod → Type 0
  IsIndex m = (k : String) (v : ServicePod) → lookup k m ≡ some v → IsAmong old v × (v.name ≡ k)

  IsIndex-nil : IsIndex []
  unfolding lookup
  IsIndex-nil k v e = cc

  IsIndex-insert :
      (p : ServicePod) (m : Dict String ServicePod)
      → IsAmong old p
      → IsIndex m
      → IsIndex (insert p.name p m)
  IsIndex-insert p m a i k v h =
      let q : (if p.name == k then some p else lookup k m) ≡ some v =
        sym (lookup-insert k p.name p m) ∙ h in
      elim (Bool-cases (p.name == k)) [
        | inl b ↦
            let e : p ≡ v =
              ap (get_or p) (subst (λ x. (if x then some p else lookup k m) ≡ some v) b q) in
            (subst (IsAmong old) e a, sym (ap (λ x. x.name) e) ∙ ground (arith, b))
        | inr b ↦ i k v (subst (λ x. (if x then some p else lookup k m) ≡ some v) b q)
      ]

  by_name-IsIndex :
      (ps : List ServicePod) (m : Dict String ServicePod)
      → ((p : ServicePod) → IsAmong ps p → IsAmong old p)
      → IsIndex m
      → IsIndex (by_name ps m)
  unfolding by_name
  by_name-IsIndex [] m s i = i
  by_name-IsIndex (p ∷ ps) m s i =
      by_name-IsIndex ps (insert p.name p m) (λ q a. s q (inr a))
        (IsIndex-insert p m (s p (inl refl)) i)

  -- A pod that is shown, or that has no addresses.
  abbrev pub IsKept : ServicePod → Type 0
  IsKept c = IsShown old c ⊎ ((c.nsm_ip ≡ "") × (c.pod_ip ≡ ""))

  IsKept-found :
      (m : Dict String ServicePod) (c : ServicePod)
      → IsIndex m
      → (get_or blank_pod (lookup c.name m)).nsm_ip ≡ c.nsm_ip
      → (get_or blank_pod (lookup c.name m)).pod_ip ≡ c.pod_ip
      → IsKept c
  IsKept-found m c i n j = elim (Option-cases (lookup c.name m)) [
    | inl e ↦ inr (
      sym (subst (λ o. (get_or blank_pod o).nsm_ip ≡ c.nsm_ip) e n),
      sym (subst (λ o. (get_or blank_pod o).pod_ip ≡ c.pod_ip) e j),
    )
    | inr (v, e) ↦ inl (
        IsAmong-IsShown old v c (i c.name v e).0 (i c.name v e).1
          (subst (λ o. (get_or blank_pod o).nsm_ip ≡ c.nsm_ip) e n)
          (subst (λ o. (get_or blank_pod o).pod_ip ≡ c.pod_ip) e j))
  ]

  differs-IsKept :
      (m : Dict String ServicePod) (current : List ServicePod)
      → IsIndex m
      → differs m current ≡ false
      → All IsKept current
  unfolding differs
  differs-IsKept m [] i h = tt
  differs-IsKept m (c ∷ cs) i h =
      let ih = differs-IsKept m cs i in
      (IsKept-found m c i (ground (arith, h)) (ground (arith, h)), ih (ground (arith, h)))

-- If the pods of a service export are taken as unchanged, there are as many of them as before, and
-- each is among those before with its name and both addresses, or has no address.
pub is_service_app_pod_changed-IsKept :
    (current old : List ServicePod)
    → is_service_app_pod_changed current old ≡ false
    → (length current ≡ length old) × All (IsKept old) current
unfolding is_service_app_pod_changed
is_service_app_pod_changed-IsKept current old h = (
  ground (arith, h),
  differs-IsKept old (by_name old []) current
      (by_name-IsIndex old old [] (λ p a. a) (IsIndex-nil old)) (ground (arith, h)),
)
