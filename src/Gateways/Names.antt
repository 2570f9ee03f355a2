-- ===== src/Gateways/Names.antt =====
-- The names of deployments and of their pods.
use worker_operator.Base.{
  String, ◌<>◌, false, ◌⊎◌, inl, inr, Bool-cases, List, [], ◌∷◌, ◌++◌, ◌≡◌, ◌≢◌, refl, ap, ◌∙◌,
  ◌==◌, string_eq, nat_eq, dash, split, join, has_byte, split-append, split-of_no_dash,
  join-split-append, cut_prefix-append, split-dash, append-is_empty, arith,
}
use worker_operator.Recycler.Names.{get_new_deployment_name, other_instance, set_last}
use worker_operator.Gateways.{get_dep_name_from_pod_name, dep_name_of_words}

set_last-append :
    (xs : List String) (d : String) (f : String → String)
    → set_last (xs ++ (d ∷ [])) f ≡ xs ++ (f d ∷ [])
set_last-append [] d f = refl
set_last-append (x ∷ []) d f = refl
set_last-append (x ∷ y ∷ ys) d f = ap (λ l. x ∷ l) (set_last-append (y ∷ ys) d f)

-- What becomes of the last word of a name.
abbrev pub IsOtherInstance : String → String → Type 0
IsOtherInstance d w = ((d ≡ "0") × (w ≡ "1")) ⊎ ((d ≢ "0") × (w ≡ "0"))

other_instance_lem : (d : String) → IsOtherInstance d (other_instance d)
other_instance_lem d = elim (Bool-cases (d == "0")) [
  | inl e ↦ rw e (inl (ground (arith, e), refl))
  | inr e ↦ rw e (inr (ground (arith, e), refl))
]

-- The name of the new deployment differs from the name of the old one in its last word only, which
-- becomes "1" where it was "0" and "0" otherwise; what stands before may hold any dashes.
pub get_new_deployment_name_lem :
    (s d : String)
    → has_byte dash d ≡ false
    → (w : String) × IsOtherInstance d w
      × (get_new_deployment_name (s <> ("-" <> d)) ≡ s <> ("-" <> w))
unfolding get_new_deployment_name
get_new_deployment_name_lem s d h = (
  other_instance d,
  other_instance_lem d,
  ap (λ l. join "-" (set_last l other_instance))
        (split-append s d ∙ ap (λ l. split dash s ++ l) (split-of_no_dash d h))
      ∙ ap (join "-") (set_last-append (split dash s) d other_instance)
      ∙ join-split-append s (other_instance d),
)

-- The words of what a pod's name holds after the identifier of its gateway.
words_of_pod :
    (i d rest : String)
    → has_byte dash i ≡ false
    → has_byte dash d ≡ false
    → split dash ("-" <> (i <> ("-" <> (d <> ("-" <> rest))))) ≡ "" ∷ i ∷ d ∷ split dash rest
words_of_pod i d rest hi hd =
    split-dash _
    ∙ ap (λ l. "" ∷ l)
        (split-append i _
          ∙ ap (λ l. l ++ split dash (d <> ("-" <> rest))) (split-of_no_dash i hi)
          ∙ ap (λ l. i ∷ l)
              (split-append d rest ∙ ap (λ l. l ++ split dash rest) (split-of_no_dash d hd)))

-- From the name of a pod, which Kubernetes makes of its deployment's name and a suffix, the
-- deployment's name is got back: the identifier of the gateway, which is not empty and may hold
-- dashes, and the two numbers, without dashes, whatever the suffix is.
pub get_dep_name_from_pod_name_lem :
    (id i d rest : String)
    → id ≢ ""
    → has_byte dash i ≡ false
    → has_byte dash d ≡ false
    → get_dep_name_from_pod_name id (id <> ("-" <> (i <> ("-" <> (d <> ("-" <> rest))))))
      ≡ id <> ("-" <> (i <> ("-" <> d)))
unfolding get_dep_name_from_pod_name dep_name_of_words
get_dep_name_from_pod_name_lem id i d rest ne hi hd =
    let rest' = "-" <> (i <> ("-" <> (d <> ("-" <> rest)))) in
    rw (
      is_empty-ne id ne,
      append-is_empty id rest' ne,
      cut_prefix-append id rest',
      words_of_pod i d rest hi hd,
    )
  where
    is_empty-ne : (x : String) → x ≢ "" → (x == "") ≡ false
    is_empty-ne x h = ground arith
