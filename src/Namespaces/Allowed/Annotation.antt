-- ===== src/Namespaces/Allowed/Annotation.antt =====
-- The annotation that lists the slices to which an allowed namespace may send.
use worker_operator.Base.{
  String, ◌<>◌, false, Option, none, some, List, [], ◌∷◌, ◌++◌, string_eq, nat_eq, contains, lookup,
  insert, lookup-insert, lookup-erase, or_empty, split, has_byte, comma, split-comma-append,
  split-of_no_comma, join-split-comma, split-ne-nil, Bool-cases, inl, inr, ◌≡◌, ◌≢◌, refl, ap,
  subst, ◌∙◌, arith,
}
use worker_operator.Namespaces.Calls.{Namespace}
use worker_operator.Namespaces.Allowed.{
  allowed_annotation_key, delete_first, annotated, with_annotation, is_single, disallowed,
  without_slice,
}

delete_first-append :
    (b : String) (xs : List String) → contains xs b ≡ false → delete_first b (xs ++ b ∷ []) ≡ xs
unfolding delete_first
delete_first-append b [] h = ground arith
delete_first-append b (x ∷ xs) h = ground (arith, delete_first-append b xs)

is_single-append : (b : String) (xs : List String) → xs ≢ [] → is_single (xs ++ b ∷ []) ≡ false
is_single-append b [] h = absurd (h refl)
is_single-append b (x ∷ []) h = refl
is_single-append b (x ∷ y ∷ xs) h = refl

abbrev pub annotation_of : Namespace → Option String
annotation_of ns = lookup allowed_annotation_key (or_empty ns.annotations)

abbrev value_of : Option String → String
value_of none = ""
value_of (some v) = v

annotation_of-with_annotation :
    (v : String) (ns : Namespace) → annotation_of (with_annotation v ns) ≡ some v
annotation_of-with_annotation v ns =
    ground (
      arith,
      lookup-insert allowed_annotation_key allowed_annotation_key v (or_empty ns.annotations),
    )

annotation_of-disallowed :
    (v : String) (ns : Namespace) → annotation_of (disallowed (with_annotation v ns)) ≡ none
annotation_of-disallowed v ns = ground (
  arith,
  lookup-erase allowed_annotation_key allowed_annotation_key
      (insert allowed_annotation_key v (or_empty ns.annotations)),
)

module _ (slice : String) (plain : has_byte comma slice ≡ false) where
  first_slice :
      (ns : Namespace) → annotation_of (without_slice slice slice (with_annotation slice ns)) ≡ none
  first_slice ns = rw (split-of_no_comma slice plain) (annotation_of-disallowed slice ns)

  next_slice :
      (v : String) (ns : Namespace)
      → contains (split comma v) slice ≡ false
      → annotation_of
          (without_slice slice (v <> ("," <> slice)) (with_annotation (v <> ("," <> slice)) ns))
        ≡ some v
  next_slice v ns h =
      let w =
        split-comma-append v slice ∙ ap (λ l. split comma v ++ l) (split-of_no_comma slice plain) in
      rw
        (
          w,
          is_single-append slice (split comma v) (split-ne-nil comma v),
          delete_first-append slice (split comma v) h,
          join-split-comma v,
        )
        (annotation_of-with_annotation v (with_annotation (v <> ("," <> slice)) ns))

  undone :
      (ns : Namespace) (v : String) (o : Option String)
      → annotated slice o ≡ some v
      → annotation_of (without_slice slice v (with_annotation v ns)) ≡ o
  unfolding annotated
  undone ns v none h =
      subst (λ w. annotation_of (without_slice slice w (with_annotation w ns)) ≡ none)
        (ap value_of h) (first_slice ns)
  undone ns v (some u) h = elim (Bool-cases (contains (split comma u) slice)) [
    | inl e ↦ let bad : none ≡ some v = rw e at h in cc
    | inr e ↦
        let same_value : some (u <> ("," <> slice)) ≡ some v = rw e at h in
        subst (λ w. annotation_of (without_slice slice w (with_annotation w ns)) ≡ some u)
          (ap value_of same_value) (next_slice u ns e)
  ]

  -- The removal of a slice from the annotation of an allowed namespace undoes its addition, if the
  -- slice's name holds no comma.
  pub without_slice-annotated :
      (ns : Namespace) (v : String)
      → annotated slice (annotation_of ns) ≡ some v
      → annotation_of (without_slice slice v (with_annotation v ns)) ≡ annotation_of ns
  without_slice-annotated ns v h = undone ns v (annotation_of ns) h
