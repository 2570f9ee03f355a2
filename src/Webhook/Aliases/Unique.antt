-- ===== src/Webhook/Aliases/Unique.antt =====
-- That the aliases of a slice's service exports stay unique.
use worker_operator.Base.{
  ℕ, String, true, false, Option, none, some, List, [], ◌∷◌, string_eq, nat_eq, if◌then◌else◌, ◌≡◌,
  ◌≢◌, ◌↔◌, inl, inr, refl, sym, arith, All, Bool-cases,
}
use worker_operator.Webhook.Aliases.{
  Export, or_else, equal_fold, folded, equal_codes, alias_exist, conflicting_alias, same_export,
  first_conflict,
}

equal_codes-eq : (xs ys : List ℕ) → (equal_codes xs ys ≡ true) ↔ (xs ≡ ys)
unfolding equal_codes
equal_codes-eq [] [] = (λ h. refl, λ h. refl)
equal_codes-eq [] (y ∷ ys) = (λ h. cc, λ h. cc)
equal_codes-eq (x ∷ xs) [] = (λ h. cc, λ h. cc)
equal_codes-eq (x ∷ xs) (y ∷ ys) =
    (λ h. ground (arith, equal_codes-eq xs ys), λ h. ground (arith, equal_codes-eq xs ys))

or_else-none : (a b : Option String) → or_else a b ≡ none → (a ≡ none) × (b ≡ none)
or_else-none none b h = (refl, h)
or_else-none (some a) b h = cc

module _ (fold : ℕ → ℕ) where
  -- Two aliases that differ not only in case.
  abbrev pub Differ : String → String → Type 0
  Differ x y = folded fold x ≢ folded fold y

  -- No alias of the one list is an alias of the other up to case.
  abbrev pub Apart : List String → List String → Type 0
  Apart xs ys = All (λ x. All (Differ x) ys) xs

  Apart-nil : (xs : List String) → Apart xs []
  Apart-nil [] = tt
  Apart-nil (x ∷ xs) = (tt, Apart-nil xs)

  Apart-cons :
      (y : String) (xs ys : List String) → All (Differ y) xs → Apart xs ys → Apart xs (y ∷ ys)
  Apart-cons y [] ys h k = tt
  Apart-cons y (x ∷ xs) ys h k = ((λ e. h.0 (sym e), k.0), Apart-cons y xs ys h.1 k.1)

  Apart-sym : (xs ys : List String) → Apart xs ys → Apart ys xs
  Apart-sym [] ys h = Apart-nil ys
  Apart-sym (x ∷ xs) ys h = Apart-cons x ys xs h.0 (Apart-sym xs ys h.1)

  alias_exist-false :
      (existing : List String) (x : String)
      → (alias_exist fold existing x ≡ false) ↔ All (Differ x) existing
  unfolding alias_exist equal_fold
  alias_exist-false [] x = (λ h. tt, λ h. refl)
  alias_exist-false (z ∷ zs) x =
      let c = equal_codes-eq (folded fold z) (folded fold x) in
      let i = alias_exist-false zs x in
      (
        λ h. (λ e. ground (arith, c.1 (sym e)), i.0 (ground arith)),
        λ h. ground (arith, c.0, h.0, i.1 h.1),
      )

  conflicting_alias-none :
      (existing aliases : List String)
      → (conflicting_alias fold existing aliases ≡ none) ↔ Apart aliases existing
  unfolding conflicting_alias
  conflicting_alias-none existing [] = (λ h. tt, λ h. refl)
  conflicting_alias-none existing (x ∷ xs) =
      let a = alias_exist-false existing x in
      let i = conflicting_alias-none existing xs in
      (λ h. (a.0 (ground arith), i.0 (ground arith)), λ h. ground (arith, a.1 h.0, i.1 h.1))

  -- The exports that an update of `e` leaves as they are.
  abbrev pub others : Export → List Export → List Export
  others e [] = []
  others e (x ∷ xs) = if same_export fold e x then others e xs else x ∷ others e xs

  abbrev pub ApartFrom : Export → Export → Type 0
  ApartFrom a b = Apart a.aliases b.aliases

  -- Each two exports have no alias in common.
  abbrev pub Unique : List Export → Type 0
  Unique [] = Unit
  Unique (e ∷ es) = All (ApartFrom e) es × Unique es

  -- An export passes the validation exactly if it has no alias in common with any of the slice's
  -- other exports.
  pub first_conflict-none :
      (e : Export) (xs : List Export)
      → (first_conflict fold e xs ≡ none) ↔ All (ApartFrom e) (others e xs)
  unfolding first_conflict
  first_conflict-none e [] = (λ h. tt, λ h. refl)
  first_conflict-none e (x ∷ xs) = elim (Bool-cases (same_export fold e x)) [
    | inl s ↦ rw s (first_conflict-none e xs)
    | inr d ↦
        let c = conflicting_alias-none x.aliases e.aliases in
        let i = first_conflict-none e xs in
        rw d (λ h. let o = or_else-none _ _ h in (c.0 o.0, i.0 o.1), λ h. rw (c.1 h.0) (i.1 h.1))
  ]

  All-others :
      (e : Export) (P : Export → Type 0) (xs : List Export) → All P xs → All P (others e xs)
  All-others e P [] h = tt
  All-others e P (x ∷ xs) h = elim (Bool-cases (same_export fold e x)) [
    | inl s ↦ rw s (All-others e P xs h.1)
    | inr d ↦ rw d (h.0, All-others e P xs h.1)
  ]

  Unique-others : (e : Export) (xs : List Export) → Unique xs → Unique (others e xs)
  Unique-others e [] h = tt
  Unique-others e (x ∷ xs) h = elim (Bool-cases (same_export fold e x)) [
    | inl s ↦ rw s (Unique-others e xs h.1)
    | inr d ↦ rw d (All-others e (ApartFrom x) xs h.0, Unique-others e xs h.1)
  ]

  -- If the exports of a slice have no aliases in common, they have none after an export that
  -- passes the validation is created, or updated in the place of the one with its name.
  pub first_conflict-Unique :
      (e : Export) (xs : List Export)
      → Unique xs
      → first_conflict fold e xs ≡ none
      → Unique (e ∷ others e xs)
  first_conflict-Unique e xs u h = ((first_conflict-none e xs).0 h, Unique-others e xs u)
