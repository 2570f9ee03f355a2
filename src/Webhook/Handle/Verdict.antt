-- ===== src/Webhook/Handle/Verdict.antt =====
-- What the webhook answers to a service export.
use worker_operator.Base.{
  ℕ, String, ◌<>◌, true, Option, none, some, List, [], ◌∷◌, Result, ok, err, Error, ◌≡◌, arith, All,
  Bool-cases, Option-cases, Result-cases, inl, inr, contains, string_eq,
}
use worker_operator.Webhook.Mutate.{SliceInfo}
use worker_operator.Webhook.Aliases.{
  Export, or_else, conflicting_alias, same_export, first_conflict, validate_service_export,
}
use worker_operator.Webhook.Aliases.Unique.{ApartFrom, others, first_conflict-none}
use worker_operator.Webhook.Handle.{
  AdmissionResponse, errored, denied, allowed, AdmissionRequest, Codec, handle_export,
}

module _ (fold : ℕ → ℕ) where
  conflicting_alias-contains :
      (existing aliases : List String) (a : String)
      → conflicting_alias fold existing aliases ≡ some a
      → contains aliases a ≡ true
  unfolding conflicting_alias
  conflicting_alias-contains existing [] a h = cc
  conflicting_alias-contains existing (x ∷ xs) a h =
      ground (arith, conflicting_alias-contains existing xs a)

  or_else-some :
      (o o' : Option String) (a : String) (aliases : List String)
      → (o ≡ some a → contains aliases a ≡ true)
      → (o' ≡ some a → contains aliases a ≡ true)
      → or_else o o' ≡ some a
      → contains aliases a ≡ true
  or_else-some none o' a l f g h = g h
  or_else-some (some b) o' a l f g h = f h

  first_conflict-contains :
      (e : Export) (xs : List Export) (a : String)
      → first_conflict fold e xs ≡ some a
      → contains e.aliases a ≡ true
  unfolding first_conflict
  first_conflict-contains e [] a h = cc
  first_conflict-contains e (x ∷ xs) a h = elim (Bool-cases (same_export fold e x)) [
    | inl s ↦ first_conflict-contains e xs a (rw s at h)
    | inr d ↦
        or_else-some _ _ a e.aliases (conflicting_alias-contains x.aliases e.aliases a)
          (first_conflict-contains e xs a) (rw d at h)
  ]

  module _ (K : Codec) (I : SliceInfo) (single_net : String)
      (all_exports : String → Result (List Export)) (req : AdmissionRequest) where
    -- The verdicts on a service export, with what each one means.
    pub data Verdict : AdmissionResponse → Type 0 where
      undecodable : (e : Error) → K.decode_export req.raw ≡ err e → Verdict (errored 400 e)
      unlisted :
          (svcex : Export) (e : Error)
          → K.decode_export req.raw ≡ ok svcex
          → all_exports svcex.slice ≡ err e
          → Verdict (errored 500 e)
      refused :
          (svcex : Export) (exports : List Export) (alias : String)
          → K.decode_export req.raw ≡ ok svcex
          → all_exports svcex.slice ≡ ok exports
          → contains svcex.aliases alias ≡ true
          → ¬ All (ApartFrom fold svcex) (others fold svcex exports)
          → Verdict (denied ("Alias " <> (alias <> " already exist")))
      accepted :
          (svcex : Export) (exports : List Export)
          → K.decode_export req.raw ≡ ok svcex
          → all_exports svcex.slice ≡ ok exports
          → All (ApartFrom fold svcex) (others fold svcex exports)
          → Verdict allowed

    -- A service export is answered by a client error if it cannot be decoded, by a server error
    -- if the exports of its slice cannot be listed, by a refusal that names one of its aliases if it has
    -- an alias in common with another export of the slice, and is let through only if it has none.
    pub handle_export-Verdict : Verdict (handle_export K I single_net fold all_exports req)
    unfolding handle_export validate_service_export
    handle_export-Verdict = elim (Result-cases (K.decode_export req.raw)) [
      | inl (e, d) ↦ rw (d, handle_export) (undecodable e d)
      | inr (svcex, d) ↦ elim (Result-cases (all_exports svcex.slice)) [
        | inl (e, l) ↦ rw (d, handle_export, l, validate_service_export) (unlisted svcex e d l)
        | inr (xs, l) ↦ elim (Option-cases (first_conflict fold svcex xs)) [
          | inl c ↦
              rw (d, handle_export, l, validate_service_export, c)
                (accepted svcex xs d l ((first_conflict-none fold svcex xs).0 c))
          | inr (a, c) ↦
              rw (d, handle_export, l, validate_service_export, c)
                (refused svcex xs a d l (first_conflict-contains svcex xs a c)
                  (λ n. let z = (first_conflict-none fold svcex xs).1 n in cc))
        ]
      ]
    ]
