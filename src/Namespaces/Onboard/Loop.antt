-- ===== src/Namespaces/Onboard/Loop.antt =====
-- The loop over the configured namespaces.
use worker_operator.Base.{
  String, true, List, [], ◌∷◌, ◌++◌, Result, ok, err, is_not_found, string_eq, lookup, insert, ◌≡◌,
  refl, ap, Adds, same, more, Did, did_now, Did-Adds, Holds, Holds-return, Holds-bind, Holds-ask,
  Holds-if, Option-cases, inl, inr,
}
use worker_operator.Namespaces.Calls.{
  Namespace, Call, listed_app_namespaces, got_namespace, created_namespace, updated_namespace, Env,
}
use worker_operator.Namespaces.Offboard.{is_some}
use worker_operator.Namespaces.Onboard.{
  bound, configured, Onboarding, shared, label_namespace, label_created, bind_new, bind,
  create_and_label_app_namespaces,
}
use worker_operator.Namespaces.Onboard.Bound.{
  Bound, listed, relabelled, created, AllBound, Reported, AllBound-Adds, AllBound-snoc, Known,
  Known-insert,
}

module _ (E : Env) (slice : String) where
  abbrev Q : List Call → Call → Type 0
  Q = Reported slice

  -- The loop's invariant.
  abbrev pub Sound : List String → Result Onboarding → List Call → Type 0
  Sound names (err e) k = Unit
  Sound names (ok o) k = AllBound slice o.labeled k × Known names o.markers

  -- The names were listed with the label of the slice.
  abbrev pub Listed : List String → List Call → Type 0
  Listed names k = Did (λ c. c ≡ listed_app_namespaces slice (ok names)) k

  Holds-label_namespace :
      (names : List String) (name : String) (ns : Namespace) (o : Onboarding) (h : List Call)
      → Sound names (ok o) h
      → ((k : List Call)
          → Adds Q h k
          → Did (λ c. c ≡ updated_namespace (bound slice ns) (ok tt)) k
          → Bound slice name k)
      → Holds Q (Sound names) h (label_namespace E slice name ns o h)
  unfolding label_namespace
  Holds-label_namespace names name ns o h s b =
      Holds-ask Q (Sound names) _ _ _ h (λ a. tt)
        (elim [
          | err e ↦ Holds-return Q (Sound names) (err e) _ tt
          | ok u ↦
              let a = more (updated_namespace (bound slice ns) (ok tt)) same tt in
              Holds-return Q (Sound names)
                (ok (record o { labeled = o.labeled ++ name ∷ []; changed = true })) _
                (
                  AllBound-snoc slice o.labeled name _ (AllBound-Adds slice {Q = Q} o.labeled a s.0)
                      (b _ a (did_now _ refl)),
                  s.1,
                )
        ])

  Sound-next :
      (names : List String) (o : Onboarding) (h : List Call) (c : Call)
      → Q h c
      → Sound names (ok o) h
      → Sound names (ok o) (c ∷ h)
  Sound-next names o h c q s = (AllBound-Adds slice {Q = Q} o.labeled (more c same q) s.0, s.1)

  Holds-label_created :
      (names : List String) (name : String) (o : Onboarding) (h : List Call)
      → Sound names (ok o) h
      → (a : Result (Unit {0}))
      → Holds Q (Sound names) (created_namespace (configured E slice name o.config) a ∷ h) (
          label_created E slice name o a
            (created_namespace (configured E slice name o.config) a ∷ h))
  unfolding label_created
  Holds-label_created names name o h s (err e) =
      Holds-return Q (Sound names) (ok o) _ (Sound-next names o h _ tt s)
  Holds-label_created names name o h s (ok u) =
      let made = created_namespace (configured E slice name o.config) (ok u) in
      Holds-label_namespace names name (configured E slice name o.config) (shared slice o) _
        (Sound-next names o h made tt s)
        (λ k a v.
          created (configured E slice name o.config) refl (Did-Adds _ (did_now made refl) a) v)

  Holds-bind_new :
      (names : List String) (name : String) (o : Onboarding) (h : List Call)
      → Sound names (ok o) h
      → Holds Q (Sound names) h (bind_new E slice name o h)
  unfolding bind_new
  Holds-bind_new names name o h s =
      Holds-ask Q (Sound names) _ _ _ h (λ a. tt)
        (elim [
          | ok ns ↦
              Holds-label_namespace names name ns o _ (Sound-next names o h _ tt s) (λ k a u.
                relabelled ns (Did-Adds _ (did_now (got_namespace name (ok ns)) refl) a) u)
          | err e ↦
              Holds-if Q (Sound names) (is_not_found e) _ _ _
                (λ _.
                  Holds-ask Q (Sound names) _ _ _ _ (λ a. tt)
                    (Holds-label_created names name o _ (Sound-next names o h _ tt s)))
                (λ _. Holds-return Q (Sound names) (ok o) _ (Sound-next names o h _ tt s))
        ])

  Holds-bind-name :
      (names : List String) (name : String) (o : Onboarding) (h : List Call)
      → Listed names h
      → Sound names (ok o) h
      → Holds Q (Sound names) h (bind E slice name o h)
  unfolding bind
  Holds-bind-name names name o h l s = elim (Option-cases (lookup name o.markers)) [
    | inl e ↦ rw (e, bind) (Holds-bind_new names name o h s)
    | inr (mark, e) ↦
        let c = s.1 name (ap is_some e) in
        rw (e, bind)
          (Holds-return Q (Sound names)
            (ok
              (record o { labeled = o.labeled ++ name ∷ []; markers = insert name true o.markers }))
            h
            (
              AllBound-snoc slice o.labeled name h s.0 (listed names l c),
              Known-insert names name true o.markers c s.1,
            ))
  ]

  pub Holds-create_and_label :
      (names : List String) (l : List String) (o : Onboarding) (h : List Call)
      → Listed names h
      → Sound names (ok o) h
      → Holds Q (Sound names) h (create_and_label_app_namespaces E slice l o h)
  unfolding create_and_label_app_namespaces
  Holds-create_and_label names [] o h d s = Holds-return Q (Sound names) (ok o) h s
  Holds-create_and_label names (x ∷ xs) o h d s =
      Holds-bind Q (Sound names) (Sound names) _ _ h (Holds-bind-name names x o h d s) (elim [
        | err e ↦ λ k a t. Holds-return Q (Sound names) (err e) k tt
        | ok o' ↦ λ k a t. Holds-create_and_label names xs o' k (Did-Adds _ d a) t
      ])
