-- ===== src/Rotation/Writes/Sync.antt =====
-- What the synchronisation of the states leaves of each gateway.
use worker_operator.Base.{
  subst, ◌↔◌, ℕ, String, Bool, true, false, Option, none, some, List, [], ◌∷◌, ◌≡◌, ◌≢◌, ◌⊎◌, ◌∙◌,
  inl, inr, refl, sym, ap, arith, string_eq, ◌==◌, contains, if◌then◌else◌, Dict, lookup, insert,
  lookup-insert, infix_of, suffix_of, Option-cases, Bool-cases, Post, Post-if, Post-after, return,
  panic,
}
use worker_operator.Rotation.Calls.{Rotation, VpnKeyRotation, Call, Env, Action}
use worker_operator.Rotation.Status.{
  keys_in_status, sync_gateways, add_remaining, merge, merged, detached, gateways_of, states,
  complete,
}
use worker_operator.Rotation.Writes.{IsDetached, IsSynced}
use worker_operator.Rotation.Writes.History.{lookup-erase_all, contains-array_difference}

module _ (E : Env) (r : VpnKeyRotation) where
  -- A state that the synchronisation may put in: the one that was there, or that of a new gateway.
  abbrev pub Good : String → Rotation → Type 0
  Good gw v =
      (lookup gw (states r) ≡ some v)
      ⊎ ((t : ℕ) × (lookup gw (states r) ≡ none)
          × (contains (gateways_of E r) gw ≡ true)
          × (r.certificate_creation_time ≡ some t)
          × (v ≡ record { status = "COMPLETE"; last_updated = t }))

  abbrev pub AllGood : Dict String Rotation → Type 0
  AllGood [] = Unit
  AllGood ((gw, v) ∷ m) = Good gw v × AllGood m

  AllGood-insert :
      (gw : String) (v : Rotation) (m : Dict String Rotation)
      → Good gw v
      → AllGood m
      → AllGood (insert gw v m)
  unfolding insert
  AllGood-insert gw v [] g a = (g, tt)
  AllGood-insert gw v ((k, w) ∷ m) g a = elim (Bool-cases (k == gw)) [
    | inl e ↦ rw e (g, a.1)
    | inr e ↦ rw e (a.0, AllGood-insert gw v m g a.1)
  ]

  -- The entries that are left agree with the states, but for the keys that are synchronised.
  abbrev Rest : Dict String Rotation → Dict String Rotation → Type 0
  Rest rem synced = (k : String) → lookup k synced ≡ none → lookup k rem ≡ lookup k (states r)

  lookup-first :
      (gw : String) (v : Rotation) (rem : Dict String Rotation) → lookup gw ((gw, v) ∷ rem) ≡ some v
  unfolding lookup
  lookup-first gw v rem = ground arith

  Rest-there :
      (gw : String) (v s : Rotation) (rem synced : Dict String Rotation)
      → lookup gw synced ≡ some s
      → Rest ((gw, v) ∷ rem) synced
      → Rest rem synced
  unfolding lookup
  Rest-there gw v s rem synced e j k h = elim (Bool-cases (gw == k)) [
    | inl q ↦ absurd (some-ne-none s (sym e ∙ ap (λ x. lookup x synced) (eq-of gw k q) ∙ h))
    | inr q ↦ subst (λ b. (if b then some v else lookup k rem) ≡ lookup k (states r)) q (j k h)
  ]
    where
      some-ne-none : (s : Rotation) → some s ≢ none
      some-ne-none s p = cc

      eq-of : (x y : String) → (x == y) ≡ true → x ≡ y
      eq-of x y q = ground (arith, q)

  Rest-new :
      (gw : String) (v : Rotation) (rem synced : Dict String Rotation)
      → Rest ((gw, v) ∷ rem) synced
      → Rest rem (insert gw v synced)
  unfolding lookup
  Rest-new gw v rem synced j k h =
      let q : (if gw == k then some v else lookup k synced) ≡ none =
        sym (lookup-insert k gw v synced) ∙ h in
      elim (Bool-cases (gw == k)) [
        | inl b ↦
            absurd
              (some-ne-none v (subst (λ x. (if x then some v else lookup k synced) ≡ none) b q))
        | inr b ↦
            subst (λ x. (if x then some v else lookup k rem) ≡ lookup k (states r)) b
              (j k (subst (λ x. (if x then some v else lookup k synced) ≡ none) b q))
      ]
    where
      some-ne-none : (s : Rotation) → some s ≢ none
      some-ne-none s p = cc

  AllGood-add_remaining :
      (rem synced : Dict String Rotation)
      → Rest rem synced
      → AllGood synced
      → AllGood (add_remaining rem synced)
  unfolding add_remaining
  AllGood-add_remaining [] synced j a = a
  AllGood-add_remaining ((gw, v) ∷ rem) synced j a = elim (Option-cases (lookup gw synced)) [
    | inr (s, e) ↦
        rw (e, add_remaining)
          (AllGood-add_remaining rem synced (Rest-there gw v s rem synced e j) a)
    | inl e ↦
        rw (e, add_remaining)
          (AllGood-add_remaining rem (insert gw v synced) (Rest-new gw v rem synced j)
            (AllGood-insert gw v synced (inl (sym (j gw e) ∙ lookup-first gw v rem)) a))
  ]

  -- The merged states hold the synchronised ones or those that were there.
  lookup-merge :
      (synced current : Dict String Rotation) (gw : String)
      → AllGood synced
      → (lookup gw (merge synced current) ≡ lookup gw current)
        ⊎ ((v : Rotation) × Good gw v × (lookup gw (merge synced current) ≡ some v))
  unfolding merge
  lookup-merge [] current gw a = inl refl
  lookup-merge ((k, w) ∷ synced) current gw (g, a) =
      elim (lookup-merge synced (insert k w current) gw a) [
        | inr (v, x, e) ↦ inr (v, x, e)
        | inl e ↦ elim (Bool-cases (k == gw)) [
          | inl q ↦ inr (
            w,
            subst (λ x. Good x w) (eq-of k gw q) g,
            e ∙ lookup-insert gw k w current ∙ ap (λ b. if b then some w else lookup gw current) q,
          )
          | inr q ↦ inl (
              e
              ∙ lookup-insert gw k w current
              ∙ ap (λ b. if b then some w else lookup gw current) q)
        ]
      ]
    where
      eq-of : (x y : String) → (x == y) ≡ true → x ≡ y
      eq-of x y q = ground (arith, q)

  abbrev IsKey : Dict String Rotation → String → Type 0
  IsKey m gw =
      (infix_of E.cluster_name gw ≡ true)
      × (suffix_of E.cluster_name gw ≡ false)
      × (lookup gw m ≢ none)

  contains-keys :
      (m : Dict String Rotation) (gw : String)
      → (contains (keys_in_status E m) gw ≡ true) ↔ IsKey m gw
  unfolding keys_in_status lookup
  contains-keys [] gw = (λ h. cc, λ h. absurd (h.2 refl))
  contains-keys ((k, s) ∷ m) gw =
      let ih = contains-keys m gw in
      (
        λ h. (ground (arith, ih.0), ground (arith, ih.0), λ n. ground (arith, ih.0)),
        λ h. ground (arith, ih.1),
      )

  IsDetached-detached : (gw : String) → (contains (detached E r) gw ≡ true) ↔ IsDetached E r gw
  IsDetached-detached gw =
      let keys = contains-keys (states r) gw in
      let split = contains-array_difference (gateways_of E r) (keys_in_status E (states r)) gw in
      (
        λ h.
            let q = sym split ∙ h in
            let b =
              by_gateways (contains (gateways_of E r) gw)
                (contains (keys_in_status E (states r)) gw) q in
            let k = keys.0 b.1 in (b.0, k.0, k.1, k.2),
        λ d. split ∙ rw d.0 (keys.1 (d.1, d.2, d.3)),
      )
    where
      by_gateways : (x y : Bool) → (if x then false else y) ≡ true → (x ≡ false) × (y ≡ true)
      by_gateways true y q = cc
      by_gateways false y q = (refl, q)

  -- The synchronised states that were found.
  abbrev pub IfFound : Option (Dict String Rotation) → List Call → Type 0
  IfFound none k = Unit
  IfFound (some s) k = AllGood s

  Post-created :
      (t : Option ℕ) (gw : String) (gws : List String) (s : Dict String Rotation) (k : List Call)
      → ((t' : ℕ)
          → t ≡ some t'
          → Post IfFound (
              sync_gateways E t
                (states r)
                gws
                (insert gw (record { status = complete; last_updated = t' }) s)
                k))
      → Post IfFound (
          (elim t as (λ _. Action (Option (Dict String Rotation))) [
            | none ↦ panic
            | some t' ↦
                sync_gateways E t
                  (states r)
                  gws
                  (insert gw (record { status = complete; last_updated = t' }) s)
          ])
            k)
  unfolding panic
  Post-created none gw gws s k x = tt
  Post-created (some t') gw gws s k x = x t' refl

  pub Post-sync_gateways :
      (t : Option ℕ) (gws : List String) (s : Dict String Rotation) (h : List Call)
      → r.certificate_creation_time ≡ t
      → ((gw : String) → contains gws gw ≡ true → contains (gateways_of E r) gw ≡ true)
      → AllGood s
      → Post IfFound (sync_gateways E t (states r) gws s h)
  unfolding sync_gateways return
  Post-sync_gateways t [] s h e c a = a
  Post-sync_gateways t (gw ∷ gws) s h e c a = elim (Option-cases (lookup gw (states r))) [
    | inr (v, f) ↦
        rw (f, sync_gateways)
          (Post-sync_gateways t gws (insert gw v s) h e (λ x m. c x (ground (arith, m)))
            (AllGood-insert gw v s (inl f) a))
    | inl f ↦
        rw (f, sync_gateways)
          (Post-after IfFound _ _ h λ ready k.
            Post-if IfFound ready _ _ k
              (λ _. Post-created t gw gws s k λ t' q.
                Post-sync_gateways t gws
                  (insert gw (record { status = complete; last_updated = t' }) s) k e
                  (λ x m. c x (ground (arith, m)))
                  (AllGood-insert gw _ s (inr (t', f, c gw (ground arith), e ∙ q, refl)) a))
              (λ _. tt))
  ]

  -- A state that is not erased.
  kept-IsSynced :
      {o o' : Option Rotation} (gw : String)
      → o ≡ o'
      → ¬ IsDetached E r gw
      → (o' ≡ lookup gw (states r)) ⊎ ((v : Rotation) × Good gw v × (o' ≡ some v))
      → (¬ IsDetached E r gw × (o ≡ lookup gw (states r)))
        ⊎ ((t : ℕ) × (lookup gw (states r) ≡ none)
            × (contains (gateways_of E r) gw ≡ true)
            × (r.certificate_creation_time ≡ some t)
            × (o ≡ some (record { status = "COMPLETE"; last_updated = t })))
  kept-IsSynced gw p n (inl e) = inl (n, p ∙ e)
  kept-IsSynced gw p n (inr (v, inl g, e)) = inl (n, p ∙ e ∙ sym g)
  kept-IsSynced gw p n (inr (v, inr (t, a, b, c, g), e)) = inr (t, a, b, c, p ∙ e ∙ ap some g)

  pub merged-IsSynced :
      (s : Dict String Rotation) (gw : String)
      → AllGood s
      → IsSynced E r gw (lookup gw (states (merged E r s)))
  merged-IsSynced s gw a =
      let all = AllGood-add_remaining (states r) s (λ k h. refl) a in
      let d = IsDetached-detached gw in
      let m = merge (add_remaining (states r) s) (states r) in
      let erased =
        lookup-erase_all (detached E r) gw (merge (add_remaining (states r) s) (states r)) in
      elim (Bool-cases (contains (detached E r) gw)) [
        | inl e ↦ inl (d.0 e, erased ∙ ap (λ b. if b then none else lookup gw m) e)
        | inr e ↦
            let kept : lookup gw (states (merged E r s)) ≡ lookup gw m =
              erased ∙ ap (λ b. if b then none else lookup gw m) e in
            inr (
              kept-IsSynced gw kept (λ x. true-ne-false (sym (d.1 x) ∙ e))
                (lookup-merge (add_remaining (states r) s) (states r) gw all))
      ]
    where
      true-ne-false : true ≢ false
      true-ne-false p = cc
