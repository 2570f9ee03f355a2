-- ===== src/Rotation/Writes/Runs.antt =====
-- The updates of the rotation object make only the calls of `Written`.
use worker_operator.Base.{
  return, did_now, did_before, Did-Adds, Holds-return, Holds-if, Holds-ask, Holds-bind, Post-if,
  Post-ask, Post-any, Run, returned, panicked, Holds, Post, Adds-hold, ℕ, String, Bool, Option,
  none, some, List, [], ◌∷◌, Result, ok, err, ◌≡◌, refl, lookup, Adds, Emits, Emits-return,
  Emits-panic, Emits-bind, Emits-perform, Emits-if, Emits-ask, Adds-ask, Adds-if, ◌==◌, string_eq,
  nat_eq, Option-cases, inl, inr, length, subst, insert, panic, ap, sym, or_empty, more, same, Dict,
}
use worker_operator.Objects.{Pod}
use worker_operator.Rotation.Calls.{Rotation, VpnKeyRotation, Call, Env, Action, listed_gw_pods}
use worker_operator.Rotation.Status.{
  gateways_of, is_out_of_sync, restate, stamp, write_synced, set_status, set_status_with_time_stamp,
  sync_body, sync_gateways, are_gateway_pods_ready, states, with_state, with_history, complete,
}
use worker_operator.Rotation.Writes.{
  Seen, ReadLast, read_now, listed_since, Written, restated, stamped, synced,
}
use worker_operator.Rotation.Writes.Sync.{IfFound, Post-sync_gateways, merged-IsSynced}

module _ (E : Env) where
  abbrev pub Q : List Call → Call → Type 0
  Q = Written E

  Adds-restate :
      (gw status : String) (r : VpnKeyRotation) (o : Option Rotation) (h : List Call)
      → lookup gw (states r) ≡ o
      → ReadLast r h
      → Adds Q h (restate E gw status r (states r) o h).1
  unfolding restate
  Adds-restate gw status r none h e l = Emits-return Q _ h
  Adds-restate gw status r (some s) h e l =
      Adds-if Q (s.status == status) _ _ h (λ _. Emits-return Q _ h)
        (λ _.
          Adds-ask Q _ _ _ h (λ res. (r, l, restated gw status s e refl))
            (λ res. Emits-return Q _ _))

  pub Emits-set_status :
      (gw status : String) (r : VpnKeyRotation) → Emits Q (set_status E gw status r)
  unfolding set_status
  Emits-set_status gw status r =
      Emits-ask Q _ _ _ (λ h. tt)
        (elim [
          | err e ↦ λ h. Emits-return Q _ _
          | ok r' ↦ λ h.
              Adds-if Q (length (states r') == 0) _ _ _ (λ _. Emits-return Q _ _)
                (λ _. Adds-restate gw status r' _ _ refl (read_now _ h))
        ])

  Adds-stamp :
      (gw status : String) (r : VpnKeyRotation) (t : Option ℕ) (m : Option (Dict String Rotation))
      (h : List Call)
      → r.current_rotation_state ≡ m
      → ReadLast r h
      → Adds Q h (stamp E gw status r t m h).1
  unfolding stamp
  Adds-stamp gw status r none m h e l = Emits-panic Q _ h
  Adds-stamp gw status r (some t) none h e l = Emits-panic Q _ h
  Adds-stamp gw status r (some t) (some current) h e l =
      Adds-ask Q _ _ _ h
        (λ res. (
          r,
          l,
          stamped gw (record { status = status; last_updated = t })
              (ap
                (λ x.
                  with_history gw (record { status = status; last_updated = t })
                    (with_state gw (record { status = status; last_updated = t }) (or_empty x) r))
                (sym e)),
        ))
        (λ res. Emits-return Q _ _)

  pub Emits-set_status_with_time_stamp :
      (gw status : String) (t : Option ℕ) (r : VpnKeyRotation)
      → Emits Q (set_status_with_time_stamp E gw status t r)
  unfolding set_status_with_time_stamp
  Emits-set_status_with_time_stamp gw status t r =
      Emits-ask Q _ _ _ (λ h. tt)
        (elim [
          | err e ↦ λ h. Emits-return Q _ _
          | ok r' ↦ λ h. Adds-stamp gw status r' t _ _ refl (read_now _ h)
        ])

  -- Only pods are listed while the states are synchronised.
  abbrev IsListing : List Call → Call → Type 0
  IsListing h c = (gw : String) × (res : Result (List Pod)) × (c ≡ listed_gw_pods gw res)

  Emits-are_gateway_pods_ready :
      (P : List Call → Call → Type 0)
      → ((h : List Call) (gw : String) (res : Result (List Pod)) → P h (listed_gw_pods gw res))
      → (gw : String) → Emits P (are_gateway_pods_ready E gw)
  unfolding are_gateway_pods_ready
  Emits-are_gateway_pods_ready P p gw =
      Emits-bind P _ _ (Emits-perform P _ _ (λ h. p h gw _))
        (elim [ err e ↦ Emits-return P _ | ok ps ↦ Emits-return P _ ])

  Emits-created :
      (P : List Call → Call → Type 0) (t : Option ℕ) (current : Dict String Rotation)
      (gws : List String) (gw : String) (s : Dict String Rotation) (x : Option ℕ)
      → ((s' : Dict String Rotation) → Emits P (sync_gateways E t current gws s'))
      → Emits P (elim x as (λ _. Action (Option (Dict String Rotation))) [
        | none ↦ panic
        | some t' ↦
            sync_gateways E t current gws
              (insert gw (record { status = complete; last_updated = t' }) s)
      ])
  Emits-created P t current gws gw s none rest = Emits-panic P _
  Emits-created P t current gws gw s (some t') rest = rest _

  Emits-sync_gateways :
      (P : List Call → Call → Type 0)
      → ((h : List Call) (gw : String) (res : Result (List Pod)) → P h (listed_gw_pods gw res))
      → (t : Option ℕ) (current : Dict String Rotation) (gws : List String)
      → (s : Dict String Rotation) → Emits P (sync_gateways E t current gws s)
  unfolding sync_gateways
  Emits-sync_gateways P p t current [] s = Emits-return P _
  Emits-sync_gateways P p t current (gw ∷ gws) s = elim (Option-cases (lookup gw current)) [
    | inr (obj, e) ↦ rw (e, sync_gateways) (Emits-sync_gateways P p t current gws (insert gw obj s))
    | inl e ↦
        rw (e, sync_gateways)
          (Emits-bind P _ _ (Emits-are_gateway_pods_ready P p gw) λ ready.
            Emits-if P ready _ _
              (λ _.
                Emits-created P t current gws gw s t (λ x. Emits-sync_gateways P p t current gws x))
              (λ _. Emits-return P _))
  ]

  ReadLast-Adds :
      (r : VpnKeyRotation) (h k : List Call) → Adds IsListing h k → ReadLast r h → ReadLast r k
  ReadLast-Adds r h _ same l = l
  ReadLast-Adds r h _ (more {k = k} c a (gw, res, e)) l =
      subst (λ x. ReadLast r (x ∷ k)) (sym e) (listed_since gw res k (ReadLast-Adds r h k a l))

  Adds-write_synced :
      (b : Bool) (r : VpnKeyRotation) (o : Option (Dict String Rotation)) (h : List Call)
      → ReadLast r h
      → IfFound E r o h
      → Adds Q h (write_synced E b r o h).1
  unfolding write_synced
  Adds-write_synced b r none h l g = Emits-return Q _ h
  Adds-write_synced b r (some s) h l g =
      Adds-if Q (is_out_of_sync E r s) _ _ h
        (λ _.
          Adds-ask Q _ _ _ h (λ res. (r, l, synced (λ gw. merged-IsSynced E r s gw g) refl))
            (λ res. Emits-return Q _ _))
        (λ _. Emits-return Q _ h)

  -- The states that are found are good ones, and only pods were listed for them.
  Holds-sync_gateways :
      (r : VpnKeyRotation) (h : List Call)
      → Holds Q
          (λ o k. IfFound E r o k × Adds IsListing h k)
          h
          (sync_gateways E r.certificate_creation_time (states r) (gateways_of E r) [] h)
  Holds-sync_gateways r h = (
    Emits-sync_gateways Q (λ _ _ _. tt) _ _ _ _ h,
    both (sync_gateways E r.certificate_creation_time (states r) (gateways_of E r) [] h)
        (Post-sync_gateways E r _ _ _ h refl (λ gw m. m) tt)
        (Emits-sync_gateways IsListing (λ _ gw res. (gw, res, refl)) _ _ _ _ h),
  )
    where
      both :
          (out : Run (Option (Dict String Rotation)) × List Call)
          → Post (IfFound E r) out
          → Adds IsListing h out.1
          → Post (λ o k. IfFound E r o k × Adds IsListing h k) out
      both (returned o, k) p a = (p, a)
      both (panicked, k) p a = tt

  pub Emits-sync_body : (s : Bool × VpnKeyRotation) → Emits Q (sync_body E s)
  unfolding sync_body
  Emits-sync_body (b, r) =
      Emits-ask Q _ _ _ (λ h. tt)
        (elim [
          | err e ↦ λ h. Emits-return Q _ _
          | ok r' ↦ λ h.
              Adds-hold Q (λ o k. IfFound E r' o k × Adds IsListing _ k) _ _ _
                (Holds-sync_gateways r' _)
                (λ o k a g.
                  Adds-write_synced b r' o k (ReadLast-Adds r' _ k g.1 (read_now _ h)) g.0)
        ])

  -- The rotation that is given back has the version of one that was read.
  abbrev pub Kept : VpnKeyRotation → List Call → Type 0
  Kept r k = Seen E r.rotation_count k

  Post-restate :
      (gw status : String) (r : VpnKeyRotation) (o : Option Rotation) (h : List Call)
      → Kept r h
      → Post (λ out k. Kept out.0 k) (restate E gw status r (states r) o h)
  unfolding restate return
  Post-restate gw status r none h s = s
  Post-restate gw status r (some old) h s =
      Post-if (λ out k. Kept out.0 k) (old.status == status) _ _ h (λ _. s)
        (λ _. Post-ask (λ out k. Kept out.0 k) _ _ _ h (λ res p. did_before _ s))

  pub Holds-set_status :
      (gw status : String) (r : VpnKeyRotation) (h : List Call)
      → Kept r h
      → Holds Q (λ out k. Kept out.0 k) h (set_status E gw status r h)
  unfolding set_status return
  Holds-set_status gw status r h s = (
    Emits-set_status gw status r h,
    Post-ask K _ _ _ h (elim [
      | err e ↦ λ p. did_before _ s
      | ok r' ↦ λ p.
          Post-if K (length (states r') == 0) _ _ _ (λ _. did_now _ (r.name, r', refl, refl))
            (λ _. Post-restate gw status r' _ _ (did_now _ (r.name, r', refl, refl)))
    ]),
  )
    where
      K : VpnKeyRotation × Result (Unit {0}) → List Call → Type 0
      K out k = Kept out.0 k

  abbrev Free : List Call → Call → Type 0
  Free h c = Unit

  Holds-write_synced :
      (b : Bool) (r : VpnKeyRotation) (o : Option (Dict String Rotation)) (h : List Call)
      → Kept r h
      → Holds Free (λ out k. Kept out.0.1 k) h (write_synced E b r o h)
  unfolding write_synced
  Holds-write_synced b r none h s = Holds-return Free _ _ h s
  Holds-write_synced b r (some m) h s =
      Holds-if Free (λ out k. Kept out.0.1 k) (is_out_of_sync E r m) _ _ h
        (λ _.
          Holds-ask Free (λ out k. Kept out.0.1 k) _ _ _ h (λ a. tt)
            (λ res. Holds-return Free (λ out k. Kept out.0.1 k) _ _ (did_before _ s)))
        (λ _. Holds-return Free (λ out k. Kept out.0.1 k) _ h s)

  Holds-sync_any :
      (b : Bool) (r : VpnKeyRotation) (h : List Call)
      → Kept r h
      → Holds Free (λ out k. Kept out.0.1 k) h (sync_body E (b, r) h)
  unfolding sync_body
  Holds-sync_any b r h s =
      Holds-ask Free (λ out k. Kept out.0.1 k) _ _ _ h (λ a. tt)
        (elim [
          | err e ↦ Holds-return Free (λ out k. Kept out.0.1 k) _ _ (did_before _ s)
          | ok r' ↦
              Holds-bind Free (λ o k. Unit) (λ out k. Kept out.0.1 k) _ _ _
                (Emits-sync_gateways Free (λ _ _ _. tt) _ _ _ _ _, Post-any Free _)
                (λ o k a u.
                  Holds-write_synced b r' o k (Did-Adds _ (did_now _ (r.name, r', refl, refl)) a))
        ])

  pub Holds-sync_body :
      (s : Bool × VpnKeyRotation) (h : List Call)
      → Kept s.1 h
      → Holds Q (λ out k. Kept out.0.1 k) h (sync_body E s h)
  Holds-sync_body s h kept = (Emits-sync_body s h, (Holds-sync_any s.0 s.1 h kept).1)
