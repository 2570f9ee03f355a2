-- ===== src/Rotation/Writes/Steps.antt =====
-- The update of the certificates and the start of the recycling, `Reconcile`'s second step.
use worker_operator.Base.{
  Holds-if, Holds-return, Holds-bind, Holds-outcome, Holds-retry_since, Post-if, Post-after,
  Post-outcome, Holds-emit, none, some, Dict, Result, did_before, Did-Adds, Holds, Holds-retry,
  Post, Post-ask, Post-any, panic, refl, ◌≡◌, ℕ, String, Bool, Option, List, [], ◌∷◌, ok, err,
  Error, lookup, RetryLib, IsRetryLib, Emits-retry_lib, Emits, Emits-return, Emits-bind,
  Emits-perform, Emits-emit, Emits-if, Emits-outcome, return, ◌==◌, ◌/=◌, ◌&&◌, not, string_eq,
  nat_eq, Option-cases, inl, inr,
}
use worker_operator.Objects.{SliceGateway}
use worker_operator.Gateways.{is_server}
use worker_operator.Rotation.Calls.{updated_rotation, Rotation, VpnKeyRotation, Call, Env}
use worker_operator.Rotation.Status.{
  stamp, set_status_with_time_stamp, update_rotation_status, update_rotation_status_with_time_stamp,
  states, secret_updated, in_progress, read_in_progress,
}
use worker_operator.Rotation.Reconcile.{
  Flow, done, go_on, start_recycling, await_client, rotate_secret, rotate_gateway, for_gateways,
  rotation_of, is_rotated,
}
use worker_operator.Rotation.Writes.Runs.{
  Q, Kept, Holds-set_status, Emits-set_status, Emits-set_status_with_time_stamp,
}
use worker_operator.Rotation.Writes.Secrets.{Adds-update_certificates, Emits-trigger_for_pods}

module _ (E : Env) (R : RetryLib Call) {again : Error → Bool} {n : ℕ}
    (law : IsRetryLib again n R) where
  abbrev pub W : List Call → Call → Type 0
  W = Q E

  Emits-update_rotation_status :
      (gw status : String) (r : VpnKeyRotation) → Emits W (update_rotation_status E R gw status r)
  unfolding update_rotation_status
  Emits-update_rotation_status gw status r =
      Emits-retry_lib W R _ r law (Emits-set_status E gw status)

  pub Emits-update_rotation_status_with_time_stamp :
      (gw status : String) (t : Option ℕ) (r : VpnKeyRotation)
      → Emits W (update_rotation_status_with_time_stamp E R gw status t r)
  unfolding update_rotation_status_with_time_stamp
  Emits-update_rotation_status_with_time_stamp gw status t r =
      Emits-retry_lib W R _ r law (Emits-set_status_with_time_stamp E gw status t)

  -- After an update without an error, the last call has written the rotation that is returned.
  abbrev pub LastWrote : VpnKeyRotation × Result (Unit {0}) → List Call → Type 0
  LastWrote (r, err e) k = Unit
  LastWrote (r, ok u) k = (j : List Call) × (k ≡ updated_rotation r (ok tt) ∷ j)

  Post-stamp :
      (gw status : String) (r : VpnKeyRotation) (t : Option ℕ) (m : Option (Dict String Rotation))
      (h : List Call)
      → Post LastWrote (stamp E gw status r t m h)
  unfolding stamp panic return
  Post-stamp gw status r none m h = tt
  Post-stamp gw status r (some t) none h = tt
  Post-stamp gw status r (some t) (some current) h =
      Post-ask LastWrote _ _ _ h (elim [ err e ↦ λ p. tt | ok u ↦ λ p. (h, refl) ])

  Post-set_status_with_time_stamp :
      (gw status : String) (t : Option ℕ) (r : VpnKeyRotation) (h : List Call)
      → Post LastWrote (set_status_with_time_stamp E gw status t r h)
  unfolding set_status_with_time_stamp return
  Post-set_status_with_time_stamp gw status t r h =
      Post-ask LastWrote _ _ _ h
        (elim [ err e ↦ λ p. tt | ok r' ↦ λ p. Post-stamp gw status r' t _ _ ])

  pub Holds-time_stamped :
      (gw status : String) (t : Option ℕ) (r : VpnKeyRotation) (h : List Call)
      → Holds W LastWrote h (update_rotation_status_with_time_stamp E R gw status t r h)
  unfolding update_rotation_status_with_time_stamp
  Holds-time_stamped gw status t r h =
      Holds-retry W (λ s. Unit) LastWrote R _ r h law
        (λ s k u. (
          Emits-set_status_with_time_stamp E gw status t s k,
          Post-set_status_with_time_stamp gw status t s k,
        ))
        (λ s e k u. tt) tt

  Emits-start_recycling :
      (gw : String) (g : SliceGateway) (r : VpnKeyRotation) → Emits W (start_recycling E R gw g r)
  unfolding start_recycling
  Emits-start_recycling gw g r = Emits-bind W _ _ (Emits-perform W _ _ (λ h. tt)) (elim [
    | err e ↦ Emits-return W _
    | ok ps ↦ Emits-bind W _ _ (Emits-trigger_for_pods E g ps) (elim [
      | err e ↦ Emits-return W _
      | ok _ ↦ Emits-bind W _ _ (Emits-emit W _ (λ h. tt)) λ _.
          Emits-outcome W _ _ (Emits-update_rotation_status_with_time_stamp _ _ _ r)
            (λ r' e. Emits-return W _)
            (λ r' _.
              Emits-outcome W _ _ (Emits-update_rotation_status_with_time_stamp _ _ _ r')
                (λ r'' e. Emits-return W _) (λ r'' _. Emits-return W _))
    ])
  ])

  Emits-await_client : (gw : String) (r : VpnKeyRotation) → Emits W (await_client E R gw r)
  unfolding await_client
  Emits-await_client gw r = Emits-bind W _ _ (Emits-perform W _ _ (λ h. tt)) (elim [
    | err e ↦ Emits-return W _
    | ok g ↦
        Emits-if W (is_server g) _ _
          (λ _. elim (Option-cases (lookup g.remote_gateway_id (states r))) [
            | inl e ↦ rw e (Emits-return W _)
            | inr (c, e) ↦ rw e (
                Emits-if W (c.status == secret_updated) _ _ (λ _. Emits-start_recycling gw g r)
                  (λ _. Emits-return W _))
          ])
          (λ _. Emits-return W _)
  ])

  -- A step that goes on does so with a rotation whose version was read.
  abbrev pub OnGo : Flow → List Call → Type 0
  OnGo (done q e) k = Unit
  OnGo (go_on r) k = Kept E r k

  Holds-update_rotation_status :
      (gw status : String) (r : VpnKeyRotation) (h : List Call)
      → Kept E r h
      → Holds W (λ out k. Kept E out.0 k) h (update_rotation_status E R gw status r h)
  unfolding update_rotation_status
  Holds-update_rotation_status gw status r h s =
      Holds-retry_since W (Kept E) R _ r h law (Holds-set_status E gw status) s

  Post-start_recycling :
      (gw : String) (g : SliceGateway) (r : VpnKeyRotation) (h : List Call)
      → Post OnGo (start_recycling E R gw g r h)
  unfolding start_recycling return
  Post-start_recycling gw g r h = Post-ask OnGo _ _ _ h (elim [
    | err e ↦ λ p. tt
    | ok ps ↦ λ p. Post-after OnGo _ _ _ (elim [
      | err e ↦ λ k. tt
      | ok _ ↦ λ k. Post-after OnGo _ _ k λ u l.
          Post-outcome OnGo _ _ l (λ r' e i. tt)
            (λ r' _ i. Post-outcome OnGo _ _ i (λ r'' e j. tt) (λ r'' _ j. tt))
    ])
  ])

  Holds-await_client :
      (gw : String) (r : VpnKeyRotation) (h : List Call)
      → Kept E r h
      → Holds W OnGo h (await_client E R gw r h)
  unfolding await_client return
  Holds-await_client gw r h s = (
    Emits-await_client gw r h,
    Post-ask OnGo _ _ _ h (elim [
      | err e ↦ λ p. tt
      | ok g ↦ λ p.
          Post-if OnGo (is_server g) _ _ _
            (λ _. elim (Option-cases (lookup g.remote_gateway_id (states r))) [
              | inl e ↦ rw e tt
              | inr (c, e) ↦ rw e (
                  Post-if OnGo (c.status == secret_updated) _ _ _
                    (λ _. Post-start_recycling gw g r _) (λ _. tt))
            ])
            (λ _. did_before _ s)
    ]),
  )

  Holds-rotate_secret :
      (gw : String) (s : Rotation) (r : VpnKeyRotation) (h : List Call)
      → Kept E r h
      → Holds W OnGo h (rotate_secret E R gw s r h)
  unfolding rotate_secret
  Holds-rotate_secret gw s r h kept =
      Holds-bind W (λ c k. Unit) OnGo _ _ h (Adds-update_certificates E _ gw h kept, Post-any W _)
        λ c k a _.
          Holds-if W OnGo c.1 _ _ k (λ _. Holds-return W OnGo _ k tt)
            λ _. elim (Option-cases c.2) [
              | inr (x, e) ↦ rw e (Holds-return W OnGo _ k tt)
              | inl e ↦ rw e (
                  Holds-bind W (λ u l. Unit) OnGo _ _ k (Emits-emit W _ (λ h. tt) k, Post-any W _)
                    λ u l b _.
                      let kept' = Did-Adds _ (Did-Adds _ kept a) b in
                      Holds-if W OnGo ((s.status /= in_progress) && (s.status /= secret_updated)) _
                        _ l
                        (λ _.
                          Holds-outcome W (λ out i. Kept E out.0 i) OnGo _ _ l
                            (Holds-update_rotation_status _ _ r l kept')
                            (λ r' e i z. Holds-return W OnGo _ i tt)
                            (λ r' _ i z. Holds-await_client gw r' i z))
                        (λ _. Holds-await_client gw r l kept'))
            ]

  Holds-rotate_gateway :
      (gw : String) (r : VpnKeyRotation) (h : List Call)
      → Kept E r h
      → Holds W OnGo h (rotate_gateway E R gw r h)
  unfolding rotate_gateway
  Holds-rotate_gateway gw r h kept =
      let s = rotation_of gw r in
      Holds-if W OnGo (not (is_rotated r s) && (s.status /= in_progress)) _ _ h
        (λ _. Holds-emit W OnGo _ _ h tt (
          Holds-if W OnGo ((s.status /= secret_updated) && (s.status /= read_in_progress)) _ _ _
            (λ _.
              Holds-outcome W (λ out i. Unit) OnGo _ _ _
                (Emits-update_rotation_status _ _ r _, Post-any W _)
                (λ r' e i z. Holds-return W OnGo _ i tt) (λ r' _ i z. Holds-return W OnGo _ i tt))
            (λ _. Holds-rotate_secret gw s r _ (did_before _ kept))))
        (λ _. Holds-return W OnGo _ h kept)

  pub Holds-for_gateways :
      (gws : List String) (r : VpnKeyRotation) (h : List Call)
      → Kept E r h
      → Holds W OnGo h (for_gateways (rotate_gateway E R) gws r h)
  unfolding for_gateways
  Holds-for_gateways [] r h kept = Holds-return W OnGo _ h kept
  Holds-for_gateways (gw ∷ gws) r h kept =
      Holds-bind W OnGo OnGo _ _ h (Holds-rotate_gateway gw r h kept) (elim [
        | done q e ↦ λ k a z. Holds-return W OnGo _ k tt
        | go_on r' ↦ λ k a z. Holds-for_gateways gws r' k z
      ])
