-- ===== src/Rotation/Writes/Secrets.antt =====
-- The secrets, and the recyclers that a run starts.
use worker_operator.Base.{
  did_before, ℕ, ◌-◌, ◌==◌, ◌≡◌, false, arith, zero, suc, inl, inr, Adds, Adds-if, ok, String, List,
  [], ◌∷◌, Result, err, is_not_found, refl, Emits, Emits-return, Emits-bind, Emits-then,
  Emits-perform, Emits-emit, Emits-ask, Adds-ask, Adds-perform, return, string_eq, nat_eq, ◌>>=◌,
}
use worker_operator.Objects.{SliceGateway, Pod}
use worker_operator.Gateways.{get_dep_name_from_pod_name}
use worker_operator.Recycler.Handshake.Order.{new_recycler}
use worker_operator.Rotation.Calls.{VpnKeyRotation, updated_rotation, Call, Env, Action}
use worker_operator.Rotation.Secrets.{
  old_secret_name, update_certificates, remove_old_secrets, create_worker_slice_gw_recycler,
  trigger_fsm, trigger_for_pods,
}
use worker_operator.Rotation.Writes.{IsPrevious, IsRecycled, Seen}
use worker_operator.Rotation.Writes.Runs.{Q}

module _ (E : Env) where
  abbrev W : List Call → Call → Type 0
  W = Q E

  pub Adds-update_certificates :
      (n : ℕ) (gw : String) (h : List Call) → Seen E n h → Adds W h (update_certificates E n gw h).1
  unfolding update_certificates
  Adds-update_certificates n gw h seen =
      Adds-ask W _ _ _ h (λ res. tt)
        (elim [
          | ok s ↦ Emits-return W _ _
          | err e ↦
              Adds-if W (is_not_found e) _ _ _
                (λ absent.
                  Adds-ask W _ _ _ _ (λ res. tt)
                    (elim [
                      | err e' ↦ Emits-return W _ _
                      | ok c ↦
                          Adds-ask W _ _ _ _
                            (λ res. (
                              c,
                              e,
                              n,
                              h,
                              refl,
                              absent,
                              refl,
                              did_before _ (did_before _ seen),
                              refl,
                            ))
                            (elim [ err e' ↦ Emits-return W _ _ | ok _ ↦ Emits-return W _ _ ])
                    ]))
                (λ _. Emits-return W _ _)
        ])

  old_secret_name-IsPrevious : (n : ℕ) (gw : String) → IsPrevious E n gw (old_secret_name E n gw)
  unfolding nat_eq
  old_secret_name-IsPrevious zero gw = inr (refl, refl)
  old_secret_name-IsPrevious (suc v) gw =
      let positive : (suc v == 0) ≡ false = ground arith in
      let before : suc v - 1 ≡ v = omega arith in inl (v, refl, rw (positive, before) refl)

  pub Adds-remove_old_secrets :
      (r : VpnKeyRotation) (gw : String) (h k : List Call)
      → h ≡ updated_rotation r (ok tt) ∷ k
      → IsRecycled E gw h
      → Adds W h (remove_old_secrets E r.rotation_count gw h).1
  unfolding remove_old_secrets
  Adds-remove_old_secrets r gw h k e d =
      Adds-ask W _ _ _ h (λ res. (r, gw, k, e, old_secret_name-IsPrevious r.rotation_count gw, d))
        (elim [ err e ↦ Emits-return W _ _ | ok _ ↦ Emits-return W _ _ ])

  Emits-create_worker_slice_gw_recycler :
      (c s gs gc : String) → Emits W (create_worker_slice_gw_recycler E s c s gs gc)
  unfolding create_worker_slice_gw_recycler new_recycler
  Emits-create_worker_slice_gw_recycler c s gs gc =
      Emits-ask W _ _ _ (λ h. tt)
        (elim [
          | ok r ↦ λ h. Emits-return W _ _
          | err e ↦ λ h. Adds-perform W _ _ _ (λ res. (e, h, c, gs, gc, refl, refl))
        ])

  Emits-trigger_fsm : (gw : SliceGateway) (s c : String) → Emits W (trigger_fsm E gw s c)
  unfolding trigger_fsm
  Emits-trigger_fsm gw s c =
      Emits-bind W _ _ (Emits-create_worker_slice_gw_recycler c s _ _) (elim [
        | err e ↦ Emits-return W _
        | ok _ ↦ Emits-then W _ _ (Emits-emit W _ (λ h. tt)) (Emits-return W _)
      ])

  Emits-peer :
      (gw : SliceGateway) (v : Pod) (pods : List Pod) (x : Result String)
      → Emits W (trigger_for_pods E gw pods)
      → Emits W (elim x as (λ _. Action (Result (Unit {0}))) [
        | err e ↦ return (err e)
        | ok peer ↦ do
          triggered ←
              trigger_fsm E gw
                (get_dep_name_from_pod_name gw.gateway_id v.name)
                (get_dep_name_from_pod_name gw.remote_gateway_id peer)
          elim triggered [ err e ↦ return (err e) | ok _ ↦ trigger_for_pods E gw pods ]
      ])
  Emits-peer gw v pods (err e) rest = Emits-return W _
  Emits-peer gw v pods (ok peer) rest =
      Emits-bind W _ _ (Emits-trigger_fsm gw _ _) (elim [ err e ↦ Emits-return W _ | ok _ ↦ rest ])

  pub Emits-trigger_for_pods :
      (gw : SliceGateway) (pods : List Pod) → Emits W (trigger_for_pods E gw pods)
  unfolding trigger_for_pods
  Emits-trigger_for_pods gw [] = Emits-return W _
  Emits-trigger_for_pods gw (v ∷ pods) = Emits-bind W _ _ (Emits-perform W _ _ (λ h. tt)) (elim [
    | err e ↦ Emits-return W _
    | ok _ ↦ Emits-peer gw v pods _ (Emits-trigger_for_pods gw pods)
  ])
