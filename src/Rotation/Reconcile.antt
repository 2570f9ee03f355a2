-- ===== src/Rotation/Reconcile.antt =====
-- `Reconcile` of the key rotation, by its three steps.
use worker_operator.Base.{
  String, Bool, true, false, not, ◌&&◌, Option, none, some, List, [], ◌∷◌, ok, err, Error,
  is_not_found, Requeue, no_requeue, requeue_now, requeue_after, ◌==◌, ◌/=◌, string_eq, nat_eq,
  if◌then◌else◌, lookup, get_or, RetryLib, return, panic, ◌>>=◌, ◌>>◌,
}
use worker_operator.Objects.{SliceGateway, GwRecycler}
use worker_operator.Gateways.{is_server}
use worker_operator.Rotation.Calls.{
  Rotation, VpnKeyRotation, Call, Env, Action, get_rotation, get_slicegw, list_gw_pods,
  list_recyclers, is_today, record_event,
}
use worker_operator.Rotation.Status.{
  read_in_progress, secret_updated, in_progress, complete, error, states, update_rotation_status,
  update_rotation_status_with_time_stamp, sync_current_rotation_state,
}
use worker_operator.Rotation.Secrets.{update_certificates, remove_old_secrets, trigger_for_pods}

abbrev pub Outcome : Type 0
Outcome = Requeue × Option Error

-- A loop's body returns, or goes on with the next gateway and the object as it is then.
pub data Flow : Type 0 where
  done : Requeue → Option Error → Flow
  go_on : VpnKeyRotation → Flow

-- A Go map gives the zero value for a missing key.
abbrev pub rotation_of : String → VpnKeyRotation → Rotation
rotation_of gw r = get_or (record { status = ""; last_updated = 0 }) (lookup gw (states r))

-- `CertificateCreationTime.Equal`
abbrev pub is_rotated : VpnKeyRotation → Rotation → Bool
is_rotated r s = elim r.certificate_creation_time [ none ↦ false | some t ↦ t == s.last_updated ]

module _ (E : Env) (R : RetryLib Call) where
  -- The server's gateway, when the client's is in the state `secret_updated`.
  unfoldable pub start_recycling : String → SliceGateway → VpnKeyRotation → Action Flow
  start_recycling gw_name gw r = do
    pods ← list_gw_pods E gw.name
    elim pods [
      | err e ↦ return (done no_requeue (some e))
      | ok ps ↦ do
        triggered ← trigger_for_pods E gw ps
        elim triggered [
          | err e ↦ return (done no_requeue (some e))
          | ok _ ↦ do
            _ ← record_event "TriggeredFSMToRecycleGateways"
            client ←
                update_rotation_status_with_time_stamp E R gw.remote_gateway_id in_progress
                  r.certificate_creation_time r
            elim client.1 [
              | err e ↦ return (done no_requeue (some e))
              | ok _ ↦ do
                server ←
                    update_rotation_status_with_time_stamp E R gw_name in_progress
                      client.0.certificate_creation_time client.0
                elim server.1 [
                  | err e ↦ return (done no_requeue (some e))
                  | ok _ ↦ return (done requeue_now none)
                ]
            ]
        ]
    ]

  -- What follows the update of the secrets.
  unfoldable pub await_client : String → VpnKeyRotation → Action Flow
  await_client gw_name r = do
    gw ← get_slicegw E gw_name
    elim gw [
      | err e ↦ return (done no_requeue (some e))
      | ok g ↦
          if is_server g
          then elim (lookup g.remote_gateway_id (states r)) [
            | none ↦ return (done (requeue_after 5) none)
            | some client ↦
                if client.status == secret_updated
                then start_recycling gw_name g r
                else return (done requeue_now none)
          ]
          else return (go_on r)
    ]

  unfoldable pub rotate_secret : String → Rotation → VpnKeyRotation → Action Flow
  rotate_secret gw_name s r = do
    certificates ← update_certificates E r.rotation_count gw_name
    if certificates.1 then return (done certificates.0 none) else elim certificates.2 [
      | some e ↦ return (done certificates.0 (some e))
      | none ↦ do
        _ ← record_event "GatewayCertificateUpdated"
        if (s.status /= in_progress) && (s.status /= secret_updated)
            then (do
              updated ← update_rotation_status E R gw_name secret_updated r
              elim updated.1 [
                | err e ↦ return (done no_requeue (some e))
                | ok _ ↦ await_client gw_name updated.0
              ])
            else await_client gw_name r
    ]

  unfoldable pub rotate_gateway : String → VpnKeyRotation → Action Flow
  rotate_gateway gw_name r =
      let s = rotation_of gw_name r in
      if not (is_rotated r s) && (s.status /= in_progress)
      then record_event "GatewayCertificateRecyclingTriggered"
        >> (if (s.status /= secret_updated) && (s.status /= read_in_progress)
            then (do
              updated ← update_rotation_status E R gw_name read_in_progress r
              elim updated.1 [
                | err e ↦ return (done no_requeue (some e))
                | ok _ ↦ return (done requeue_now none)
              ])
            else rotate_secret gw_name s r)
      else return (go_on r)

  -- The gateway's recyclers: the first one decides.
  unfoldable pub finish_recycling :
      String → SliceGateway → List GwRecycler → VpnKeyRotation → Action Flow
  finish_recycling gw_name gw (v ∷ vs) r =
      if if v.state == "error" then true else v.response == "error"
      then record_event "GatewayRecyclingFailed" >> (do
        client ←
            update_rotation_status_with_time_stamp E R gw.remote_gateway_id error
              r.certificate_creation_time r
        elim client.1 [
          | err e ↦ return (done no_requeue none)
          | ok _ ↦ do
            server ←
                update_rotation_status_with_time_stamp E R gw_name error r.certificate_creation_time
                  client.0
            elim server.1 [
              | err e ↦ return (done no_requeue (some e))
              | ok _ ↦ return (done no_requeue none)
            ]
        ])
      else return (done (requeue_after 120) none)
  finish_recycling gw_name gw [] r = do
    _ ← record_event "GatewayRecyclingSuccessful"
    server ←
        update_rotation_status_with_time_stamp E R gw_name complete r.certificate_creation_time r
    elim server.1 [
      | err e ↦ return (done no_requeue none)
      | ok _ ↦ do
        client ←
            update_rotation_status_with_time_stamp E R gw.remote_gateway_id complete
              r.certificate_creation_time server.0
        elim client.1 [
          | err e ↦ return (done no_requeue none)
          | ok _ ↦ do
            removed ← remove_old_secrets E client.0.rotation_count gw_name
            elim removed [
              | err e ↦ return (done no_requeue (some e))
              | ok _ ↦ return (go_on client.0)
            ]
        ]
    ]

  unfoldable pub check_gateway : String → VpnKeyRotation → Action Flow
  check_gateway gw_name r =
      if (rotation_of gw_name r).status == in_progress
      then (do
        gw ← get_slicegw E gw_name
        elim gw [
          | err e ↦ return (done no_requeue (if is_not_found e then none else some e))
          | ok g ↦
              if is_server g
              then (do
                recyclers ← list_recyclers E gw_name
                elim recyclers [
                  | err e ↦ return (done no_requeue (some e))
                  | ok rs ↦ finish_recycling gw_name g rs r
                ])
              else return (go_on r)
        ])
      else return (go_on r)

-- The loop over the gateways, for steps 2 and 3.
unfoldable pub for_gateways :
    (String → VpnKeyRotation → Action Flow) → List String → VpnKeyRotation → Action Flow
for_gateways body [] r = return (go_on r)
for_gateways body (gw ∷ gws) r = do
  flow ← body gw r
  elim flow [ done result e ↦ return (done result e) | go_on r' ↦ for_gateways body gws r' ]

abbrev pub outcome_of : Flow → Outcome
outcome_of (done result e) = (result, e)
outcome_of (go_on r) = (no_requeue, none)

module _ (E : Env) (R : RetryLib Call) where
  -- Step 3, on the day of the certificates' creation only. Reading a nil time panics.
  unfoldable pub check_gateways : List String → VpnKeyRotation → Action Outcome
  check_gateways gws r = elim r.certificate_creation_time [
    | none ↦ panic
    | some t ↦ do
      today ← is_today E t
      if today
          then (do flow ← for_gateways (check_gateway E R) gws r; return (outcome_of flow))
          else return (no_requeue, none)
  ]

  unfoldable pub reconcile : String → Action Outcome
  reconcile name = do
    got ← get_rotation E name
    elim got [
      | err e ↦ return (no_requeue, if is_not_found e then none else some e)
      | ok r ↦ elim r.certificate_creation_time [
        | none ↦ return (requeue_after 1, none)
        | some t ↦ do
          let gws = get_or [] (lookup E.cluster_name r.cluster_gateway_mapping)
          synced ← sync_current_rotation_state E R r
          if synced.0.0 then return (requeue_now, none) else elim synced.1 [
            | err e ↦ return (no_requeue, some e)
            | ok _ ↦ do
              flow ← for_gateways (rotate_gateway E R) gws synced.0.1
              elim flow [ done result e ↦ return (result, e) | go_on r' ↦ check_gateways gws r' ]
          ]
      ]
    ]
