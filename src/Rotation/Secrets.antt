-- ===== src/Rotation/Secrets.antt =====
-- `updateCertificates`, `removeOldSecrets`, and the triggering of the recycler: `TriggerFSM` of
-- pkg/slicegwrecycler and `CreateWorkerSliceGwRecycler` of the hub client.
use worker_operator.Base.{
  ℕ, ◌-◌, String, ◌<>◌, Bool, true, false, Option, none, some, List, [], ◌∷◌, Result, ok, err,
  Error, is_not_found, is_already_exists, Requeue, no_requeue, requeue_after, ◌==◌, nat_eq,
  if◌then◌else◌, return, ◌>>=◌, ◌>>◌,
}
use worker_operator.Objects.{SliceGateway, Pod}
use worker_operator.Gateways.{get_peer_gw_pod_name, get_dep_name_from_pod_name}
use worker_operator.Recycler.Handshake.Order.{new_recycler}
use worker_operator.Rotation.Calls.{
  Env, Action, get_secret, get_hub_secret, create_secret, delete_secret, get_slice, get_recycler,
  create_recycler, record_event,
}

module _ (E : Env) where
  abbrev pub secret_name : ℕ → String → String
  secret_name version gw = gw <> ("-" <> E.itoa version)

  -- The name at the version before, where version 0 has the number -1 before it.
  abbrev pub old_secret_name : ℕ → String → String
  old_secret_name version gw = if version == 0 then gw <> "--1" else secret_name (version - 1) gw

  -- The Boolean asks for a requeue.
  unfoldable pub update_certificates : ℕ → String → Action (Requeue × Bool × Option Error)
  update_certificates version gw = do
    present ← get_secret E (secret_name version gw)
    elim present [
      | ok s ↦ return (no_requeue, false, none)
      | err e ↦
          if is_not_found e
          then (do
            certs ← get_hub_secret E gw
            elim certs [
              | err e' ↦ return (requeue_after 10, true, none)
              | ok c ↦ do
                created ←
                    create_secret E (record {
                      name = secret_name version gw;
                      slice_gw = gw;
                      data_map = c.data_map;
                    })
                elim created [
                  | err e' ↦ return (no_requeue, false, some e')
                  | ok _ ↦ return (no_requeue, false, none)
                ]
            ])
          else return (no_requeue, false, some e)
    ]

  unfoldable pub remove_old_secrets : ℕ → String → Action (Result (Unit {0}))
  remove_old_secrets version gw = do
    deleted ← delete_secret E (old_secret_name version gw)
    elim deleted [
      | err e ↦ return (if is_not_found e then ok tt else err e)
      | ok _ ↦ return (ok tt)
    ]

  -- An error of the first read is taken for absence.
  unfoldable pub create_worker_slice_gw_recycler :
      String → String → String → String → String → Action (Result (Unit {0}))
  create_worker_slice_gw_recycler name client_id server_id gw_server gw_client = do
    got ← get_recycler E name
    elim got [
      | ok r ↦ return (ok tt)
      | err e ↦ create_recycler E (new_recycler name client_id server_id gw_server gw_client)
    ]

  unfoldable pub trigger_fsm : SliceGateway → String → String → Action (Result (Unit {0}))
  trigger_fsm gw server_id client_id = do
    created ←
        create_worker_slice_gw_recycler server_id client_id server_id gw.name gw.remote_gateway_id
    elim created [
      | err e ↦ return (if is_already_exists e then ok tt else err e)
      | ok _ ↦ record_event "SliceGWRebalancingSuccess" >> return (ok tt)
    ]

  -- The loop over the pods of the server's gateway.
  unfoldable pub trigger_for_pods : SliceGateway → List Pod → Action (Result (Unit {0}))
  trigger_for_pods gw [] = return (ok tt)
  trigger_for_pods gw (v ∷ pods) = do
    slice ← get_slice E gw.slice_name
    elim slice [
      | err e ↦ return (err e)
      | ok _ ↦ elim (get_peer_gw_pod_name E.tunnel_up v.name gw) [
        | err e ↦ return (err e)
        | ok peer ↦ do
          triggered ←
              trigger_fsm gw (get_dep_name_from_pod_name gw.gateway_id v.name)
                (get_dep_name_from_pod_name gw.remote_gateway_id peer)
          elim triggered [ err e ↦ return (err e) | ok _ ↦ trigger_for_pods gw pods ]
      ]
    ]
