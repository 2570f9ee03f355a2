-- ===== src/Rotation/Status.antt =====
-- The rotation status: `arrayDifference`, `updateRotationStatus`,
-- `updateRotationStatusWithTimeStamp` and `syncCurrentRotationState`. A retried body assigns the
-- rotation object that the caller holds, so it takes the object and gives it back; a failed read
-- leaves it as it was.
use worker_operator.Base.{
  ℕ, String, Bool, true, false, not, ◌&&◌, ◌||◌, Option, none, some, List, [], ◌∷◌, Result, ok, err,
  other, ◌==◌, ◌/=◌, string_eq, nat_eq, leb, contains, if◌then◌else◌, Dict, lookup, insert, erase,
  or_empty, get_or, length, take, RetryLib, return, panic, ◌>>=◌, infix_of, suffix_of,
}
use worker_operator.Rotation.Calls.{
  Rotation, VpnKeyRotation, Call, Env, Action, get_rotation, update_rotation, list_gw_pods,
}

abbrev pub read_in_progress : String
read_in_progress = "READ_IN_PROGRESS"

abbrev pub secret_updated : String
secret_updated = "SECRET_UPDATED"

abbrev pub in_progress : String
in_progress = "IN_PROGRESS"

abbrev pub complete : String
complete = "COMPLETE"

abbrev pub error : String
error = "ERROR"

-- Keeps the order of `arr2`.
unfoldable pub array_difference : List String → List String → List String
array_difference arr1 [] = []
array_difference arr1 (elem ∷ arr2) =
    let rest = array_difference arr1 arr2 in if contains arr1 elem then rest else elem ∷ rest

abbrev pub states : VpnKeyRotation → Dict String Rotation
states r = or_empty r.current_rotation_state

abbrev pub with_state : String → Rotation → Dict String Rotation → VpnKeyRotation → VpnKeyRotation
with_state gw s current r = record r { current_rotation_state = some (insert gw s current) }

-- `history` with the rotation in front and at most five entries.
unfoldable pub prepend_history : Rotation → List Rotation → List Rotation
prepend_history rotation history =
    let longer = rotation ∷ history in if leb 5 (length longer) then take 5 longer else longer

unfoldable pub with_history : String → Rotation → VpnKeyRotation → VpnKeyRotation
unfolding prepend_history
with_history gw rotation r =
    if (rotation.status == complete) || (rotation.status == error)
    then record r {
      status_history = some (
          insert gw (prepend_history rotation (get_or [] (lookup gw (or_empty r.status_history))))
            (or_empty r.status_history));
    }
    else r

module _ (E : Env) where
  -- What the retried body does with the state `s` of the gateway in the map `m`.
  unfoldable pub restate :
      String
      → String
      → VpnKeyRotation
      → Dict String Rotation
      → Option Rotation
      → Action (VpnKeyRotation × Result (Unit {0}))
  restate gw status r m none = return (r, ok tt)
  restate gw status r m (some s) = if s.status == status then return (r, ok tt) else do
    let r' = with_state gw (record s { status = status }) m r
    done ← update_rotation E r'
    return (r', done)

  unfoldable pub set_status :
      String → String → VpnKeyRotation → Action (VpnKeyRotation × Result (Unit {0}))
  set_status gw status r = do
    got ← get_rotation E r.name
    elim got [
      | err e ↦ return (r, err e)
      | ok r' ↦
          if length (states r') == 0
          then return (r', err other)
          else restate gw status r' (states r') (lookup gw (states r'))
    ]

  -- Following a nil timestamp and writing to a nil map panic.
  unfoldable pub stamp :
      String
      → String
      → VpnKeyRotation
      → Option ℕ
      → Option (Dict String Rotation)
      → Action (VpnKeyRotation × Result (Unit {0}))
  stamp gw status r none m = panic
  stamp gw status r (some t) none = panic
  stamp gw status r (some t) (some current) = do
    let rotation : Rotation = record { status = status; last_updated = t }
    let r' = with_history gw rotation (with_state gw rotation current r)
    done ← update_rotation E r'
    return (r', done)

  unfoldable pub set_status_with_time_stamp :
      String → String → Option ℕ → VpnKeyRotation → Action (VpnKeyRotation × Result (Unit {0}))
  set_status_with_time_stamp gw status timestamp r = do
    got ← get_rotation E r.name
    elim got [
      | err e ↦ return (r, err e)
      | ok r' ↦ stamp gw status r' timestamp r'.current_rotation_state
    ]

  unfoldable pub are_gateway_pods_ready : String → Action Bool
  are_gateway_pods_ready gw = do
    pods ← list_gw_pods E gw
    elim pods [ err e ↦ return false | ok ps ↦ return (length ps == 2) ]

  -- The gateways of the status that are named after this cluster.
  unfoldable pub keys_in_status : Dict String Rotation → List String
  keys_in_status [] = []
  keys_in_status ((key, s) ∷ entries) =
      let rest = keys_in_status entries in
      if infix_of E.cluster_name key && not (suffix_of E.cluster_name key) then key ∷ rest else rest

  -- The loop over the gateways; `none` where the pods of a new one are not ready.
  unfoldable pub sync_gateways :
      Option ℕ
      → Dict String Rotation
      → List String
      → Dict String Rotation
      → Action (Option (Dict String Rotation))
  sync_gateways created current [] synced = return (some synced)
  sync_gateways created current (gw ∷ gws) synced = elim (lookup gw current) [
    | some obj ↦ sync_gateways created current gws (insert gw obj synced)
    | none ↦ do
      ready ← are_gateway_pods_ready gw
      if ready
          then elim created [
            | none ↦ panic
            | some t ↦
                sync_gateways created current gws
                  (insert gw (record { status = complete; last_updated = t }) synced)
          ]
          else return none
  ]

-- The loop that adds what the state has beyond the gateways.
unfoldable pub add_remaining : Dict String Rotation → Dict String Rotation → Dict String Rotation
add_remaining [] synced = synced
add_remaining ((gw, obj) ∷ current) synced = elim (lookup gw synced) [
  | some s ↦ add_remaining current synced
  | none ↦ add_remaining current (insert gw obj synced)
]

unfoldable pub merge : Dict String Rotation → Dict String Rotation → Dict String Rotation
merge [] current = current
merge ((gw, obj) ∷ synced) current = merge synced (insert gw obj current)

unfoldable pub erase_all : List String → Dict String Rotation → Dict String Rotation
erase_all [] current = current
erase_all (key ∷ keys) current = erase_all keys (erase key current)

module _ (E : Env) where
  abbrev pub gateways_of : VpnKeyRotation → List String
  gateways_of r = get_or [] (lookup E.cluster_name r.cluster_gateway_mapping)

  -- `keysToDeleteFromStatus`
  abbrev pub detached : VpnKeyRotation → List String
  detached r = array_difference (gateways_of r) (keys_in_status E (states r))

  -- The rotation `r` with the synchronised states `s` merged in, and the test for its update.
  abbrev pub merged : VpnKeyRotation → Dict String Rotation → VpnKeyRotation
  merged r s = record r {
    current_rotation_state =
        some (erase_all (detached r) (merge (add_remaining (states r) s) (states r)));
  }

  abbrev pub is_out_of_sync : VpnKeyRotation → Dict String Rotation → Bool
  is_out_of_sync r s =
      (length (add_remaining (states r) s) /= length (states r)) || not (length (detached r) == 0)

  unfoldable pub write_synced :
      Bool
      → VpnKeyRotation
      → Option (Dict String Rotation)
      → Action ((Bool × VpnKeyRotation) × Result (Unit {0}))
  write_synced requeue r none = return ((true, r), err other)
  write_synced requeue r (some s) =
      if is_out_of_sync r s
      then (do done ← update_rotation E (merged r s); return ((true, merged r s), done))
      else return ((requeue, r), ok tt)

  -- The retried body of `syncCurrentRotationState`, which assigns `requeue` and the object.
  unfoldable pub sync_body :
      Bool × VpnKeyRotation → Action ((Bool × VpnKeyRotation) × Result (Unit {0}))
  sync_body (requeue, r) = do
    got ← get_rotation E r.name
    elim got [
      | err e ↦ return ((requeue, r), err e)
      | ok r' ↦ do
        synced ← sync_gateways E r'.certificate_creation_time (states r') (gateways_of r') []
        write_synced requeue r' synced
    ]

module _ (E : Env) (R : RetryLib Call) where
  unfoldable pub update_rotation_status :
      String → String → VpnKeyRotation → Action (VpnKeyRotation × Result (Unit {0}))
  update_rotation_status gw status r = R.retry (set_status E gw status) r

  unfoldable pub update_rotation_status_with_time_stamp :
      String → String → Option ℕ → VpnKeyRotation → Action (VpnKeyRotation × Result (Unit {0}))
  update_rotation_status_with_time_stamp gw status timestamp r =
      R.retry (set_status_with_time_stamp E gw status timestamp) r

  unfoldable pub sync_current_rotation_state :
      VpnKeyRotation → Action ((Bool × VpnKeyRotation) × Result (Unit {0}))
  sync_current_rotation_state r = R.retry (sync_body E) (false, r)
