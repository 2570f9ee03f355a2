-- ===== src/Rotation/Calls.antt =====
-- What the key rotation keeps, and what its controller asks of the outside: the hub's API server
-- (rotations, secrets, recyclers), the worker's API server (secrets, slice gateways, slices, pods),
-- the clock and the event recorder.
use worker_operator.Base.{ℕ, String, Bool, Option, List, Result, Dict, M, perform, emit}
use worker_operator.Objects.{SliceGateway, GwRecycler, Pod}

-- `StatusOfKeyRotation`. Times are in seconds from the zero time.
pub record Rotation : Type 0 where
  pub status : String
  pub last_updated : ℕ

-- The fields of `VpnKeyRotation` that the controller uses; maps and times may be nil.
pub record VpnKeyRotation : Type 0 where
  pub name : String
  pub cluster_gateway_mapping : Dict String (List String)
  pub certificate_creation_time : Option ℕ
  pub rotation_count : ℕ
  pub current_rotation_state : Option (Dict String Rotation)
  pub status_history : Option (Dict String (List Rotation))

pub record Secret : Type 0 where
  pub name : String
  pub slice_gw : String
  pub data_map : Dict String String

pub data Call : Type 0 where
  got_rotation : String → Result VpnKeyRotation → Call
  updated_rotation : VpnKeyRotation → Result (Unit {0}) → Call
  got_secret : String → Result Secret → Call
  got_hub_secret : String → Result Secret → Call
  created_secret : Secret → Result (Unit {0}) → Call
  deleted_secret : String → Result (Unit {0}) → Call
  got_slicegw : String → Result SliceGateway → Call
  got_slice : String → Result (Unit {0}) → Call
  -- the pods of a slice gateway
  listed_gw_pods : String → Result (List Pod) → Call
  got_recycler : String → Result GwRecycler → Call
  created_recycler : GwRecycler → Result (Unit {0}) → Call
  listed_recyclers : String → Result (List GwRecycler) → Call
  -- whether the given time is on the current day
  read_clock : ℕ → Bool → Call
  recorded_event : String → Call

pub record Env : Type 0 where
  -- the environment variable CLUSTER_NAME
  pub cluster_name : String
  -- `strconv.Itoa`
  pub itoa : ℕ → String
  -- the number of `GW_TUNNEL_STATE_UP`
  pub tunnel_up : ℕ
  pub get_rotation : List Call → String → Result VpnKeyRotation
  pub update_rotation : List Call → VpnKeyRotation → Result (Unit {0})
  pub get_secret : List Call → String → Result Secret
  pub get_hub_secret : List Call → String → Result Secret
  pub create_secret : List Call → Secret → Result (Unit {0})
  pub delete_secret : List Call → String → Result (Unit {0})
  pub get_slicegw : List Call → String → Result SliceGateway
  pub get_slice : List Call → String → Result (Unit {0})
  pub list_gw_pods : List Call → String → Result (List Pod)
  pub get_recycler : List Call → String → Result GwRecycler
  pub create_recycler : List Call → GwRecycler → Result (Unit {0})
  pub list_recyclers : List Call → String → Result (List GwRecycler)
  pub is_today : List Call → ℕ → Bool

abbrev pub Action : Type 0 → Type 0
Action = M Call

module _ (E : Env) where
  abbrev pub get_rotation : String → Action (Result VpnKeyRotation)
  get_rotation n = perform (λ h. E.get_rotation h n) (got_rotation n)

  abbrev pub update_rotation : VpnKeyRotation → Action (Result (Unit {0}))
  update_rotation r = perform (λ h. E.update_rotation h r) (updated_rotation r)

  abbrev pub get_secret : String → Action (Result Secret)
  get_secret n = perform (λ h. E.get_secret h n) (got_secret n)

  abbrev pub get_hub_secret : String → Action (Result Secret)
  get_hub_secret n = perform (λ h. E.get_hub_secret h n) (got_hub_secret n)

  abbrev pub create_secret : Secret → Action (Result (Unit {0}))
  create_secret s = perform (λ h. E.create_secret h s) (created_secret s)

  abbrev pub delete_secret : String → Action (Result (Unit {0}))
  delete_secret n = perform (λ h. E.delete_secret h n) (deleted_secret n)

  abbrev pub get_slicegw : String → Action (Result SliceGateway)
  get_slicegw n = perform (λ h. E.get_slicegw h n) (got_slicegw n)

  abbrev pub get_slice : String → Action (Result (Unit {0}))
  get_slice n = perform (λ h. E.get_slice h n) (got_slice n)

  abbrev pub list_gw_pods : String → Action (Result (List Pod))
  list_gw_pods n = perform (λ h. E.list_gw_pods h n) (listed_gw_pods n)

  abbrev pub get_recycler : String → Action (Result GwRecycler)
  get_recycler n = perform (λ h. E.get_recycler h n) (got_recycler n)

  abbrev pub create_recycler : GwRecycler → Action (Result (Unit {0}))
  create_recycler r = perform (λ h. E.create_recycler h r) (created_recycler r)

  abbrev pub list_recyclers : String → Action (Result (List GwRecycler))
  list_recyclers n = perform (λ h. E.list_recyclers h n) (listed_recyclers n)

  abbrev pub is_today : ℕ → Action Bool
  is_today t = perform (λ h. E.is_today h t) (read_clock t)

abbrev pub record_event : String → Action (Unit {0})
record_event e = emit (recorded_event e)
