-- ===== src/Rotation/Writes.antt =====
-- What one run of the key rotation may write, and that it writes nothing else, whatever the API
-- servers answer.
pub mod History
pub mod Sync
pub mod Runs
pub mod Secrets
pub mod Steps
pub mod Loop
use worker_operator.Base.{
  ℕ, suc, false, ◌≢◌, infix_of, suffix_of, ◌<>◌, ◌⊎◌, Did, is_not_found, String, Bool, true, Option,
  none, some, List, [], ◌∷◌, Result, ok, err, Error, ◌≡◌, lookup, insert, or_empty, get_or,
  contains, string_eq,
}
use worker_operator.Objects.{SliceGateway, GwRecycler, Pod}
use worker_operator.Recycler.Handshake.Order.{new_recycler}
use worker_operator.Rotation.Calls.{
  Rotation, VpnKeyRotation, Secret, Call, Env, got_rotation, updated_rotation, got_hub_secret,
  got_secret, got_slicegw, listed_recyclers, created_secret, deleted_secret, listed_gw_pods,
  got_recycler, created_recycler,
}
use worker_operator.Rotation.Status.{states, with_state, with_history, gateways_of}
use worker_operator.Gateways.{is_server}

-- The rotation that was read last; pods may have been listed since.
pub data ReadLast (r : VpnKeyRotation) : List Call → Type 0 where
  read_now : (n : String) (h : List Call) → ReadLast r (got_rotation n (ok r) ∷ h)
  listed_since :
      (gw : String) (res : Result (List Pod)) (h : List Call)
      → ReadLast r h
      → ReadLast r (listed_gw_pods gw res ∷ h)

module _ (E : Env) where
  -- A gateway of the status that is named after this cluster and is not among its gateways.
  abbrev pub IsDetached : VpnKeyRotation → String → Type 0
  IsDetached r gw =
      (contains (gateways_of E r) gw ≡ false)
      × (infix_of E.cluster_name gw ≡ true)
      × (suffix_of E.cluster_name gw ≡ false)
      × (lookup gw (states r) ≢ none)

  -- The state of a gateway after the synchronisation: as it was; or, for a new gateway of this
  -- cluster, complete since the creation of the certificates; or none, for a detached one.
  abbrev pub IsSynced : VpnKeyRotation → String → Option Rotation → Type 0
  IsSynced r gw after =
      (IsDetached r gw × (after ≡ none))
      ⊎ ((¬ IsDetached r gw × (after ≡ lookup gw (states r)))
          ⊎ ((t : ℕ) × (lookup gw (states r) ≡ none)
              × (contains (gateways_of E r) gw ≡ true)
              × (r.certificate_creation_time ≡ some t)
              × (after ≡ some (record { status = "COMPLETE"; last_updated = t }))))

  -- A change of a rotation `r` to `r'`: a known gateway gets another status and keeps its time; or a
  -- gateway gets a status and a time, which enter its history where the status is final; or the
  -- states are synchronised, each as `IsSynced` says.
  pub data Moves (r r' : VpnKeyRotation) : Type 0 where
    restated :
        (gw status : String) (old : Rotation)
        → lookup gw (states r) ≡ some old
        → r' ≡ with_state gw (record old { status = status }) (states r) r
        → Moves r r'
    stamped :
        (gw : String) (rotation : Rotation)
        → r' ≡ with_history gw rotation (with_state gw rotation (states r) r)
        → Moves r r'
    synced :
        ((key : String) → IsSynced r key (lookup key (states r')))
        → r' ≡ record r { current_rotation_state = r'.current_rotation_state }
        → Moves r r'

  -- The secret's name for the version before `count`; before version 0 stands the number -1.
  abbrev pub IsPrevious : ℕ → String → String → Type 0
  IsPrevious count gw name =
      ((version : ℕ) × (count ≡ suc version) × (name ≡ gw <> ("-" <> E.itoa version)))
      ⊎ ((count ≡ 0) × (name ≡ gw <> "--1"))

  -- The gateway was read as one on the server's side, and no recyclers were left of it.
  abbrev pub IsRecycled : String → List Call → Type 0
  IsRecycled gw h =
      ((g : SliceGateway) × Did (λ c. c ≡ got_slicegw gw (ok g)) h × (is_server g ≡ true))
      × Did (λ c. c ≡ listed_recyclers gw (ok [])) h

  -- A rotation was read whose rotation count is this version.
  abbrev pub Seen : ℕ → List Call → Type 0
  Seen version h =
      Did
        (λ c.
          (name : String) × (r : VpnKeyRotation) × (c ≡ got_rotation name (ok r))
          × (r.rotation_count ≡ version))
        h

  -- The calls that a run may make, with the calls before each. A rotation is written only as
  -- `Moves` says, from the copy read last. A secret is created only under the name of the version of a
  -- rotation that was read, and that was looked for in vain, with the data read last from the hub. The secret
  -- deleted is the one of the version before that of the rotation that was written just before, of a
  -- gateway that is recycled. A recycler is created only after it was looked for in vain, as a
  -- fresh one that is named after the server's deployment.
  abbrev pub Written : List Call → Call → Type 0
  Written h (updated_rotation r' res) = (r : VpnKeyRotation) × ReadLast r h × Moves r r'
  Written h (created_secret s res) =
      (c : Secret) × (e : Error) × (version : ℕ) × (k : List Call) × (h
        ≡ got_hub_secret s.slice_gw (ok c) ∷ got_secret s.name (err e) ∷ k)
      × (is_not_found e ≡ true)
      × (s.data_map ≡ c.data_map)
      × Seen version h
      × (s.name ≡ s.slice_gw <> ("-" <> E.itoa version))
  Written h (deleted_secret n res) =
      (r : VpnKeyRotation) × (gw : String) × (k : List Call) × (h ≡ updated_rotation r (ok tt) ∷ k)
      × IsPrevious r.rotation_count gw n
      × IsRecycled gw h
  Written h (created_recycler r res) =
      (e : Error) × (k : List Call) × (client_id gs gc : String) × (h
        ≡ got_recycler r.gw_pair.server_id (err e) ∷ k)
      × (r ≡ new_recycler r.gw_pair.server_id client_id r.gw_pair.server_id gs gc)
  Written h _ = Unit
