-- ===== src/Recycler/Handshake.antt =====
-- The two clusters together: the versions of one recycler object under the writes of server and
-- client runs in any order, each from a copy that may be any version so far. That a copy is current
-- in the field that its own side writes is a hypothesis apart.
pub mod Stages
pub mod Agreement
pub mod Order
use worker_operator.Base.{
  ℕ, ◌≤◌, String, List, [], ◌∷◌, Result, ok, Error, ◌≡◌, Retry, IsRetry, At, length, Run,
}
use worker_operator.Objects.{SliceGateway, GwRecycler}
use worker_operator.Recycler.Calls.{
  Call, Env, got_recycler, updated_recycler, updated_recycler_status,
}
use worker_operator.Recycler.Machine.{FsmLib}
use worker_operator.Recycler.Reconcile.{handle}

-- One of the versions.
pub data Among (v : GwRecycler) : List GwRecycler → Type 0 where
  newest : {w : GwRecycler} {vs : List GwRecycler} → v ≡ w → Among v (w ∷ vs)
  older : {w : GwRecycler} {vs : List GwRecycler} → Among v vs → Among v (w ∷ vs)

module _ (F : FsmLib) (retry_do retry_on_conflict : Retry Call) where
  -- The calls of a run that started after the calls `h`.
  abbrev pub calls : Env → String → GwRecycler → SliceGateway → F.Machine → List Call → List Call
  calls E name cr gw f h = (handle E retry_do retry_on_conflict F name cr gw f h).1

  -- The versions of the recycler `first`, newest first. A run that saw some version `seen` makes
  -- an update, which takes effect only on the newest version, as the API server sees to, and may do
  -- so even where its answer is an error.
  pub data Versions (first : GwRecycler) : GwRecycler → List GwRecycler → Type 0 where
    opened : Versions first first []
    server_write :
        {cur : GwRecycler} {past : List GwRecycler} (E : Env) (name : String) (gw : SliceGateway)
        (f : F.Machine) (h k : List Call) (seen next : GwRecycler) (res : Result (Unit {0}))
        → Versions first cur past
        → Among seen (cur ∷ past)
        → length h ≤ length k
        → At (got_recycler name (ok cur) ∷ k) (updated_recycler next res) (calls E name seen gw f h)
        → Versions first next (cur ∷ past)
    client_write :
        {cur : GwRecycler} {past : List GwRecycler} (E : Env) (name : String) (gw : SliceGateway)
        (f : F.Machine) (h k : List Call) (seen next : GwRecycler) (res : Result (Unit {0}))
        → Versions first cur past
        → Among seen (cur ∷ past)
        → length h ≤ length k
        → At
            (got_recycler name (ok cur) ∷ k)
            (updated_recycler_status next res)
            (calls E name seen gw f h)
        → Versions first next (cur ∷ past)

  -- Every run that wrote had seen the newest value of the field that its own side writes: the
  -- server of the state, the client of the response. The other side's field may be stale.
  abbrev pub SeesOwnWrites :
      {first cur : GwRecycler} {past : List GwRecycler} → Versions first cur past → Type 0
  SeesOwnWrites opened = Unit
  SeesOwnWrites (server_write {cur = cur} E name gw f h k seen next res vs among le at) =
      (seen.state ≡ cur.state) × SeesOwnWrites vs
  SeesOwnWrites (client_write {cur = cur} E name gw f h k seen next res vs among le at) =
      (seen.response ≡ cur.response) × SeesOwnWrites vs
