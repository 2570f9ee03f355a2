-- ===== src/Recycler/Handshake/Order.antt =====
-- What the handshake guarantees to the two clusters: no gateway goes before its replacement works
-- on both sides.
use worker_operator.Base.{
  ℕ, suc, subst, ◌≤◌, String, Bool, List, ◌∷◌, Error, ◌≡◌, refl, ap, ◌∙◌, inl, inr, Retry, IsRetry,
  At, Adds-At, length, arith, string_eq,
}
use worker_operator.Objects.{SliceGateway, GwRecycler}
use worker_operator.Recycler.Names.{
  get_request_index, rank, get_response_index, st_old_deployment_deleted, st_slicerouter_updated,
  Request, Response, req_delete_old_gw_deployment, req_update_routing_table,
  resp_old_deployment_deleted, resp_routing_table_updated,
}
use worker_operator.Recycler.Calls.{Call, Env, updated_deployment, updated_pod}
use worker_operator.Recycler.Machine.{FsmLib, IsFsm}
use worker_operator.Recycler.Permitted.{Permitted, Turn, Answers, rerouted, removed}
use worker_operator.Recycler.Safety.Handle.{handle-Permitted}
use worker_operator.Recycler.Handshake.{Among, calls, Versions, SeesOwnWrites}
use worker_operator.Recycler.Handshake.Stages.{
  phase, progress, AgreedAt, Agreed, Agreed-at, phase_of_request,
}
use worker_operator.Recycler.Handshake.Agreement.{
  phase-slicerouter_updated, phase-old_deployment_deleted, Fit-Among, Versions-Fit,
}

-- The recycler that `CreateWorkerSliceGwRecycler` of the hub client posts; its status is empty.
unfoldable pub new_recycler : String → String → String → String → String → GwRecycler
new_recycler name client_id server_id slice_gw_server slice_gw_client = record {
  name = name;
  slice_gw_server = slice_gw_server;
  slice_gw_client = slice_gw_client;
  gw_pair = record { client_id = client_id; server_id = server_id };
  state = "init";
  request = "verify_new_deployment_created";
  response = "";
}

new_recycler-Agreed : (n c s gs gc : String) → Agreed (new_recycler n c s gs gc)
unfolding new_recycler phase get_request_index get_response_index
new_recycler-Agreed n c s gs gc = (refl, omega arith)

-- The phase in which a side has the turn to do some work.
module _ (r : GwRecycler) (gw : SliceGateway) (agreed : Agreed r) where
  Turn-phase :
      (s : String) (q : Request) (a : Response) (p : ℕ)
      → Answers q a
      → phase s ≡ p
      → suc (suc p) ≡ rank a
      → Turn r gw s q a
      → phase r.state ≡ p
  Turn-phase s q a p ans es ep (inl (host, st)) = ap phase st ∙ es
  Turn-phase s q a p ans es ep (inr (host, asked, due)) = omega (
    arith,
    phase_of_request (phase r.state) q (progress r)
        (subst (λ x. AgreedAt (phase r.state) x (progress r)) asked agreed) ans,
  )

  removal_phase :
      Turn r gw st_old_deployment_deleted req_delete_old_gw_deployment resp_old_deployment_deleted
      → (phase r.state ≡ 3) × (4 ≤ progress r)
  removal_phase t =
      let p = Turn-phase _ _ _ 3 removed phase-old_deployment_deleted (omega arith) t in
      (p, (Agreed-at r 3 p agreed).1)

  rerouting_phase :
      Turn r gw st_slicerouter_updated req_update_routing_table resp_routing_table_updated
      → (phase r.state ≡ 2) × (3 ≤ progress r)
  rerouting_phase t =
      let p = Turn-phase _ _ _ 2 rerouted phase-slicerouter_updated (omega arith) t in
      (p, (Agreed-at r 2 p agreed).1)

-- What a call that changes the cluster needs of the recycler `seen` that its run has read: marking a
-- deployment for deletion, that the state is "old deployment deleted" and the client has reported
-- its routes as moved; excluding a pod's route, that the state is "slice router updated" and the
-- client has reported its new deployment as created.
abbrev pub Due : GwRecycler → Call → Type 0
Due seen (updated_deployment d res) = (phase seen.state ≡ 3) × (4 ≤ progress seen)
Due seen (updated_pod p res) = (phase seen.state ≡ 2) × (3 ≤ progress seen)
Due seen _ = Unit

Permitted-Due :
    (name : String) (seen : GwRecycler) (gw : SliceGateway) (k : List Call) (x : Call)
    → Agreed seen
    → Permitted name seen gw k x
    → Due seen x
Permitted-Due name seen gw k (updated_deployment d res) agreed p = removal_phase seen gw agreed p.2
Permitted-Due name seen gw k (updated_pod d res) agreed p = rerouting_phase seen gw agreed p.2
Permitted-Due name seen gw k _ agreed p = tt

module _ (F : FsmLib) (retry_do retry_on_conflict : Retry Call) (again again' : Error → Bool)
    (n n' : ℕ) (first cur : GwRecycler) (past : List GwRecycler) where
  -- In every version of a recycler that the hub client created, the state, the request and the
  -- response belong to one stage of the handshake, whatever runs of the server's and the client's
  -- controllers wrote the versions, if each of these runs had seen the newest value of the field that
  -- its own side writes (the server of the state, the client of the response), however stale its copy
  -- was of the other side's field: a request stands in its state only, the routes are moved only when the client
  -- has created its new deployment, the old deployment is deleted only when the client has moved
  -- its routes, and the end comes only when the client has deleted its old deployment.
  pub Versions-Agreed :
      (name client_id server_id slice_gw_server slice_gw_client : String)
      → IsRetry again n retry_do
      → IsRetry again' n' retry_on_conflict
      → IsFsm F
      → first ≡ new_recycler name client_id server_id slice_gw_server slice_gw_client
      → (vs : Versions F retry_do retry_on_conflict first cur past)
      → SeesOwnWrites F retry_do retry_on_conflict vs
      → (v : GwRecycler) → Among v (cur ∷ past)
      → Agreed v
  Versions-Agreed name c s gs gc law law' fsm e vs own v m =
      (Fit-Among cur v (cur ∷ past)
        (Versions-Fit F retry_do retry_on_conflict law law' fsm
          (rw e (new_recycler-Agreed name c s gs gc)) vs own)
        m).0

  module _ (E : Env) (name : String) (gw : SliceGateway) (f : F.Machine) (h k : List Call)
      (seen : GwRecycler) where
    -- If every run that wrote a version had seen the newest value of the field that its own side
    -- writes, then a run on either side that has seen any version of the recycler, however stale, marks a
    -- deployment for deletion only while the state is "old deployment deleted" and the client has
    -- reported its routes as moved, and excludes a pod's route only while the state is "slice
    -- router updated" and the client has reported its new deployment as created.
    pub deletion_in_order :
        (recycler client_id server_id slice_gw_server slice_gw_client : String)
        → IsRetry again n retry_do
        → IsRetry again' n' retry_on_conflict
        → IsFsm F
        → first ≡ new_recycler recycler client_id server_id slice_gw_server slice_gw_client
        → (vs : Versions F retry_do retry_on_conflict first cur past)
        → SeesOwnWrites F retry_do retry_on_conflict vs
        → Among seen (cur ∷ past)
        → length h ≤ length k
        → (x : Call) → At k x (calls F retry_do retry_on_conflict E name seen gw f h)
        → Due seen x
    deletion_in_order r c s gs gc law law' fsm e vs own m le x at =
        Permitted-Due name seen gw k x (Versions-Agreed r c s gs gc law law' fsm e vs own seen m) (
          Adds-At (Permitted name seen gw)
            (handle-Permitted E retry_do retry_on_conflict again again' n n' F name seen gw f law
              law' fsm h)
            le at)
