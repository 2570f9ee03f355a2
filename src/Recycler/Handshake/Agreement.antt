-- ===== src/Recycler/Handshake/Agreement.antt =====
-- The two sides never get apart: in every version the standing request, the state and the
-- response belong to one stage of the handshake.
use worker_operator.Base.{
  ℕ, ◌≤◌, ◌<◌, String, Bool, List, [], ◌∷◌, All, Result, ok, Error, ◌≡◌, refl, ap, sym, ◌∙◌, subst,
  subst₂, Retry, IsRetry, At, Adds-At, length, arith, string_eq,
}
use worker_operator.Objects.{SliceGateway, GwRecycler}
use worker_operator.Recycler.Names.{
  Request, Response, get_request_index, get_response_index, get_request_string, get_response_string,
  rank, st_init, st_new_deployment_created, st_slicerouter_updated, st_old_deployment_deleted,
  st_end, resp_invalid, resp_none, resp_new_deployment_created, resp_routing_table_updated,
  resp_old_deployment_deleted, req_invalid, req_none, req_create_new_deployment,
  req_update_routing_table, req_delete_old_gw_deployment,
}
use worker_operator.Recycler.Calls.{
  Call, Env, got_recycler, updated_recycler, updated_recycler_status,
}
use worker_operator.Recycler.Machine.{FsmLib, IsFsm}
use worker_operator.Recycler.Permitted.{
  Permitted, Last, ServerWrite, start, reroute, remove, finish, ClientWrite, answer, with_state,
}
use worker_operator.Recycler.Safety.Handle.{handle-Permitted}
use worker_operator.Recycler.Handshake.{
  Among, newest, older, calls, Versions, opened, server_write, client_write, SeesOwnWrites,
}
use worker_operator.Recycler.Handshake.Stages.{
  phase, progress, AgreedAt, Agreed, NotAfter, Agreed-at, AgreedAt-answer,
}

get_response_index-string : (a : Response) → get_response_index (get_response_string a) ≡ a
unfolding get_response_index get_response_string string_eq
get_response_index-string resp_invalid = refl
get_response_index-string resp_none = refl
get_response_index-string resp_new_deployment_created = refl
get_response_index-string resp_routing_table_updated = refl
get_response_index-string resp_old_deployment_deleted = refl

pub phase-init : phase st_init ≡ 0
unfolding phase
phase-init = refl

pub phase-new_deployment_created : phase st_new_deployment_created ≡ 1
unfolding phase
phase-new_deployment_created = refl

pub phase-slicerouter_updated : phase st_slicerouter_updated ≡ 2
unfolding phase
phase-slicerouter_updated = refl

pub phase-old_deployment_deleted : phase st_old_deployment_deleted ≡ 3
unfolding phase
phase-old_deployment_deleted = refl

pub phase-end : phase st_end ≡ 4
unfolding phase
phase-end = refl

get_request_index-string : (q : Request) → get_request_index (get_request_string q) ≡ q
unfolding get_request_index get_request_string string_eq
get_request_index-string req_invalid = refl
get_request_index-string req_none = refl
get_request_index-string req_create_new_deployment = refl
get_request_index-string req_update_routing_table = refl
get_request_index-string req_delete_old_gw_deployment = refl

-- A version with another state and request, in a phase that its request and response fit.
with_state-Agreed :
    (cur : GwRecycler) (s : String) (q : Request) (n : ℕ)
    → phase s ≡ n
    → phase cur.state ≤ n
    → AgreedAt n q (progress cur)
    → Agreed (with_state cur s q) × NotAfter cur (with_state cur s q)
with_state-Agreed cur s q n e le g = (
  subst₂ (λ m q'. AgreedAt m q' (progress cur)) (sym e) (sym (get_request_index-string q)) g,
  (omega arith, omega arith),
)

ServerWrite-Agreed :
    {seen cur next : GwRecycler}
    → ServerWrite seen cur next
    → seen.state ≡ cur.state
    → Agreed cur
    → progress seen ≤ progress cur
    → Agreed next × NotAfter cur next
ServerWrite-Agreed {cur = cur} (start st e) own a le =
    let p : phase cur.state ≡ 0 = ap phase (sym own ∙ st) ∙ phase-init in
    let g = Agreed-at cur 0 p a in
    rw e
      (with_state-Agreed cur _ _ 1 phase-new_deployment_created (omega arith) (refl, omega arith))
ServerWrite-Agreed {cur = cur} (reroute st answered e) own a le =
    let p : phase cur.state ≡ 1 = ap phase (sym own ∙ st) ∙ phase-new_deployment_created in
    let g = Agreed-at cur 1 p a in
    rw e (
      with_state-Agreed cur _ _ 2 phase-slicerouter_updated (omega arith)
        (refl, ground arith, omega arith))
ServerWrite-Agreed {cur = cur} (remove st answered e) own a le =
    let p : phase cur.state ≡ 2 = ap phase (sym own ∙ st) ∙ phase-slicerouter_updated in
    let g = Agreed-at cur 2 p a in
    rw e (
      with_state-Agreed cur _ _ 3 phase-old_deployment_deleted (omega arith)
        (refl, ground arith, omega arith))
ServerWrite-Agreed {cur = cur} (finish st answered e) own a le =
    let p : phase cur.state ≡ 3 = ap phase (sym own ∙ st) ∙ phase-old_deployment_deleted in
    let g = Agreed-at cur 3 p a in
    rw e (with_state-Agreed cur _ _ 4 phase-end (omega arith) (refl, ground arith))

with_response-Agreed :
    (cur : GwRecycler) (a : Response)
    → AgreedAt (phase cur.state) (get_request_index cur.request) (rank a)
    → progress cur ≤ rank a
    → let next : GwRecycler = record cur { response = get_response_string a } in
      Agreed next × NotAfter cur next
with_response-Agreed cur a g le = rw (get_response_index-string a) (g, (omega arith, le))

ClientWrite-Agreed :
    {seen cur next : GwRecycler}
    → ClientWrite seen cur next
    → seen.response ≡ cur.response
    → Agreed seen
    → Agreed cur
    → phase seen.state ≤ phase cur.state
    → Agreed next × NotAfter cur next
ClientWrite-Agreed {seen} {cur} (answer q a asked ans due e) own gs gc le =
    let lt : progress cur < rank a =
      subst (λ s. rank (get_response_index s) < rank a) own (ground arith) in
    rw e (
      with_response-Agreed cur a
        (AgreedAt-answer (phase seen.state) (phase cur.state) q (get_request_index cur.request)
          (progress seen) (progress cur)
          (subst (λ x. AgreedAt (phase seen.state) x (progress seen)) asked gs) gc le ans lt)
        (omega arith))

abbrev pub Fit : GwRecycler → GwRecycler → Type 0
Fit cur v = Agreed v × NotAfter v cur

pub Fit-Among :
    (cur v : GwRecycler) (vs : List GwRecycler) → All (Fit cur) vs → Among v vs → Fit cur v
Fit-Among cur v [] fits m = elim m [ ]
Fit-Among cur v (w ∷ vs) fits (newest e) = rw e fits.0
Fit-Among cur v (w ∷ vs) fits (older m) = Fit-Among cur v vs fits.1 m

Fit-later :
    (cur next : GwRecycler) (vs : List GwRecycler)
    → NotAfter cur next
    → All (Fit cur) vs
    → All (Fit next) vs
Fit-later cur next [] le fits = tt
Fit-later cur next (v ∷ vs) le (fit, fits) =
    ((fit.0, (omega arith, omega arith)), Fit-later cur next vs le fits)

Fit-next :
    (cur next : GwRecycler) (vs : List GwRecycler)
    → All (Fit cur) vs
    → Agreed next × NotAfter cur next
    → All (Fit next) (next ∷ vs)
Fit-next cur next vs fits (good, later) =
    ((good, (omega arith, omega arith)), Fit-later cur next vs later fits)

-- A copy that was the last thing read is the one that the last call gave.
read_copy :
    (name : String) (cur r : GwRecycler) (k : List Call)
    → Last (got_recycler name (ok r)) (got_recycler name (ok cur) ∷ k)
    → r ≡ cur
read_copy name cur r k (l, e) = cc

module _ (F : FsmLib) (retry_do retry_on_conflict : Retry Call) {again again' : Error → Bool}
    {n n' : ℕ} (law : IsRetry again n retry_do) (law' : IsRetry again' n' retry_on_conflict)
    (fsm : IsFsm F) where
  module _ (E : Env) (name : String) (gw : SliceGateway) (f : F.Machine) (h k : List Call)
      (seen cur next : GwRecycler) (res : Result (Unit {0})) where
    -- What a run writes, it writes by the rules.
    wrote :
        (c : Call)
        → length h ≤ length k
        → At
            (got_recycler name (ok cur) ∷ k)
            c
            (calls F retry_do retry_on_conflict E name seen gw f h)
        → Permitted name seen gw (got_recycler name (ok cur) ∷ k) c
    wrote c le at =
        Adds-At (Permitted name seen gw)
          (handle-Permitted E retry_do retry_on_conflict again again' n n' F name seen gw f law law'
            fsm h)
          (omega arith) at

    server_wrote :
        Permitted name seen gw (got_recycler name (ok cur) ∷ k) (updated_recycler next res)
        → ServerWrite seen cur next
    server_wrote (host, (r, last, w)) =
        subst (λ x. ServerWrite seen x next) (read_copy name cur r k last) w

    client_wrote :
        Permitted name seen gw (got_recycler name (ok cur) ∷ k) (updated_recycler_status next res)
        → ClientWrite seen cur next
    client_wrote (host, (r, last, w)) =
        subst (λ x. ClientWrite seen x next) (read_copy name cur r k last) w

  pub Versions-Fit :
      {first cur : GwRecycler} {past : List GwRecycler}
      → Agreed first
      → (vs : Versions F retry_do retry_on_conflict first cur past)
      → SeesOwnWrites F retry_do retry_on_conflict vs
      → All (Fit cur) (cur ∷ past)
  Versions-Fit a opened own = ((a, (omega arith, omega arith)), tt)
  Versions-Fit a
        (server_write {cur = cur} {past = past} E name gw f h k seen next res vs among le at) own =
      let fits = Versions-Fit a vs own.1 in
      let saw = Fit-Among cur seen (cur ∷ past) fits among in
      Fit-next cur next (cur ∷ past) fits (
        ServerWrite-Agreed
          (server_wrote E name gw f h k seen cur next res
            (wrote E name gw f h k seen cur next res (updated_recycler next res) le at))
          own.0 (fits.0).0 (saw.1).1)
  Versions-Fit a
        (client_write {cur = cur} {past = past} E name gw f h k seen next res vs among le at) own =
      let fits = Versions-Fit a vs own.1 in
      let saw = Fit-Among cur seen (cur ∷ past) fits among in
      Fit-next cur next (cur ∷ past) fits (
        ClientWrite-Agreed
          (client_wrote E name gw f h k seen cur next res
            (wrote E name gw f h k seen cur next res (updated_recycler_status next res) le at))
          own.0 saw.0 (fits.0).0 (saw.1).0)
