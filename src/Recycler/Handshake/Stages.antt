-- ===== src/Recycler/Handshake/Stages.antt =====
-- The stages of the handshake, as numbers.
use worker_operator.Base.{
  ℕ, zero, suc, ◌≤◌, ◌<◌, String, ◌==◌, string_eq, if◌then◌else◌, ◌≡◌, subst, arith,
}
use worker_operator.Objects.{GwRecycler}
use worker_operator.Recycler.Names.{
  st_init, st_new_deployment_created, st_slicerouter_updated, st_old_deployment_deleted, st_end,
  Request, req_invalid, req_none, req_create_new_deployment, req_update_routing_table,
  req_delete_old_gw_deployment, rank, get_request_index, get_response_index, Response,
}
use worker_operator.Recycler.Permitted.{Answers, created, rerouted, removed}

-- How far the server has come.
unfoldable pub phase : String → ℕ
unfolding string_eq
phase s =
    if s == st_init
    then 0
    else if s == st_new_deployment_created
    then 1
    else if s == st_slicerouter_updated
    then 2
    else if s == st_old_deployment_deleted
    then 3
    else if s == st_end
    then 4
    else 5

-- How far the client has come.
abbrev pub progress : GwRecycler → ℕ
progress r = rank (get_response_index r.response)

-- The request that stands and the responses that can be posted, in each phase.
abbrev pub AgreedAt : ℕ → Request → ℕ → Type 0
AgreedAt zero q k = (q ≡ req_invalid) × (k ≤ 2)
AgreedAt (suc zero) q k = (q ≡ req_create_new_deployment) × (k ≤ 3)
AgreedAt (suc (suc zero)) q k = (q ≡ req_update_routing_table) × (3 ≤ k) × (k ≤ 4)
AgreedAt (suc (suc (suc zero))) q k = (q ≡ req_delete_old_gw_deployment) × (4 ≤ k) × (k ≤ 5)
AgreedAt (suc (suc (suc (suc zero)))) q k = (q ≡ req_none) × (5 ≤ k)
AgreedAt _ q k = ⊥

abbrev pub Agreed : GwRecycler → Type 0
Agreed r = AgreedAt (phase r.state) (get_request_index r.request) (progress r)

-- `v` is no further than `w` on either side.
abbrev pub NotAfter : GwRecycler → GwRecycler → Type 0
NotAfter v w = (phase v.state ≤ phase w.state) × (progress v ≤ progress w)

pub Agreed-at :
    (r : GwRecycler) (n : ℕ)
    → phase r.state ≡ n
    → Agreed r
    → AgreedAt n (get_request_index r.request) (progress r)
Agreed-at r n e a = subst (λ m. AgreedAt m (get_request_index r.request) (progress r)) e a

-- The request that a response answers stands in one phase only.
pub phase_of_request :
    (p : ℕ) (q : Request) (k : ℕ) {a : Response}
    → AgreedAt p q k
    → Answers q a
    → suc (suc p) ≡ rank a
phase_of_request zero q k g created = ground arith
phase_of_request (suc zero) q k g created = ground arith
phase_of_request (suc (suc zero)) q k g created = ground arith
phase_of_request (suc (suc (suc zero))) q k g created = ground arith
phase_of_request (suc (suc (suc (suc zero)))) q k g created = ground arith
phase_of_request p q k g x = ground arith

Answers-rank : {q : Request} {a : Response} → Answers q a → (3 ≤ rank a) × (rank a ≤ 5)
Answers-rank created = omega arith
Answers-rank rerouted = omega arith
Answers-rank removed = omega arith

AgreedAt-raise :
    (p' : ℕ) (q' : Request) (k' n : ℕ)
    → AgreedAt p' q' k'
    → n ≤ suc (suc p')
    → 3 ≤ n
    → n ≤ 5
    → k' < n
    → AgreedAt p' q' n
AgreedAt-raise zero q' k' n g le lo hi lt = ground arith
AgreedAt-raise (suc zero) q' k' n g le lo hi lt = ground arith
AgreedAt-raise (suc (suc zero)) q' k' n g le lo hi lt = ground arith
AgreedAt-raise (suc (suc (suc zero))) q' k' n g le lo hi lt = ground arith
AgreedAt-raise (suc (suc (suc (suc zero)))) q' k' n g le lo hi lt = ground arith
AgreedAt-raise p' q' k' n g le lo hi lt = ground arith

-- The response to an older request, posted while the newest version has not got that far.
pub AgreedAt-answer :
    (p p' : ℕ) (q q' : Request) (k k' : ℕ) {a : Response}
    → AgreedAt p q k
    → AgreedAt p' q' k'
    → p ≤ p'
    → Answers q a
    → k' < rank a
    → AgreedAt p' q' (rank a)
AgreedAt-answer p p' q q' k k' {a} g g' le ans lt =
    let e = phase_of_request p q k g ans in
    let (lo, hi) = Answers-rank ans in AgreedAt-raise p' q' k' (rank a) g' (omega arith) lo hi lt
