-- ===== src/Recycler/Safety/Handle.antt =====
-- The two parts together.
use worker_operator.Base.{
  ℕ, String, Bool, true, Error, ◌≡◌, Retry, IsRetry, Emits, Emits-return, Emits-if, string_eq,
  arith, ◌==◌, List,
}
use worker_operator.Objects.{SliceGateway, GwRecycler}
use worker_operator.Recycler.Calls.{Call, Env}
use worker_operator.Recycler.Machine.{FsmLib, IsFsm}
use worker_operator.Recycler.Reconcile.{handle}
use worker_operator.Recycler.Permitted.{Permitted}
use worker_operator.Recycler.Safety.Server.{Emits-server}
use worker_operator.Recycler.Safety.Client.{Emits-client}

-- Whatever the API servers, the router and the event recorder answer, each call that a run of the
-- recycler makes after it has read the recycler `cr` and the slice gateway `gw` is a permitted one:
-- the recycler's state and request move on by one step of the table, on the server only, from the
-- state that was read and past the client's response that the step waits for; the response is
-- posted on the client only, for the request that was read and only while it is not answered; and
-- the slice gateway, the deployments and the pods are changed only by the side and in the step
-- that `Permitted` names. It is assumed that the retry helpers run their body and nothing else
-- and that the state machine reports the state that it was put in.
pub handle-Permitted :
    (E : Env) (retry_do retry_on_conflict : Retry Call) (again again' : Error → Bool) (n n' : ℕ)
    (F : FsmLib) (name : String) (cr : GwRecycler) (gw : SliceGateway) (f : F.Machine)
    → IsRetry again n retry_do
    → IsRetry again' n' retry_on_conflict
    → IsFsm F
    → Emits (Permitted name cr gw) (handle E retry_do retry_on_conflict F name cr gw f)
unfolding handle
handle-Permitted E retry_do retry_on_conflict again again' n n' F name cr gw f law law' fsm =
    Emits-if Q (gw.host_type == "Server") _ _
      (λ e.
        Emits-server E retry_do retry_on_conflict law law' F name cr gw _ (hosted e)
          (fsm.current-set cr.state f))
      λ _.
        Emits-if Q (gw.host_type == "Client") _ _
          (λ e. Emits-client E retry_do retry_on_conflict law law' F name cr gw f (hosted e))
          (λ _. Emits-return Q _)
  where
    Q : List Call → Call → Type 0
    Q = Permitted name cr gw

    hosted : {s : String} → (gw.host_type == s) ≡ true → gw.host_type ≡ s
    hosted e = ground arith
