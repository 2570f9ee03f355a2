-- ===== src/Rotation/Writes/Loop.antt =====
-- `Reconcile` of the key rotation makes only the calls of `Written`.
use worker_operator.Base.{ℕ, Bool, List, Error, RetryLib, IsRetryLib, string_eq, nat_eq}
use worker_operator.Rotation.Calls.{Call, Env}
use worker_operator.Rotation.Writes.Runs.{Q}

module _ (E : Env) (R : RetryLib Call) {again : Error → Bool} {n : ℕ}
    (law : IsRetryLib again n R) where
  abbrev W : List Call → Call → Type 0
  W = Q E
