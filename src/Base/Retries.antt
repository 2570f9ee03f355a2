-- ===== src/Base/Retries.antt =====
-- Retry helpers whose body assigns variables of the function around it: the body takes these
-- variables and gives them back.
use Prim.Native.Nat.{ℕ, suc}
use mathlib.Core.Path.{◌≡◌, subst}
use mathlib.Core.Bool.{Bool, true}
use mathlib.Core.List.{List}
use worker_operator.Base.Results.{Result, err, Error}
use worker_operator.Base.Effects.{Run, returned, M, Adds, Adds-trans, Emits}

abbrev pub Body : Type 0 → Type 0 → Type 0
Body C S = S → M C (S × Result (Unit {0}))

pub record RetryLib (C : Type 0) : Type 1 where
  pub retry : {S : Type 0} → Body C S → Body C S

module _ {C S : Type 0} where
  -- The runs that a retry helper may make of `body`, as `Attempts`.
  pub data Tries (retriable : Error → Bool) (body : Body C S)
      : ℕ → S → List C → Run (S × Result (Unit {0})) × List C → Type 0 where
    last_try : {n : ℕ} (s : S) (h : List C) → Tries retriable body (suc n) s h (body s h)
    try_again :
        {n : ℕ} (s s' : S) (h k : List C) (e : Error) {out : Run (S × Result (Unit {0})) × List C}
        → body s h ≡ (returned (s', err e), k)
        → retriable e ≡ true
        → Tries retriable body n s' k out
        → Tries retriable body (suc n) s h out

-- What is assumed of a retry helper.
pub record IsRetryLib {C : Type 0} (retriable : Error → Bool) (n : ℕ) (R : RetryLib C)
    : Type 1 where
  pub tries :
      {S : Type 0} (body : Body C S) (s : S) (h : List C)
      → Tries retriable body n s h (R.retry body s h)

module _ {C S : Type 0} (Q : List C → C → Type 0) where
  Tries-Adds :
      {retriable : Error → Bool} (body : Body C S) {n : ℕ} {s : S} {h : List C}
      {out : Run (S × Result (Unit {0})) × List C}
      → ((t : S) → Emits Q (body t))
      → Tries retriable body n s h out
      → Adds Q h out.1
  Tries-Adds body x (last_try s h) = x s h
  Tries-Adds body x (try_again s s' h k e p r rest) =
      Adds-trans Q (subst (λ o. Adds Q h o.1) p (x s h)) (Tries-Adds body x rest)

  -- The rule for a retry helper.
  pub Emits-retry_lib :
      {retriable : Error → Bool} {n : ℕ} (R : RetryLib C) (body : Body C S) (s : S)
      → IsRetryLib retriable n R
      → ((t : S) → Emits Q (body t))
      → Emits Q (R.retry body s)
  Emits-retry_lib R body s law x h = Tries-Adds body x (law.tries body s h)
