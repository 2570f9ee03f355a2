-- ===== src/Namespaces/Onboard/Reported.antt =====
-- What the slice's status and the hub are told of the onboarded namespaces.
use worker_operator.Base.{ℕ, String, Bool, List, Error, string_eq, RetryLib, IsRetryLib, Adds}
use worker_operator.Namespaces.Calls.{Slice, Call, Env, Action}
use worker_operator.Namespaces.Onboard.Bound.{AllBound, Reported}

module _ (E : Env) {retriable : Error → Bool} {limit : ℕ} (R : RetryLib Call)
    (law : IsRetryLib retriable limit R) (slice : String) where
  abbrev W : List Call → Call → Type 0
  W = Reported slice

  -- An action whose writes report names that are bound when it starts.
  abbrev Telling : {A : Type 0} → List String → Action A → Type 0
  Telling l m = (h : List Call) → AllBound slice l h → Adds W h (m h).1

module _ (E : Env) {retriable : Error → Bool} {limit : ℕ} (R : RetryLib Call)
    (law : IsRetryLib retriable limit R) (s : Slice) where
  abbrev V : List Call → Call → Type 0
  V = Reported s.name
