-- ===== src/Base/Results.antt =====
-- Go's `(value, error)` returns, with the kinds of error that the operator tells apart.
use Prim.Native.Nat.{ℕ}
use mathlib.Core.Path.{◌≡◌, refl}
use mathlib.Core.Logic.{◌⊎◌, inl, inr}
use mathlib.Core.Bool.{Bool, true, false}

pub data Error : Type 0 where
  not_found already_exists conflict other : Error

pub data Result {ℓ} (A : Type ℓ) : Type ℓ where
  ok : A → Result A
  err : Error → Result A

-- `apierrors.IsNotFound(err)`
abbrev pub is_not_found : Error → Bool
is_not_found not_found = true
is_not_found _ = false

-- `ctrl.Result`; the delay in seconds, 0 for none.
pub record Requeue : Type 0 where
  pub requeue : Bool
  pub after : ℕ

abbrev pub no_requeue : Requeue
no_requeue = record { requeue = false; after = 0 }

abbrev pub requeue_now : Requeue
requeue_now = record { requeue = true; after = 0 }

abbrev pub requeue_after : ℕ → Requeue
requeue_after n = record { requeue = false; after = n }

-- `apierrors.IsAlreadyExists(err)`
abbrev pub is_already_exists : Error → Bool
is_already_exists already_exists = true
is_already_exists _ = false

pub Result-cases {ℓ} :
    {A : Type ℓ} (r : Result A) → ((e : Error) × (r ≡ err e)) ⊎ ((a : A) × (r ≡ ok a))
Result-cases (err e) = inl (e, refl)
Result-cases (ok a) = inr (a, refl)
