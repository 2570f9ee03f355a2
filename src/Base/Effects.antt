-- ===== src/Base/Effects.antt =====
-- Code that talks to API servers. An outside system answers a call by some function of all the
-- calls made before it, so nothing is assumed of it. A run extends the list of calls, newest first,
-- and ends with a value or with a Go panic.
use Prim.Native.Nat.{ℕ, suc, ◌+◌, ◌≤◌}
use mathlib.Core.Path.{◌≡◌, refl, subst}
use mathlib.Core.Bool.{Bool, true, false}
use mathlib.Core.List.{List, ◌∷◌}
use native.Mathlib.Omega.{arith}
use worker_operator.Base.Equality.{if◌then◌else◌}
use worker_operator.Base.Lists.{length}
use worker_operator.Base.Results.{Result, err, Error}

pub data Run (A : Type 0) : Type 0 where
  returned : A → Run A
  panicked : Run A

abbrev pub M : Type 0 → Type 0 → Type 0
M C A = List C → Run A × List C

abbrev pub Retry : Type 0 → Type 0
Retry C = M C (Result (Unit {0})) → M C (Result (Unit {0}))

module _ {C : Type 0} where
  unfoldable pub continue : {A B : Type 0} → (A → M C B) → Run A × List C → Run B × List C
  continue f (returned a, h) = f a h
  continue f (panicked, h) = (panicked, h)

  infixl 5 ◌>>=◌ ◌>>◌
  unfoldable pub ◌>>=◌ : {A B : Type 0} → M C A → (A → M C B) → M C B
  unfolding continue
  ◌>>=◌ m f h = continue f (m h)

  unfoldable pub ◌>>◌ : {A B : Type 0} → M C A → M C B → M C B
  unfolding ◌>>=◌
  m >> k = m >>= λ _. k

  unfoldable pub return : {A : Type 0} → A → M C A
  return a h = (returned a, h)

  unfoldable pub panic : {A : Type 0} → M C A
  panic h = (panicked, h)

  -- A call whose answer is `respond` of the calls before it.
  unfoldable pub perform : {R : Type 0} → (List C → R) → (R → C) → M C R
  perform respond note h = let r = respond h in (returned r, note r ∷ h)

  -- A call that returns nothing.
  unfoldable pub emit : C → M C (Unit {0})
  emit c h = (returned tt, c ∷ h)

  -- The runs that a retry helper may make of `body`: at most `n`, each but the last one
  -- having failed with an error that the helper retries.
  pub data Attempts (retriable : Error → Bool) (body : M C (Result (Unit {0})))
      : ℕ → List C → Run (Result (Unit {0})) × List C → Type 0 where
    stop : {n : ℕ} (h : List C) → Attempts retriable body (suc n) h (body h)
    again :
        {n : ℕ} (h k : List C) (e : Error) {out : Run (Result (Unit {0})) × List C}
        → body h ≡ (returned (err e), k)
        → retriable e ≡ true
        → Attempts retriable body n k out
        → Attempts retriable body (suc n) h out

  -- What is assumed of a retry helper.
  abbrev pub IsRetry :
      (Error → Bool) → ℕ → (M C (Result (Unit {0})) → M C (Result (Unit {0}))) → Type 0
  IsRetry retriable n retry =
      (body : M C (Result (Unit {0}))) (h : List C) → Attempts retriable body n h (retry body h)

  -- `k` is `h` with newer calls, each of which meets `Q` together with the calls before it.
  pub data Adds (Q : List C → C → Type 0) (h : List C) : List C → Type 0 where
    same : Adds Q h h
    more : {k : List C} (c : C) → Adds Q h k → Q k c → Adds Q h (c ∷ k)

  abbrev pub Emits : {A : Type 0} → (List C → C → Type 0) → M C A → Type 0
  Emits Q m = (h : List C) → Adds Q h (m h).1

module _ {C : Type 0} (Q : List C → C → Type 0) where
  pub Adds-trans : {h k l : List C} → Adds Q h k → Adds Q k l → Adds Q h l
  Adds-trans a same = a
  Adds-trans a (more c b q) = more c (Adds-trans a b) q

  pub Emits-return : {A : Type 0} (a : A) → Emits Q (return a)
  unfolding return
  Emits-return a h = same

  Adds-continue :
      {A B : Type 0} (f : A → M C B) (h : List C) (out : Run A × List C)
      → Adds Q h out.1
      → ((a : A) → Emits Q (f a))
      → Adds Q h (continue f out).1
  unfolding continue
  Adds-continue f h (returned a, k) x y = Adds-trans x (y a k)
  Adds-continue f h (panicked, k) x y = x

  pub Emits-panic : (A : Type 0) → Emits Q (panic {A = A})
  unfolding panic
  Emits-panic A h = same

  pub Emits-bind :
      {A B : Type 0} (m : M C A) (f : A → M C B)
      → Emits Q m
      → ((a : A) → Emits Q (f a))
      → Emits Q (m >>= f)
  unfolding ◌>>=◌
  Emits-bind m f x y h = Adds-continue f h (m h) (x h) y

  pub Emits-then : {A B : Type 0} (m : M C A) (n : M C B) → Emits Q m → Emits Q n → Emits Q (m >> n)
  unfolding ◌>>◌
  Emits-then m n x y = Emits-bind m (λ _. n) x (λ _. y)

  pub Emits-perform :
      {R : Type 0} (respond : List C → R) (note : R → C)
      → ((h : List C) → Q h (note (respond h)))
      → Emits Q (perform respond note)
  unfolding perform
  Emits-perform respond note q h = more (note (respond h)) same (q h)

  pub Emits-emit : (c : C) → ((h : List C) → Q h c) → Emits Q (emit c)
  unfolding emit
  Emits-emit c q h = more c same (q h)

  Attempts-Adds :
      {retriable : Error → Bool} {body : M C (Result (Unit {0}))} {n : ℕ} {h : List C}
      {out : Run (Result (Unit {0})) × List C}
      → Emits Q body
      → Attempts retriable body n h out
      → Adds Q h out.1
  Attempts-Adds x (stop h) = x h
  Attempts-Adds x (again h k e p r rest) =
      Adds-trans (subst (λ t. Adds Q h t.1) p (x h)) (Attempts-Adds x rest)

  pub Emits-retry :
      {retriable : Error → Bool} {n : ℕ} (retry : Retry C) (body : M C (Result (Unit {0})))
      → IsRetry retriable n retry
      → Emits Q body
      → Emits Q (retry body)
  Emits-retry retry body law x h = Attempts-Adds x (law body h)

module _ {C : Type 0} where
  -- `c` is one of the calls of `h'`, and `k` the calls before it.
  pub data At (k : List C) (c : C) : List C → Type 0 where
    newest : At k c (c ∷ k)
    older : {h : List C} (d : C) → At k c h → At k c (d ∷ h)

  At-length : {k : List C} {c : C} {h : List C} → At k c h → length k + 1 ≤ length h
  At-length newest = omega arith
  At-length (older d a) = omega (arith, At-length a)

  Adds-length : (Q : List C → C → Type 0) {h k : List C} → Adds Q h k → length h ≤ length k
  Adds-length Q same = omega arith
  Adds-length Q (more c a q) = omega (arith, Adds-length Q a)

  -- A call made since `h` meets what every call since `h` meets.
  pub Adds-At :
      (Q : List C → C → Type 0) {h h' k : List C} {c : C}
      → Adds Q h h'
      → length h ≤ length k
      → At k c h'
      → Q k c
  Adds-At Q same l a = absurd (omega (arith, At-length a))
  Adds-At Q (more c x q) l newest = q
  Adds-At Q (more c x q) l (older d a) = Adds-At Q x l a

module _ {C : Type 0} (Q : List C → C → Type 0) where
  -- The rule for a test, which hands each branch what the test showed.
  pub Emits-if :
      {A : Type 0} (b : Bool) (m n : M C A)
      → (b ≡ true → Emits Q m)
      → (b ≡ false → Emits Q n)
      → Emits Q (if b then m else n)
  Emits-if true m n x y = x refl
  Emits-if false m n x y = y refl

module _ {C : Type 0} (Q : List C → C → Type 0) where
  -- As `Emits-bind`, where what follows the call may use that the call is the last one made.
  pub Emits-ask :
      {R B : Type 0} (respond : List C → R) (note : R → C) (f : R → M C B)
      → ((h : List C) → Q h (note (respond h)))
      → ((r : R) (h : List C) → Adds Q (note r ∷ h) (f r (note r ∷ h)).1)
      → Emits Q (perform respond note >>= f)
  unfolding perform ◌>>=◌
  Emits-ask respond note f q k h =
      Adds-trans Q (more (note (respond h)) same (q h)) (k (respond h) h)

  pub Adds-perform :
      {R : Type 0} (respond : List C → R) (note : R → C) (h : List C)
      → ((r : R) → Q h (note r))
      → Adds Q h (perform respond note h).1
  unfolding perform
  Adds-perform respond note h q = more (note (respond h)) same (q (respond h))

  pub Adds-if :
      {A : Type 0} (b : Bool) (m n : M C A) (h : List C)
      → (b ≡ true → Adds Q h (m h).1)
      → (b ≡ false → Adds Q h (n h).1)
      → Adds Q h ((if b then m else n) h).1
  Adds-if true m n h x y = x refl
  Adds-if false m n h x y = y refl
