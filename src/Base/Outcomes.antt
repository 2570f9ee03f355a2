-- ===== src/Base/Outcomes.antt =====
-- Rules for what a run adds to the calls together with what holds after it.
use Prim.Native.Nat.{ℕ}
use mathlib.Core.Path.{◌≡◌, refl, subst}
use mathlib.Core.Bool.{Bool, true, false}
use mathlib.Core.List.{List, ◌∷◌}
use worker_operator.Base.Effects.{
  Run, returned, panicked, M, continue, ◌>>=◌, ◌>>◌, return, emit, perform, Adds, same, more,
  Adds-trans,
}
use worker_operator.Base.Equality.{if◌then◌else◌}
use worker_operator.Base.Results.{Result, ok, err, Error}
use worker_operator.Base.Retries.{Body, RetryLib, IsRetryLib, Tries, last_try, try_again}

module _ {C : Type 0} where
  -- One of the calls meets `P`.
  pub data Did (P : C → Type 0) : List C → Type 0 where
    did_now : {h : List C} (c : C) → P c → Did P (c ∷ h)
    did_before : {h : List C} (c : C) → Did P h → Did P (c ∷ h)

  pub Did-Adds :
      {Q : List C → C → Type 0} (P : C → Type 0) {h k : List C} → Did P h → Adds Q h k → Did P k
  Did-Adds P d same = d
  Did-Adds P d (more c a q) = did_before c (Did-Adds P d a)

  -- What holds of the value and the calls of a run that does not panic.
  abbrev pub Post : {A : Type 0} → (A → List C → Type 0) → Run A × List C → Type 0
  Post R (returned a, k) = R a k
  Post R (panicked, k) = Unit

  -- A run from the calls `h` adds calls that meet `Q`, and ends with `R`.
  abbrev pub Holds :
      {A : Type 0}
      → (List C → C → Type 0)
      → (A → List C → Type 0)
      → List C
      → Run A × List C
      → Type 0
  Holds Q R h out = Adds Q h out.1 × Post R out

module _ {C : Type 0} (Q : List C → C → Type 0) where
  pub Holds-return :
      {A : Type 0} (R : A → List C → Type 0) (a : A) (h : List C) → R a h → Holds Q R h (return a h)
  unfolding return
  Holds-return R a h r = (same, r)

  Holds-continue :
      {A B : Type 0} (S : A → List C → Type 0) (R : B → List C → Type 0) (f : A → M C B)
      (h : List C) (out : Run A × List C)
      → Holds Q S h out
      → ((a : A) (k : List C) → Adds Q h k → S a k → Holds Q R k (f a k))
      → Holds Q R h (continue f out)
  unfolding continue
  Holds-continue S R f h (returned a, k) x y = let z = y a k x.0 x.1 in (Adds-trans Q x.0 z.0, z.1)
  Holds-continue S R f h (panicked, k) x y = (x.0, tt)

  pub Holds-bind :
      {A B : Type 0} (S : A → List C → Type 0) (R : B → List C → Type 0) (m : M C A) (f : A → M C B)
      (h : List C)
      → Holds Q S h (m h)
      → ((a : A) (k : List C) → Adds Q h k → S a k → Holds Q R k (f a k))
      → Holds Q R h ((m >>= f) h)
  unfolding ◌>>=◌
  Holds-bind S R m f h x y = Holds-continue S R f h (m h) x y

  pub Holds-ask :
      {A B : Type 0} (R : B → List C → Type 0) (respond : List C → A) (note : A → C) (f : A → M C B)
      (h : List C)
      → ((a : A) → Q h (note a))
      → ((a : A) → Holds Q R (note a ∷ h) (f a (note a ∷ h)))
      → Holds Q R h ((perform respond note >>= f) h)
  unfolding perform ◌>>=◌
  Holds-ask R respond note f h q k =
      let z = k (respond h) in
      (Adds-trans Q (more (note (respond h)) same (q (respond h))) z.0, z.1)

  -- A call that is noted first.
  pub Holds-emit :
      {A : Type 0} (R : A → List C → Type 0) (c : C) (m : M C A) (h : List C)
      → Q h c
      → Holds Q R (c ∷ h) (m (c ∷ h))
      → Holds Q R h ((emit c >> m) h)
  unfolding emit ◌>>◌ ◌>>=◌
  Holds-emit R c m h q x = (Adds-trans Q (more c same q) x.0, x.1)

  pub Holds-if :
      {A : Type 0} (R : A → List C → Type 0) (b : Bool) (m n : M C A) (h : List C)
      → (b ≡ true → Holds Q R h (m h))
      → (b ≡ false → Holds Q R h (n h))
      → Holds Q R h ((if b then m else n) h)
  Holds-if R true m n h x y = x refl
  Holds-if R false m n h x y = y refl

module _ {C S : Type 0} (Q : List C → C → Type 0) (I : S → Type 0)
    (R : S × Result (Unit {0}) → List C → Type 0) where
  Tries-Holds :
      {retriable : Error → Bool} (body : Body C S) {n : ℕ} {s : S} {h : List C}
      {out : Run (S × Result (Unit {0})) × List C}
      → ((t : S) (k : List C) → I t → Holds Q R k (body t k))
      → ((t : S) (e : Error) (k : List C) → R (t, err e) k → I t)
      → I s
      → Tries retriable body n s h out
      → Holds Q R h out
  Tries-Holds body x i s0 (last_try s h) = x s h s0
  Tries-Holds body x i s0 (try_again s s' h k e p r rest) =
      let first = subst (λ o. Holds Q R h o) p (x s h s0) in
      let later = Tries-Holds body x i (i s' e k first.1) rest in
      (Adds-trans Q first.0 later.0, later.1)

  -- The rule for a retry helper: `I` is an invariant of the variables.
  pub Holds-retry :
      {retriable : Error → Bool} {n : ℕ} (L : RetryLib C) (body : Body C S) (s : S) (h : List C)
      → IsRetryLib retriable n L
      → ((t : S) (k : List C) → I t → Holds Q R k (body t k))
      → ((t : S) (e : Error) (k : List C) → R (t, err e) k → I t)
      → I s
      → Holds Q R h (L.retry body s h)
  Holds-retry L body s h law x i s0 = Tries-Holds body x i s0 (law.tries body s h)

module _ {C S : Type 0} (Q : List C → C → Type 0) (I : S → List C → Type 0) where
  Tries-since :
      {retriable : Error → Bool} (body : Body C S) {n : ℕ} {s : S} {h : List C}
      {out : Run (S × Result (Unit {0})) × List C}
      → ((t : S) (k : List C) → I t k → Holds Q (λ o l. I o.0 l) k (body t k))
      → I s h
      → Tries retriable body n s h out
      → Holds Q (λ o l. I o.0 l) h out
  Tries-since body x i (last_try s h) = x s h i
  Tries-since body x i (try_again s s' h k e p r rest) =
      let first = subst (λ o. Holds Q (λ o' l. I o'.0 l) h o) p (x s h i) in
      let later = Tries-since body x first.1 rest in (Adds-trans Q first.0 later.0, later.1)

  -- The rule for a retry helper whose invariant is about the calls too.
  pub Holds-retry_since :
      {retriable : Error → Bool} {n : ℕ} (L : RetryLib C) (body : Body C S) (s : S) (h : List C)
      → IsRetryLib retriable n L
      → ((t : S) (k : List C) → I t k → Holds Q (λ o l. I o.0 l) k (body t k))
      → I s h
      → Holds Q (λ o l. I o.0 l) h (L.retry body s h)
  Holds-retry_since L body s h law x i = Tries-since body x i (law.tries body s h)

module _ {C : Type 0} (Q : List C → C → Type 0) where
  -- Where nothing is said of the end of the run.
  pub Post-any : {A : Type 0} (out : Run A × List C) → Post (λ a k. Unit {0}) out
  Post-any (returned a, k) = tt
  Post-any (panicked, k) = tt

  pub Adds-hold :
      {A B : Type 0} (S : A → List C → Type 0) (m : M C A) (f : A → M C B) (h : List C)
      → Holds Q S h (m h)
      → ((a : A) (k : List C) → Adds Q h k → S a k → Adds Q k (f a k).1)
      → Adds Q h ((m >>= f) h).1
  Adds-hold S m f h x y =
      (Holds-bind Q S (λ a k. Unit) m f h x (λ a k d s. (y a k d s, Post-any (f a k)))).0

  -- A run that gives variables and a result, by whether it has an error.
  pub Holds-outcome :
      {A B : Type 0} (S : A × Result (Unit {0}) → List C → Type 0) (R : B → List C → Type 0)
      (m : M C (A × Result (Unit {0}))) (f : A × Result (Unit {0}) → M C B) (h : List C)
      → Holds Q S h (m h)
      → ((a : A) (e : Error) (k : List C) → S (a, err e) k → Holds Q R k (f (a, err e) k))
      → ((a : A) (u : Unit {0}) (k : List C) → S (a, ok u) k → Holds Q R k (f (a, ok u) k))
      → Holds Q R h ((m >>= f) h)
  Holds-outcome {A = A} S R m f h x failed done = Holds-bind Q S R m f h x split
    where
      split :
          (out : A × Result (Unit {0})) (k : List C) → Adds Q h k → S out k → Holds Q R k (f out k)
      split (a, err e) k d s = failed a e k s
      split (a, ok u) k d s = done a u k s

  -- The same for a run that gives variables and a result, by whether it has an error.
  pub Adds-outcome :
      {A B : Type 0} (S : A × Result (Unit {0}) → List C → Type 0) (m : M C (A × Result (Unit {0})))
      (f : A × Result (Unit {0}) → M C B) (h : List C)
      → Holds Q S h (m h)
      → ((a : A) (e : Error) (k : List C) → Adds Q k (f (a, err e) k).1)
      → ((a : A) (u : Unit {0}) (k : List C)
          → Adds Q h k
          → S (a, ok u) k
          → Adds Q k (f (a, ok u) k).1)
      → Adds Q h ((m >>= f) h).1
  Adds-outcome {A = A} S m f h x failed done = Adds-hold S m f h x split
    where
      split :
          (out : A × Result (Unit {0})) (k : List C) → Adds Q h k → S out k → Adds Q k (f out k).1
      split (a, err e) k d s = failed a e k
      split (a, ok u) k d s = done a u k d s

module _ {C : Type 0} where
  Post-continue :
      {A B : Type 0} (S : A → List C → Type 0) (R : B → List C → Type 0) (f : A → M C B)
      (out : Run A × List C)
      → Post S out
      → ((a : A) (k : List C) → S a k → Post R (f a k))
      → Post R (continue f out)
  unfolding continue
  Post-continue S R f (returned a, k) x y = y a k x
  Post-continue S R f (panicked, k) x y = tt

  -- The rules for the end of a run alone.
  pub Post-bind :
      {A B : Type 0} (S : A → List C → Type 0) (R : B → List C → Type 0) (m : M C A) (f : A → M C B)
      (h : List C)
      → Post S (m h)
      → ((a : A) (k : List C) → S a k → Post R (f a k))
      → Post R ((m >>= f) h)
  unfolding ◌>>=◌
  Post-bind S R m f h x y = Post-continue S R f (m h) x y

  pub Post-after :
      {A B : Type 0} (R : B → List C → Type 0) (m : M C A) (f : A → M C B) (h : List C)
      → ((a : A) (k : List C) → Post R (f a k))
      → Post R ((m >>= f) h)
  Post-after R m f h y =
      Post-bind (λ a k. Unit {0}) R m f h (Post-any (λ h c. Unit) (m h)) (λ a k u. y a k)

  pub Post-outcome :
      {A B : Type 0} (R : B → List C → Type 0) (m : M C (A × Result (Unit {0})))
      (f : A × Result (Unit {0}) → M C B) (h : List C)
      → ((a : A) (e : Error) (k : List C) → Post R (f (a, err e) k))
      → ((a : A) (u : Unit {0}) (k : List C) → Post R (f (a, ok u) k))
      → Post R ((m >>= f) h)
  Post-outcome {A = A} R m f h failed done = Post-after R m f h split
    where
      split : (out : A × Result (Unit {0})) (k : List C) → Post R (f out k)
      split (a, err e) k = failed a e k
      split (a, ok u) k = done a u k

  pub Post-ask :
      {A B : Type 0} (R : B → List C → Type 0) (respond : List C → A) (note : A → C) (f : A → M C B)
      (h : List C)
      → ((a : A) → respond h ≡ a → Post R (f a (note a ∷ h)))
      → Post R ((perform respond note >>= f) h)
  unfolding perform ◌>>=◌
  Post-ask R respond note f h k = k (respond h) refl

  pub Post-if :
      {A : Type 0} (R : A → List C → Type 0) (b : Bool) (m n : M C A) (h : List C)
      → (b ≡ true → Post R (m h))
      → (b ≡ false → Post R (n h))
      → Post R ((if b then m else n) h)
  Post-if R true m n h x y = x refl
  Post-if R false m n h x y = y refl

module _ {C S : Type 0} (I : S → Type 0) (R : S × Result (Unit {0}) → List C → Type 0) where
  Tries-Post :
      {retriable : Error → Bool} (body : Body C S) {n : ℕ} {s : S} {h : List C}
      {out : Run (S × Result (Unit {0})) × List C}
      → ((t : S) (k : List C) → I t → Post R (body t k))
      → ((t : S) (e : Error) (k : List C) → R (t, err e) k → I t)
      → I s
      → Tries retriable body n s h out
      → Post R out
  Tries-Post body x i s0 (last_try s h) = x s h s0
  Tries-Post body x i s0 (try_again s s' h k e p r rest) =
      Tries-Post body x i (i s' e k (subst (λ o. Post R o) p (x s h s0))) rest

  pub Post-retry :
      {retriable : Error → Bool} {n : ℕ} (L : RetryLib C) (body : Body C S) (s : S) (h : List C)
      → IsRetryLib retriable n L
      → ((t : S) (k : List C) → I t → Post R (body t k))
      → ((t : S) (e : Error) (k : List C) → R (t, err e) k → I t)
      → I s
      → Post R (L.retry body s h)
  Post-retry L body s h law x i s0 = Tries-Post body x i s0 (law.tries body s h)

module _ {C S : Type 0} (Q : List C → C → Type 0) (F : List C → Type 0) where
  Tries-keep :
      {retriable : Error → Bool} (body : Body C S) {n : ℕ} {s : S} {h : List C}
      {out : Run (S × Result (Unit {0})) × List C}
      → ((t : S) (k : List C) → F k → Adds Q k (body t k).1)
      → ((k l : List C) → Adds Q k l → F k → F l)
      → F h
      → Tries retriable body n s h out
      → Adds Q h out.1
  Tries-keep body x keep f (last_try s h) = x s h f
  Tries-keep body x keep f (try_again s s' h k e p r rest) =
      let a = subst (λ o. Adds Q h o.1) p (x s h f) in
      Adds-trans Q a (Tries-keep body x keep (keep h k a f) rest)

  -- The rule for a retry helper, where `F` holds before it and keeps to hold.
  pub Adds-retry :
      {retriable : Error → Bool} {n : ℕ} (L : RetryLib C) (body : Body C S) (s : S) (h : List C)
      → IsRetryLib retriable n L
      → ((t : S) (k : List C) → F k → Adds Q k (body t k).1)
      → ((k l : List C) → Adds Q k l → F k → F l)
      → F h
      → Adds Q h (L.retry body s h).1
  Adds-retry L body s h law x keep f = Tries-keep body x keep f (law.tries body s h)
