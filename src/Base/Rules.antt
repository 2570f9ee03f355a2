-- ===== src/Base/Rules.antt =====
-- Further rules for what a run adds to the calls, at given calls before it.
use mathlib.Core.List.{List, ◌∷◌}
use worker_operator.Base.Effects.{
  Run, returned, panicked, M, continue, ◌>>=◌, perform, Adds, same, more, Adds-trans, Emits,
  Emits-bind,
}
use worker_operator.Base.Results.{Result, ok, err, Error}

module _ {C : Type 0} (Q : List C → C → Type 0) where
  -- The rule for a call, at the calls before it.
  pub Adds-ask :
      {R B : Type 0} (respond : List C → R) (note : R → C) (f : R → M C B) (h : List C)
      → ((r : R) → Q h (note r))
      → ((r : R) → Adds Q (note r ∷ h) (f r (note r ∷ h)).1)
      → Adds Q h ((perform respond note >>= f) h).1
  unfolding perform ◌>>=◌
  Adds-ask respond note f h q k =
      Adds-trans Q (more (note (respond h)) same (q (respond h))) (k (respond h))

  Adds-continue-after :
      {A B : Type 0} (P : List C → C → Type 0) (f : A → M C B) (h : List C) (out : Run A × List C)
      → Adds P h out.1
      → Adds Q h out.1
      → ((a : A) (k : List C) → Adds P h k → Adds Q k (f a k).1)
      → Adds Q h (continue f out).1
  unfolding continue
  Adds-continue-after P f h (returned a, k) p q r = Adds-trans Q q (r a k p)
  Adds-continue-after P f h (panicked, k) p q r = q

  -- The rule for a sequence, where what follows may use that the calls before it meet `P` too.
  pub Adds-after :
      {A B : Type 0} (P : List C → C → Type 0) (m : M C A) (f : A → M C B) (h : List C)
      → Adds P h (m h).1
      → Adds Q h (m h).1
      → ((a : A) (k : List C) → Adds P h k → Adds Q k (f a k).1)
      → Adds Q h ((m >>= f) h).1
  unfolding ◌>>=◌
  Adds-after P m f h p q r = Adds-continue-after P f h (m h) p q r

  -- The rule for an action that returns a value and whether it failed.
  pub Emits-outcome :
      {S B : Type 0} (m : M C (S × Result (Unit {0}))) (f : S × Result (Unit {0}) → M C B)
      → Emits Q m
      → ((s : S) (e : Error) → Emits Q (f (s, err e)))
      → ((s : S) (u : Unit {0}) → Emits Q (f (s, ok u)))
      → Emits Q (m >>= f)
  Emits-outcome {S = S} m f x failed done = Emits-bind Q m f x split
    where
      split : (out : S × Result (Unit {0})) → Emits Q (f out)
      split (s, err e) = failed s e
      split (s, ok u) = done s u
