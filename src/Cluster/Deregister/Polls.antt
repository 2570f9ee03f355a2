-- ===== src/Cluster/Deregister/Polls.antt =====
-- The loops that wait until there are no slices and no slice gateways.
use worker_operator.Base.{
  ℕ, zero, suc, ◌+◌, ◌≤◌, Bool, true, false, List, ◌∷◌, Result, ok, err, nat_eq, if◌then◌else◌, ◌≡◌,
  refl, arith, ap, Run, returned, perform, emit, return, ◌>>=◌, ◌>>◌, length, same, more,
  Adds-trans, Did, did_now, Holds, Holds-return, Holds-ask, Holds-if,
}
use worker_operator.Cluster.Calls.{Call, slept, Env, listed_slices, listed_slice_gateways}
use worker_operator.Cluster.Deregister.{
  is_empty_list, list_until_empty, retry_list_slice, retry_list_slice_gw,
}

module _ (E : Env) (respond : List Call → Result ℕ) (note : Result ℕ → Call) where
  abbrev pub IsEmptyList : Call → Type 0
  IsEmptyList c = c ≡ note (ok 0)

  -- A list that is taken for empty was.
  abbrev pub Found : Bool → List Call → Type 0
  Found b k = b ≡ true → Did IsEmptyList k

  Found-answer : (a : Result ℕ) (h : List Call) → Found (is_empty_list a) (note a ∷ h)
  unfolding is_empty_list
  Found-answer (err e) h f = cc
  Found-answer (ok n) h e = did_now (note (ok n)) (ap (λ m. note (ok m)) (ground (arith, e)))

  module _ (Q : List Call → Call → Type 0) (listing : (h : List Call) (a : Result ℕ) → Q h (note a))
      (sleeping : (h : List Call) → Q h (slept 5)) where
    Holds-wait :
        (left : ℕ) (h : List Call)
        → ((k : List Call) → Holds Q Found k (list_until_empty E (perform respond note) left k))
        → Holds Q Found h ((emit (slept 5) >> list_until_empty E (perform respond note) left) h)
    unfolding emit ◌>>◌ ◌>>=◌
    Holds-wait left h later =
        let z = later (slept 5 ∷ h) in (Adds-trans Q (more (slept 5) same (sleeping h)) z.0, z.1)

    pub Holds-list_until_empty :
        (left : ℕ) (h : List Call)
        → Holds Q Found h (list_until_empty E (perform respond note) left h)
    unfolding list_until_empty
    Holds-list_until_empty zero h =
        Holds-ask Q Found _ _ _ h (listing h)
          (λ a. Holds-return Q Found (is_empty_list a) _ (Found-answer a h))
    Holds-list_until_empty (suc left) h = Holds-ask Q Found _ _ _ h (listing h) (λ a.
        Holds-if Q Found (is_empty_list a) _ _ _
          (λ e. Holds-return Q Found true _ (λ _. Found-answer a h e))
          (λ _. Holds-wait left _ (Holds-list_until_empty left)))

  -- A run that returns a value, with at most `n` calls.
  abbrev pub Stops : ℕ → List Call → Run Bool × List Call → Type 0
  Stops n h out = (b : Bool) × (k : List Call) × (out ≡ (returned b, k)) × (length k ≤ length h + n)

  Stops-now : (n : ℕ) (b : Bool) (c : Call) (h : List Call) → Stops (suc n) h (returned b, c ∷ h)
  Stops-now n b c h = (b, c ∷ h, refl, omega arith)

  Stops-later :
      (n : ℕ) (a c : Call) (h : List Call) (out : Run Bool × List Call)
      → Stops n (a ∷ c ∷ h) out
      → Stops (suc (suc n)) h out
  Stops-later n a c h out (b, k, e, l) = (b, k, e, omega (arith, l))

  Stops-if :
      (b : Bool) (left : ℕ) (a : Call) (h : List Call)
      → ((k : List Call)
          → Stops (left + left + 1) k (list_until_empty E (perform respond note) left k))
      → Stops (suc (suc (left + left + 1))) h (
          (if b
              then return true
              else emit (slept 5) >> list_until_empty E (perform respond note) left)
            (a ∷ h))
  unfolding emit ◌>>◌ ◌>>=◌ return
  Stops-if true left a h later = Stops-now (suc (left + left + 1)) true a h
  Stops-if false left a h later = Stops-later (left + left + 1) (slept 5) a h _ (later _)

  list_until_empty-Stops :
      (left : ℕ) (h : List Call)
      → Stops (left + left + 1) h (list_until_empty E (perform respond note) left h)
  unfolding list_until_empty perform ◌>>=◌ return
  list_until_empty-Stops zero h = Stops-now 0 (is_empty_list (respond h)) _ h
  list_until_empty-Stops (suc left) h =
      let s =
        Stops-if (is_empty_list (respond h)) left (note (respond h)) h
          (list_until_empty-Stops left) in
      (s.0, s.1, s.2, omega (arith, s.3))

-- The waits for the slices and for the slice gateways to be gone come to an end: with a limit of `n`
-- retries each makes at most `2 * n + 1` calls, pauses included, and returns a value.
pub retry_list_slice-Stops :
    (E : Env) (n : ℕ) (h : List Call)
    → Stops E E.list_slices listed_slices (n + n + 1) h (retry_list_slice E n h)
      × Stops E E.list_slice_gateways listed_slice_gateways
          (n + n + 1)
          h
          (retry_list_slice_gw E n h)
unfolding retry_list_slice retry_list_slice_gw
retry_list_slice-Stops E n h = (
  list_until_empty-Stops E E.list_slices listed_slices n h,
  list_until_empty-Stops E E.list_slice_gateways listed_slice_gateways n h,
)
