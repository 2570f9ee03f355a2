-- ===== src/Cluster/Deregister/Attempts.antt =====
-- The count of the failed deregistrations.
use worker_operator.Base.{
  ℕ, ◌+◌, ◌≤◌, ◌<◌, String, true, none, List, Result, ok, err, string_eq, nat_eq, contains, ◌⊎◌,
  inl, inr, RetryLib, ◌≡◌, ◌≢◌, refl, arith, return, Post, Post-bind, Post-after, Post-ask, Post-if,
}
use worker_operator.Cluster.Calls.{HubCluster, Call, Env}
use worker_operator.Cluster.Deregister.{
  max_deregistration_attempts, Handling, is_due, register_finalizer, settle, deregister,
  handle_cluster_deletion, cluster_deregister_finalizer,
}
use worker_operator.Cluster.Reconcile.{Outcome, continue_with, reconcile}

module _ (E : Env) (R : RetryLib Call) where
  -- The count stays, or a deregistration that was due has failed and is counted.
  abbrev pub Counted : ℕ → Handling → List Call → Type 0
  Counted n v k =
      (v.attempts ≡ n)
      ⊎ ((v.attempts ≡ n + 1)
          × (n < max_deregistration_attempts)
          × (v.stop ≡ true)
          × (v.error ≢ none))

  Post-settle :
      (n : ℕ) (made : HubCluster × Result (Unit {0})) (h : List Call)
      → n < max_deregistration_attempts
      → Post (Counted n) (settle E R n made h)
  unfolding settle return
  Post-settle n (c, ok u) h l = inl refl
  Post-settle n (c, err e) h l =
      Post-after (Counted n) _ _ h
        (λ noted k. Post-after (Counted n) _ _ k (λ u j. inr (refl, l, refl, λ p. cc)))

  is_due-bounded : (n : ℕ) (c : HubCluster) → is_due n c ≡ true → n < max_deregistration_attempts
  is_due-bounded n c e = ground arith

  Post-register_finalizer :
      (n : ℕ) (c : HubCluster) (h : List Call) → Post (Counted n) (register_finalizer E R n c h)
  unfolding register_finalizer return
  Post-register_finalizer n c h =
      Post-if (Counted n) (contains c.finalizers cluster_deregister_finalizer) _ _ h (λ _. inl refl)
        (λ _. Post-ask (Counted n) _ _ _ h (elim [ err e ↦ λ p. inl refl | ok u ↦ λ p. inl refl ]))

  handle_cluster_deletion-Counted :
      (n : ℕ) (c : HubCluster) (h : List Call)
      → Post (Counted n) (handle_cluster_deletion E R n c h)
  unfolding handle_cluster_deletion deregister return
  handle_cluster_deletion-Counted n c h =
      Post-if (Counted n) c.deleting _ _ h
        (λ _.
          Post-if (Counted n) (is_due n c) _ _ h
            (λ due.
              Post-after (Counted n) _ _ h
                (λ made k. Post-settle n made k (is_due-bounded n c due)))
            (λ _. inl refl))
        (λ _. Post-register_finalizer n c h)

  abbrev pub IsBounded : ℕ → ℕ × Outcome → List Call → Type 0
  IsBounded n out k = (n ≤ out.0) × (out.0 ≤ n + 1) × (out.0 ≤ max_deregistration_attempts)

  Counted-IsBounded :
      (n : ℕ) (v : Handling) (k : List Call) (o : Outcome)
      → n ≤ max_deregistration_attempts
      → Counted n v k
      → IsBounded n (v.attempts, o) k
  Counted-IsBounded n v k o l (inl e) = (omega (arith, e), omega (arith, e), omega (arith, e, l))
  Counted-IsBounded n v k o l (inr (e, b, s, f)) =
      (omega (arith, e), omega (arith, e), omega (arith, e, b))

  Post-continue_with :
      (n : ℕ) (v : Handling) (k : List Call)
      → n ≤ max_deregistration_attempts
      → Counted n v k
      → Post (IsBounded n) (continue_with E R v k)
  unfolding continue_with return
  Post-continue_with n v k l c =
      Post-if (IsBounded n) v.stop _ _ k (λ _. Counted-IsBounded n v k (v.result, v.error) l c)
        (λ _. Post-after (IsBounded n) _ _ k (λ o j. Counted-IsBounded n v k o l c))

  -- The count of the failed deregistrations, which starts at zero, grows by at most one in a run of
  -- the cluster controller, never falls and never exceeds three.
  pub reconcile-IsBounded :
      (n : ℕ) (name : String) (h : List Call)
      → n ≤ max_deregistration_attempts
      → Post (IsBounded n) (reconcile E R n name h)
  unfolding reconcile return
  reconcile-IsBounded n name h l = Post-ask (IsBounded n) _ _ _ h (elim [
    | err e ↦ λ p. (omega arith, omega arith, omega (arith, l))
    | ok c ↦ λ p.
        Post-bind (Counted n) (IsBounded n) _ _ _ (handle_cluster_deletion-Counted n c _)
          (λ v k x. Post-continue_with n v k l x)
  ])
