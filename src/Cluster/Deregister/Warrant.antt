-- ===== src/Cluster/Deregister/Warrant.antt =====
-- When the objects of the deregistration are created and deleted.
use worker_operator.Base.{
  ℕ, ◌<◌, String, Bool, true, false, not, List, ◌∷◌, Result, ok, err, Error, string_eq, nat_eq,
  contains, if◌then◌else◌, RetryLib, IsRetryLib, ◌≡◌, ◌≢◌, refl, arith, perform, return, ◌>>=◌,
  Adds, Emits, Emits-return, Emits-bind, Emits-perform, Emits-emit, Emits-if, Emits-retry_lib,
  Adds-ask, Adds-if, Did, did_now, did_before, Did-Adds, Holds, Holds-return, Holds-ask,
  Holds-retry, Adds-hold, Adds-after, is_already_exists,
}
use worker_operator.Cluster.Calls.{
  HubCluster, Resource, Call, got_cluster, updated_cluster_status, listed_slices,
  listed_slice_gateways, created, deleted, Env, Action,
}
use worker_operator.Cluster.Deregister.{
  cluster_deregister_finalizer, max_deregistration_attempts, deregister_in_progress,
  deregister_failed, retry_list_slice, retry_list_slice_gw, ensure, replace, start_job,
  store_script, load_script, grant_access, start_deregistration, set_registration_status,
  update_registration_status, create_deregister_job, run_deregistration, settle, is_due,
  register_finalizer, deregister, handle_cluster_deletion,
}
use worker_operator.Cluster.Deregister.Polls.{Found, Holds-list_until_empty}

-- The read of a cluster that is being deleted, has the finalizer, and is not marked as being
-- deregistered.
pub data IsDoomed : Call → Type 0 where
  doomed :
      (name : String) (c : HubCluster)
      → c.deleting ≡ true
      → contains c.finalizers cluster_deregister_finalizer ≡ true
      → c.registration_status ≢ deregister_in_progress
      → IsDoomed (got_cluster name (ok c))

-- The write that marks the cluster as being deregistered, done.
pub data IsMark : Call → Type 0 where
  mark :
      (c : HubCluster)
      → c.registration_status ≡ deregister_in_progress
      → IsMark (updated_cluster_status c (ok tt))

-- What was seen before the deregistration starts: the cluster to delete, its mark, and that there
-- are no slices and no slice gateways.
pub record Cleared (attempts : ℕ) (k : List Call) : Type 0 where
  pub allowed : attempts < max_deregistration_attempts
  pub is_deleted : Did IsDoomed k
  pub is_marked : Did IsMark k
  pub no_slices : Did (λ c. c ≡ listed_slices (ok 0)) k
  pub no_gateways : Did (λ c. c ≡ listed_slice_gateways (ok 0)) k

-- An object of the deregistration is created or deleted only where that was seen.
abbrev pub Warranted : ℕ → List Call → Call → Type 0
Warranted n k (created o r) = Cleared n k
Warranted n k (deleted o r) = Cleared n k
Warranted n k _ = Unit

module _ (E : Env) (n : ℕ) where
  abbrev Q : List Call → Call → Type 0
  Q = Warranted n

  Cleared-next : {k : List Call} (c : Call) → Cleared n k → Cleared n (c ∷ k)
  Cleared-next c x = record {
    allowed = x.allowed;
    is_deleted = did_before c x.is_deleted;
    is_marked = did_before c x.is_marked;
    no_slices = did_before c x.no_slices;
    no_gateways = did_before c x.no_gateways;
  }

  -- An action that is warranted.
  abbrev Safe : {A : Type 0} → Action A → Type 0
  Safe m = (h : List Call) → Cleared n h → Adds Q h (m h).1

  Safe-return : {A : Type 0} (a : A) → Safe (return a)
  Safe-return a h x = Emits-return Q a h

  Safe-ask :
      {A B : Type 0} (respond : List Call → A) (note : A → Call) (f : A → Action B)
      → ((h : List Call) (a : A) → Cleared n h → Q h (note a))
      → ((a : A) → Safe (f a))
      → Safe (perform respond note >>= f)
  Safe-ask respond note f q s h x =
      Adds-ask Q respond note f h (λ a. q h a x) (λ a. s a _ (Cleared-next _ x))

  Safe-if : {A : Type 0} (b : Bool) (l m : Action A) → Safe l → Safe m → Safe (if b then l else m)
  Safe-if true l m x y = x
  Safe-if false l m x y = y

  Safe-ensure :
      (o : Resource) (rest : Action (Result (Unit {0}))) → Safe rest → Safe (ensure E o rest)
  unfolding ensure
  Safe-ensure o rest s =
      Safe-ask _ _ _ (λ h a x. x)
        (elim [ err e ↦ Safe-if (is_already_exists e) _ _ s (Safe-return _) | ok _ ↦ s ])

  Safe-replace :
      (o : Resource) (rest : Action (Result (Unit {0}))) → Safe rest → Safe (replace E o rest)
  unfolding replace
  Safe-replace o rest s =
      Safe-ask _ _ _ (λ h a x. x) (elim [ err e ↦ Safe-return _ | ok _ ↦ Safe-ensure o rest s ])

  Safe-start_job : Safe (start_job E)
  unfolding start_job
  Safe-start_job =
      Safe-ask _ _ _ (λ h a x. tt)
        (elim [
          | err e ↦ Safe-ensure _ _ (Safe-return _)
          | ok found ↦ Safe-replace _ _ (Safe-return _)
        ])

  Safe-store_script : (text : String) → Safe (store_script E text)
  unfolding store_script
  Safe-store_script text =
      Safe-ask _ _ _ (λ h a x. tt)
        (elim [
          | err e ↦ Safe-ensure _ _ Safe-start_job
          | ok found ↦ Safe-replace _ _ Safe-start_job
        ])

  Safe-load_script : Safe (load_script E)
  unfolding load_script
  Safe-load_script =
      Safe-ask _ _ _ (λ h a x. tt)
        (elim [ err e ↦ Safe-return _ | ok text ↦ Safe-store_script text ])

  Safe-grant_access : Safe (grant_access E)
  unfolding grant_access
  Safe-grant_access = Safe-ensure _ _ (
      Safe-ask _ _ _ (λ h a x. tt)
        (elim [
          | err e ↦ Safe-return _
          | ok rules ↦
              Safe-ask _ _ _ (λ h a x. tt)
                (elim [
                  | err e ↦ Safe-return _
                  | ok uid ↦ Safe-ensure _ _ (Safe-ensure _ _ Safe-load_script)
                ])
        ]))

  -- What was seen before the lists.
  abbrev Doomed : List Call → Type 0
  Doomed k = (n < max_deregistration_attempts) × Did IsDoomed k × Did IsMark k

  Doomed-Adds : {h k : List Call} → Doomed h → Adds Q h k → Doomed k
  Doomed-Adds d a = (d.0, Did-Adds IsDoomed d.1 a, Did-Adds IsMark d.2 a)

  clear :
      (h : List Call)
      → Doomed h
      → Did (λ c. c ≡ listed_slices (ok 0)) h
      → Did (λ c. c ≡ listed_slice_gateways (ok 0)) h
      → Cleared n h
  clear h d s g = record {
    allowed = d.0;
    is_deleted = d.1;
    is_marked = d.2;
    no_slices = s;
    no_gateways = g;
  }

  Adds-check_gateways :
      (h : List Call)
      → Doomed h
      → Did (λ c. c ≡ listed_slices (ok 0)) h
      → (b : Bool) (k : List Call) → Adds Q h k
      → Found E E.list_slice_gateways listed_slice_gateways b k
      → Adds Q k ((if not b then return (err Error.other) else grant_access E) k).1
  Adds-check_gateways h d s true k a f =
      Safe-grant_access k (clear k (Doomed-Adds d a) (Did-Adds _ s a) (f refl))
  Adds-check_gateways h d s false k a f = Emits-return Q _ k

  Adds-check_slices :
      (h : List Call)
      → Doomed h
      → (b : Bool) (k : List Call) → Adds Q h k
      → Found E E.list_slices listed_slices b k
      → Adds Q k
          ((if not b then return (err Error.other) else (do
            no_gateways ← retry_list_slice_gw E 3
            if not no_gateways then return (err Error.other) else grant_access E))
            k).1
  unfolding retry_list_slice_gw
  Adds-check_slices h d true k a f =
      Adds-hold Q (Found E E.list_slice_gateways listed_slice_gateways) _ _ k
        (Holds-list_until_empty E E.list_slice_gateways listed_slice_gateways Q (λ h a. tt)
          (λ h. tt) 3 k)
        (Adds-check_gateways k (Doomed-Adds d a) (f refl))
  Adds-check_slices h d false k a f = Emits-return Q _ k

  Adds-start_deregistration : (h : List Call) → Doomed h → Adds Q h (start_deregistration E h).1
  unfolding start_deregistration retry_list_slice
  Adds-start_deregistration h d =
      Adds-hold Q (Found E E.list_slices listed_slices) _ _ h
        (Holds-list_until_empty E E.list_slices listed_slices Q (λ h a. tt) (λ h. tt) 3 h)
        (Adds-check_slices h d)

  -- Where the status is written, the mark is among the calls.
  abbrev HasMark : HubCluster × Result (Unit {0}) → List Call → Type 0
  HasMark (c, err e) k = Unit
  HasMark (c, ok u) k = Did IsMark k

  HasMark-done :
      (c : HubCluster) (a : Result (Unit {0})) (h : List Call)
      → c.registration_status ≡ deregister_in_progress
      → HasMark (c, a) (updated_cluster_status c a ∷ h)
  HasMark-done c (err e) h m = tt
  HasMark-done c (ok tt) h m = did_now _ (mark c m)

  Holds-set_registration_status :
      (c : HubCluster) (h : List Call)
      → Holds Q HasMark h (set_registration_status E deregister_in_progress c h)
  unfolding set_registration_status
  Holds-set_registration_status c h =
      Holds-ask Q HasMark _ _ _ h (λ a. tt)
        (elim [
          | err e ↦ Holds-return Q HasMark (c, err e) _ tt
          | ok c' ↦
              Holds-ask Q HasMark _ _ _ _ (λ a. tt)
                (λ a.
                  Holds-return Q HasMark
                    (record c' { registration_status = deregister_in_progress }, a) _
                    (HasMark-done (record c' { registration_status = deregister_in_progress }) a _
                      refl))
        ])

  Emits-set_registration_status :
      (status : String) (c : HubCluster) → Emits Q (set_registration_status E status c)
  unfolding set_registration_status
  Emits-set_registration_status status c = Emits-bind Q _ _ (Emits-perform Q _ _ (λ h. tt)) (elim [
    | err e ↦ Emits-return Q _
    | ok c' ↦ Emits-bind Q _ _ (Emits-perform Q _ _ (λ h. tt)) (λ a. Emits-return Q _)
  ])

module _ (E : Env) {retriable : Error → Bool} {limit : ℕ} (R : RetryLib Call)
    (law : IsRetryLib retriable limit R) (n : ℕ) where
  pub Emits-update_registration_status :
      (c : HubCluster) (status : String)
      → Emits (Warranted n) (update_registration_status E R c status)
  unfolding update_registration_status
  Emits-update_registration_status c status =
      Emits-retry_lib (Warranted n) R _ c law (Emits-set_registration_status E n status)

  Adds-run_deregistration :
      (h : List Call)
      → n < max_deregistration_attempts
      → Did IsDoomed h
      → (marked : HubCluster × Result (Unit {0})) (k : List Call) → Adds (Warranted n) h k
      → HasMark E n marked k
      → Adds (Warranted n) k (run_deregistration E R marked k).1
  unfolding run_deregistration
  Adds-run_deregistration h l d (c, err e) k a m = Emits-return (Warranted n) _ k
  Adds-run_deregistration h l d (c, ok u) k a m =
      Adds-after (Warranted n) (Warranted n) _ _ k
        (Adds-start_deregistration E n k (l, Did-Adds IsDoomed d a, m))
        (Adds-start_deregistration E n k (l, Did-Adds IsDoomed d a, m))
        (λ done j b. Emits-return (Warranted n) _ j)

  Adds-create_deregister_job :
      (c : HubCluster) (h : List Call)
      → n < max_deregistration_attempts
      → Did IsDoomed h
      → Adds (Warranted n) h (create_deregister_job E R c h).1
  unfolding create_deregister_job update_registration_status
  Adds-create_deregister_job c h l d =
      Adds-hold (Warranted n) (HasMark E n) _ _ h
        (Holds-retry (Warranted n) (λ t. Unit) (HasMark E n) R _ c h law
          (λ t k i. Holds-set_registration_status E n t k) (λ t e k m. tt) tt)
        (Adds-run_deregistration h l d)

  Emits-settle :
      (m : ℕ) (made : HubCluster × Result (Unit {0})) → Emits (Warranted n) (settle E R m made)
  unfolding settle
  Emits-settle m (c, ok u) = Emits-return (Warranted n) _
  Emits-settle m (c, err e) =
      Emits-bind (Warranted n) _ _ (Emits-update_registration_status c deregister_failed) (λ noted.
        Emits-bind (Warranted n) _ _ (Emits-emit (Warranted n) _ (λ h. tt))
          (λ u. Emits-return (Warranted n) _))

  Emits-register_finalizer : (c : HubCluster) → Emits (Warranted n) (register_finalizer E R n c)
  unfolding register_finalizer
  Emits-register_finalizer c =
      Emits-if (Warranted n) (contains c.finalizers cluster_deregister_finalizer) _ _
        (λ _. Emits-return (Warranted n) _)
        (λ _.
          Emits-bind (Warranted n) _ _ (Emits-perform (Warranted n) _ _ (λ h. tt))
            (elim [ err e ↦ Emits-return (Warranted n) _ | ok u ↦ Emits-return (Warranted n) _ ]))

  -- The test of the deletion, read off.
  is_due-true :
      (c : HubCluster)
      → is_due n c ≡ true
      → (contains c.finalizers cluster_deregister_finalizer ≡ true)
        × (c.registration_status ≢ deregister_in_progress)
        × (n < max_deregistration_attempts)
  is_due-true c e = (ground arith, ground arith, ground arith)

  pub Adds-handle_cluster_deletion :
      (name : String) (c : HubCluster) (h : List Call)
      → Adds
          (Warranted n)
          (got_cluster name (ok c) ∷ h)
          (handle_cluster_deletion E R n c (got_cluster name (ok c) ∷ h)).1
  unfolding handle_cluster_deletion deregister
  Adds-handle_cluster_deletion name c h =
      Adds-if (Warranted n) c.deleting _ _ _
        (λ deleting.
          Adds-if (Warranted n) (is_due n c) _ _ _
            (λ due.
              let d = is_due-true c due in
              let a =
                Adds-create_deregister_job c _ d.2 (did_now _ (doomed name c deleting d.0 d.1)) in
              Adds-after (Warranted n) (Warranted n) _ _ _ a a (λ made k b. Emits-settle n made k))
            (λ _. Emits-return (Warranted n) _ _))
        (λ _. Emits-register_finalizer c _)
