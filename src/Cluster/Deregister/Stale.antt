-- ===== src/Cluster/Deregister/Stale.antt =====
-- A deregistration whose objects are there already, and the count of the failed ones.
use worker_operator.Base.{
  String, List, ◌∷◌, Result, ok, err, Error, not_found, already_exists, conflict, other, string_eq,
  nat_eq, not, RetryLib, ◌≡◌, ◌≢◌, return, Did, did_now, did_before, Post, Post-bind, Post-after,
  Post-ask, Post-if, is_already_exists,
}
use worker_operator.Cluster.Calls.{
  HubCluster, Stored, CleanupJob, Resource, config_map, job, Call, got_config_map, got_job, Env,
  Action,
}
use worker_operator.Cluster.Deregister.{
  ensure, replace, start_job, store_script, load_script, grant_access, start_deregistration,
  create_deregister_job, run_deregistration,
}

-- What the API server does: it gives each object a version, and does not create an object that has one.
pub record IsVersioning (E : Env) : Type 0 where
  pub map_versioned :
      (h : List Call) (name : String) (found : Stored String)
      → E.get_config_map h name ≡ ok found
      → found.resource_version ≢ ""
  pub job_versioned :
      (h : List Call) (name : String) (found : Stored CleanupJob)
      → E.get_job h name ≡ ok found
      → found.resource_version ≢ ""
  pub map_refused :
      (h : List Call) (m : Stored String)
      → m.resource_version ≢ ""
      → E.create h (config_map m) ≡ err other
  pub job_refused :
      (h : List Call) (j : Stored CleanupJob)
      → j.resource_version ≢ ""
      → E.create h (job j) ≡ err other

-- A read that does not find the object.
pub data IsMapMissing : Call → Type 0 where
  map_missing : (name : String) (e : Error) → IsMapMissing (got_config_map name (err e))

pub data IsJobMissing : Call → Type 0 where
  job_missing : (name : String) (e : Error) → IsJobMissing (got_job name (err e))

-- A success after reads that found neither object.
abbrev pub Anew : Result (Unit {0}) → List Call → Type 0
Anew r k = r ≡ ok tt → Did IsMapMissing k × Did IsJobMissing k

module _ (E : Env) (law : IsVersioning E) where
  -- An action that, where `F` was seen, succeeds only anew.
  abbrev Wary : (Call → Type 0) → Action (Result (Unit {0})) → Type 0
  Wary F m = (h : List Call) → Did F h → Post Anew (m h)

  Anew-err : (e : Error) (k : List Call) → Anew (err e) k
  Anew-err e k p = cc

  Post-err : (e : Error) (k : List Call) → Post Anew (return (err e) k)
  unfolding return
  Post-err e k = Anew-err e k

  Post-ensure :
      (o : Resource) (rest : Action (Result (Unit {0}))) (h : List Call)
      → ((c : Call) → Post Anew (rest (c ∷ h)))
      → Post Anew (ensure E o rest h)
  unfolding ensure
  Post-ensure o rest h s = Post-ask Anew _ _ _ h (elim [
    | err e ↦ λ p. Post-if Anew (is_already_exists e) _ _ _ (λ _. s _) (λ _. Post-err e _)
    | ok u ↦ λ p. s _
  ])

  Post-refused :
      (o : Resource) (rest : Action (Result (Unit {0})))
      → ((h : List Call) → E.create h o ≡ err other)
      → (h : List Call) → Post Anew (ensure E o rest h)
  unfolding ensure
  Post-refused o rest r h = Post-ask Anew _ _ _ h (elim [
    | err not_found ↦ λ p. Post-err _ _
    | err already_exists ↦ λ p. let q = r h in cc
    | err conflict ↦ λ p. Post-err _ _
    | err other ↦ λ p. Post-err _ _
    | ok u ↦ λ p. let q = r h in cc
  ])

  Post-replace :
      (o : Resource) (rest : Action (Result (Unit {0})))
      → ((h : List Call) → E.create h o ≡ err other)
      → (h : List Call) → Post Anew (replace E o rest h)
  unfolding replace
  Post-replace o rest r h =
      Post-ask Anew _ _ _ h
        (elim [ err e ↦ λ p. Post-err e _ | ok u ↦ λ p. Post-refused o rest r _ ])

  Post-done :
      (h : List Call) → Did IsMapMissing h → Did IsJobMissing h → Post Anew (return (ok tt) h)
  unfolding return
  Post-done h m j p = (m, j)

  Post-start_job : Wary IsMapMissing (start_job E)
  unfolding start_job
  Post-start_job h m = Post-ask Anew _ _ _ h (elim [
    | err e ↦ λ p. Post-ensure _ _ _ (λ c.
        Post-done _ (did_before c (did_before _ m)) (did_before c (did_now _ (job_missing _ e))))
    | ok found ↦
        λ p. Post-replace _ _ (λ k. law.job_refused k found (law.job_versioned h _ found p)) _
  ])

  Post-store_script : (text : String) (h : List Call) → Post Anew (store_script E text h)
  unfolding store_script
  Post-store_script text h = Post-ask Anew _ _ _ h (elim [
    | err e ↦
        λ p. Post-ensure _ _ _ (λ c. Post-start_job _ (did_before c (did_now _ (map_missing _ e))))
    | ok found ↦
        λ p. Post-replace _ _ (λ k. law.map_refused k found (law.map_versioned h _ found p)) _
  ])

  Post-load_script : (h : List Call) → Post Anew (load_script E h)
  unfolding load_script
  Post-load_script h =
      Post-ask Anew _ _ _ h
        (elim [ err e ↦ λ p. Post-err e _ | ok text ↦ λ p. Post-store_script text _ ])

  Post-grant_access : (h : List Call) → Post Anew (grant_access E h)
  unfolding grant_access
  Post-grant_access h = Post-ensure _ _ h (λ c. Post-ask Anew _ _ _ _ (elim [
    | err e ↦ λ p. Post-err e _
    | ok rules ↦ λ p. Post-ask Anew _ _ _ _ (elim [
      | err e ↦ λ q. Post-err e _
      | ok uid ↦ λ q. Post-ensure _ _ _ (λ d. Post-ensure _ _ _ (λ d'. Post-load_script _))
    ])
  ]))

  Post-start_deregistration : (h : List Call) → Post Anew (start_deregistration E h)
  unfolding start_deregistration
  Post-start_deregistration h = Post-after Anew _ _ h (λ b k.
      Post-if Anew (not b) _ _ k (λ _. Post-err _ _)
        (λ _.
          Post-after Anew _ _ k (λ b' k'.
            Post-if Anew (not b') _ _ k' (λ _. Post-err _ _) (λ _. Post-grant_access k'))))

  module _ (R : RetryLib Call) where
    Post-run_deregistration :
        (marked : HubCluster × Result (Unit {0})) (h : List Call)
        → Post (λ out k. Anew out.1 k) (run_deregistration E R marked h)
    unfolding run_deregistration return
    Post-run_deregistration (c, err e) h = Anew-err e h
    Post-run_deregistration (c, ok u) h =
        Post-bind Anew _ _ _ h (Post-start_deregistration h) (λ r k a. a)

    -- A deregistration succeeds only if it finds neither the config map nor the job of an earlier one:
    -- an object that is found is deleted, and then created with the version it had, which the API
    -- server refuses.
    pub create_deregister_job-Anew :
        (c : HubCluster) (h : List Call)
        → Post (λ out k. Anew out.1 k) (create_deregister_job E R c h)
    unfolding create_deregister_job
    create_deregister_job-Anew c h = Post-after _ _ _ h Post-run_deregistration
