-- ===== src/Cluster/Status/Settled.antt =====
-- What the steps that write the cluster leave behind when they let the reconciliation go on.
use worker_operator.Base.{
  ℕ, String, Bool, true, false, Option, none, some, List, [], ◌∷◌, Result, ok, err, Error, ◌==◌,
  string_eq, nat_eq, ◌≡◌, ◌≢◌, ◌↔◌, refl, sym, ap, arith, length, get_or, RetryLib, IsRetryLib,
  lookup, emit, return, ◌>>=◌, ◌>>◌, Did, did_now, Post, Post-bind, Post-after, Post-ask, Post-if,
  Post-retry,
}
use worker_operator.Cluster.Calls.{HubCluster, Call, got_node_ip, Env}
use worker_operator.Cluster.Location.{
  get_nsm_excluded_prefix, read_prefixes, unless_empty, prefixes_key,
}
use worker_operator.Cluster.Health.{not_empty}
use worker_operator.Cluster.Status.{
  same_texts, validate_node_ips, is_stale, is_deep_equal, Held, Step, step_of, with_subnets,
  set_subnets, set_node_ips, update_cni_subnet_config, update_node_ips, note_node_ips,
}

same_texts-eq : (xs ys : List String) → (same_texts xs ys ≡ true) ↔ (xs ≡ ys)
same_texts-eq [] [] = (λ h. refl, λ h. refl)
same_texts-eq [] (y ∷ ys) = (λ h. cc, λ h. cc)
same_texts-eq (x ∷ xs) [] = (λ h. cc, λ h. cc)
same_texts-eq (x ∷ xs) (y ∷ ys) =
    (λ h. ground (arith, same_texts-eq xs ys), λ h. ground (arith, same_texts-eq xs ys))

-- Two lists of addresses are found valid exactly if they are the same.
pub validate_node_ips-eq :
    (total current : List String) → (validate_node_ips total current ≡ true) ↔ (total ≡ current)
unfolding validate_node_ips
validate_node_ips-eq total current =
    let s = same_texts-eq total current in
    (λ h. s.0 (ground arith), λ e. ground (arith, ap length e, s.1 e))

module _ (E : Env) where
  -- The cluster was read, and the addresses of the nodes are those that were got for it; there is
  -- at least one.
  abbrev pub IpsAgree : HubCluster → List Call → Type 0
  IpsAgree c k = (c.node_ips ≢ []) × Did (λ d. d ≡ got_node_ip c.network_present (ok c.node_ips)) k

  -- The outcome of a body that settles what `P` says, unless it was to update or failed.
  abbrev Settles : (HubCluster → List Call → Type 0) → Held × Result (Unit {0}) → List Call → Type 0
  Settles P ((c, true), r) k = Unit
  Settles P ((c, false), err e) k = Unit
  Settles P ((c, false), ok u) k = P c k

  Settles-err :
      (P : HubCluster → List Call → Type 0) (c : HubCluster) (b : Bool) (e : Error) (k : List Call)
      → Settles P ((c, b), err e) k
  Settles-err P c true e k = tt
  Settles-err P c false e k = tt

  Settles-ok :
      (P : HubCluster → List Call → Type 0) (c : HubCluster) (b : Bool) (k : List Call)
      → P c k
      → Settles P ((c, b), ok tt) k
  Settles-ok P c true k p = tt
  Settles-ok P c false k p = p

  fresh-ips :
      (l current : List String) → is_stale l current ≡ false → (current ≢ []) × (l ≡ current)
  unfolding is_stale
  fresh-ips l [] h = cc
  fresh-ips l (x ∷ xs) h = (λ e. cc, (validate_node_ips-eq l (x ∷ xs)).0 (ground (arith, h)))

  Post-set_node_ips : (s : Held) (h : List Call) → Post (Settles IpsAgree) (set_node_ips E s h)
  unfolding set_node_ips return
  Post-set_node_ips (c, b) h = Post-ask (Settles IpsAgree) _ _ _ h (elim [
    | err e ↦ λ p. Settles-err IpsAgree c b e _
    | ok c' ↦ λ p. Post-ask (Settles IpsAgree) _ _ _ _ (elim [
      | err e ↦ λ q. Settles-err IpsAgree c' b e _
      | ok l ↦ λ q.
          Post-if (Settles IpsAgree) (is_stale l c'.node_ips) _ _ _
            (λ _. Post-ask (Settles IpsAgree) _ _ _ _ (λ r t. tt))
            (λ f.
              let g = fresh-ips l c'.node_ips f in
              Settles-ok IpsAgree c' b _
                (g.0, did_now _ (ap (λ x. got_node_ip c'.network_present (ok x)) g.1)))
    ])
  ])

  -- The subnets are there exactly if the network is.
  abbrev pub SubnetsAgree : HubCluster → List Call → Type 0
  SubnetsAgree c k = not_empty (get_or [] c.cni_subnet) ≡ c.network_present

  -- An answer that is no empty list.
  abbrev Filled : Result (List String) → List Call → Type 0
  Filled (err e) k = Unit
  Filled (ok l) k = not_empty l ≡ true

  Filled-unless_empty : (r : Result (List String)) (k : List Call) → Filled (unless_empty r) k
  Filled-unless_empty (err e) k = tt
  Filled-unless_empty (ok []) k = tt
  Filled-unless_empty (ok (x ∷ xs)) k = refl

  Post-read_prefixes : (o : Option String) (h : List Call) → Post Filled (read_prefixes E o h)
  unfolding read_prefixes return
  Post-read_prefixes none h = tt
  Post-read_prefixes (some text) h = Post-after Filled _ _ h (λ r k. Filled-unless_empty r k)

  Post-get_nsm_excluded_prefix :
      (name ns : String) (h : List Call) → Post Filled (get_nsm_excluded_prefix E name ns h)
  unfolding get_nsm_excluded_prefix return
  Post-get_nsm_excluded_prefix name ns h = Post-ask Filled _ _ _ h (elim [
    | err e ↦ λ p. tt
    | ok none ↦ λ p. tt
    | ok (some entries) ↦ λ p.
        Post-if Filled (length entries == 0) _ _ _ (λ _. tt)
          (λ _. Post-read_prefixes (lookup prefixes_key entries) _)
  ])

  deep_equal-some :
      (o : Option (List String)) (l : List String) → is_deep_equal o l ≡ true → o ≡ some l
  deep_equal-some none l h = cc
  deep_equal-some (some k) l h = ap some ((same_texts-eq k l).0 h)

  Settles-removed :
      (c : HubCluster) (b : Bool) (r : Result (Unit {0})) (k : List Call)
      → c.network_present ≡ false
      → Settles SubnetsAgree ((with_subnets E [] c, b), r) k
  Settles-removed c b (err e) k p = Settles-err SubnetsAgree (with_subnets E [] c) b e k
  Settles-removed c b (ok tt) k p = Settles-ok SubnetsAgree (with_subnets E [] c) b k (sym p)

  Post-set_subnets : (s : Held) (h : List Call) → Post (Settles SubnetsAgree) (set_subnets E s h)
  unfolding set_subnets return
  Post-set_subnets (c, b) h = Post-ask (Settles SubnetsAgree) _ _ _ h (elim [
    | err e ↦ λ p. Settles-err SubnetsAgree c b e _
    | ok c' ↦ λ p.
        Post-if (Settles SubnetsAgree) c'.network_present _ _ _
          (λ present.
            Post-bind Filled (Settles SubnetsAgree) _ _ _ (Post-get_nsm_excluded_prefix _ _ _)
              (elim [
                | err e ↦ λ k f. Settles-err SubnetsAgree c' b e k
                | ok l ↦ λ k f.
                    Post-if (Settles SubnetsAgree) (is_deep_equal c'.cni_subnet l) _ _ k
                      (λ same.
                        Settles-ok SubnetsAgree c' b k
                          (rw (deep_equal-some c'.cni_subnet l same, present) f))
                      (λ _. Post-ask (Settles SubnetsAgree) _ _ _ _ (λ r t. tt))
              ]))
          (λ absent.
            Post-if (Settles SubnetsAgree) (not_empty (get_or [] c'.cni_subnet)) _ _ _
              (λ _.
                Post-ask (Settles SubnetsAgree) _ _ _ _ (λ r t. Settles-removed c' b r _ absent))
              (λ none_left. Settles-ok SubnetsAgree c' b _ (rw (none_left, absent) refl)))
  ])

  -- A step that lets the reconciliation go on has settled what `P` says, without an error.
  abbrev pub GoesOn : (HubCluster → List Call → Type 0) → Step → List Call → Type 0
  GoesOn P s k = s.requeue ≡ false → (s.error ≡ none) × P s.cluster k

  GoesOn-step_of :
      (P : HubCluster → List Call → Type 0) (out : Held × Result (Unit {0})) (k : List Call)
      → Settles P out k
      → GoesOn P (step_of out) k
  GoesOn-step_of P ((c, true), ok u) k s q = cc
  GoesOn-step_of P ((c, true), err e) k s q = cc
  GoesOn-step_of P ((c, false), err e) k s q = cc
  GoesOn-step_of P ((c, false), ok u) k s q = (refl, s)

  module _ {retriable : Error → Bool} {limit : ℕ} (R : RetryLib Call)
      (law : IsRetryLib retriable limit R) where
    -- Where the step of the subnets lets the reconciliation go on, the cluster has subnets exactly if
    -- its network is present.
    pub update_cni_subnet_config-SubnetsAgree :
        (c : HubCluster) (h : List Call)
        → Post (GoesOn SubnetsAgree) (update_cni_subnet_config E R c h)
    unfolding update_cni_subnet_config return
    update_cni_subnet_config-SubnetsAgree c h =
        Post-bind (Settles SubnetsAgree) (GoesOn SubnetsAgree) _ _ h
          (Post-retry (λ t. Unit) (Settles SubnetsAgree) R _ _ h law (λ s k u. Post-set_subnets s k)
            (λ s e k u. tt) tt)
          (GoesOn-step_of SubnetsAgree)

    Post-note_node_ips :
        (s : Step) (o : Option Error) (h : List Call)
        → s.error ≡ o
        → GoesOn IpsAgree s h
        → Post (GoesOn IpsAgree) (note_node_ips E R s o h)
    unfolding note_node_ips return emit ◌>>◌ ◌>>=◌
    Post-note_node_ips s (some e) h p g = λ q. let fine = (g q).0 in cc
    Post-note_node_ips s none h p g =
        Post-if (GoesOn IpsAgree) s.requeue _ _ h (λ r q. cc) (λ r q. g q)

    -- Where the step of the node addresses lets the reconciliation go on, the addresses of the cluster
    -- are not empty, and are those that the nodes were found to have.
    pub update_node_ips-IpsAgree :
        (c : HubCluster) (h : List Call) → Post (GoesOn IpsAgree) (update_node_ips E R c h)
    unfolding update_node_ips return
    update_node_ips-IpsAgree c h =
        Post-bind (Settles IpsAgree) (GoesOn IpsAgree) _ _ h
          (Post-retry (λ t. Unit) (Settles IpsAgree) R _ _ h law (λ s k u. Post-set_node_ips s k)
            (λ s e k u. tt) tt)
          (λ out k s. Post-note_node_ips (step_of out) _ k refl (GoesOn-step_of IpsAgree out k s))
