-- ===== src/Cluster/Status.antt =====
-- The steps of reconciler.go that write the cluster on the hub. A retried body assigns the cluster
-- that the caller holds, and whether something was to be updated, so it takes and gives back both; a
-- failed read leaves the cluster as it was.
pub mod Settled
use worker_operator.Base.{
  String, Bool, true, false, not, ◌&&◌, ◌||◌, Option, none, some, List, [], ◌∷◌, Result, ok, err,
  Error, Requeue, no_requeue, requeue_now, ◌==◌, ◌/=◌, string_eq, nat_eq, if◌then◌else◌, length,
  get_or, RetryLib, return, ◌>>=◌, ◌>>◌, contains,
}
use worker_operator.Cluster.Calls.{
  HubCluster, Call, Env, Action, get_cluster, update_cluster, update_cluster_status, list_nsmgr,
  find_node_ip, record_event,
}
use worker_operator.Cluster.Location.{GeoLocation, get_cluster_info, get_nsm_excluded_prefix}
use worker_operator.Cluster.Health.{not_empty}

abbrev pub same_texts : List String → List String → Bool
same_texts [] [] = true
same_texts [] (y ∷ ys) = false
same_texts (x ∷ xs) [] = false
same_texts (x ∷ xs) (y ∷ ys) = if x /= y then false else same_texts xs ys

-- `validatenodeips`
unfoldable pub validate_node_ips : List String → List String → Bool
validate_node_ips total current =
    if length total /= length current then false else same_texts total current

-- Whether the addresses of the status are to be replaced.
unfoldable pub is_stale : List String → List String → Bool
unfolding validate_node_ips
is_stale ips current = not (not_empty current) || not (validate_node_ips ips current)

-- `reflect.DeepEqual` of the subnets in the status and of a list that is not nil.
abbrev pub is_deep_equal : Option (List String) → List String → Bool
is_deep_equal none l = false
is_deep_equal (some k) l = same_texts k l

abbrev pub known_providers : List String
known_providers = "gcp" ∷ "aws" ∷ "azure" ∷ "linode" ∷ "akamai" ∷ []

abbrev pub Held : Type 0
Held = HubCluster × Bool

-- A step's cluster, result and error, and whether the reconciliation ends with these.
pub record Step : Type 0 where
  pub cluster : HubCluster
  pub result : Requeue
  pub error : Option Error
  pub requeue : Bool

abbrev pub step_of : Held × Result (Unit {0}) → Step
step_of ((c, to_update), err e) = record {
  cluster = c;
  result = no_requeue;
  error = some e;
  requeue = true;
}
step_of ((c, true), ok _) = record {
  cluster = c;
  result = requeue_now;
  error = none;
  requeue = true;
}
step_of ((c, false), ok _) = record {
  cluster = c;
  result = no_requeue;
  error = none;
  requeue = false;
}

-- A write of the cluster at the end of a retried body.
abbrev pub ending :
    Bool → HubCluster → Action (Result (Unit {0})) → Action (Held × Result (Unit {0}))
ending to_update c write = do done ← write; return ((c, to_update), done)

module _ (E : Env) where
  -- Whether there are daemon sets of the network service manager.
  unfoldable pub is_nsm_installed : Action Bool
  is_nsm_installed = do
    sets ← list_nsmgr E
    elim sets [ err e ↦ return false | ok n ↦ return (n /= 0) ]

  unfoldable pub set_network_status : HubCluster → Action (HubCluster × Result (Unit {0}))
  set_network_status c = do
    got ← get_cluster E c.name
    elim got [
      | err e ↦ return (c, err e)
      | ok c' ↦ do
        present ← is_nsm_installed
        done ← update_cluster_status E (record c' { network_present = present })
        return (record c' { network_present = present }, done)
    ]

  abbrev pub with_location : GeoLocation → HubCluster → HubCluster
  with_location g c = record c { cloud_provider = g.cloud_provider; cloud_region = g.cloud_region }

  -- Whether the location is of a known provider and differs from the cluster's.
  abbrev pub has_moved : GeoLocation → HubCluster → Bool
  has_moved g c =
      contains known_providers g.cloud_provider
      && ((g.cloud_region /= c.cloud_region) || (g.cloud_provider /= c.cloud_provider))

  unfoldable pub set_location : GeoLocation → Held → Action (Held × Result (Unit {0}))
  set_location g (c, to_update) = do
    got ← get_cluster E c.name
    elim got [
      | err e ↦ return ((c, to_update), err e)
      | ok c' ↦
          if has_moved g c'
          then ending true (with_location g c') (update_cluster E (with_location g c'))
          else return ((c', to_update), ok tt)
    ]

  abbrev pub with_subnets : List String → HubCluster → HubCluster
  with_subnets l c = record c { cni_subnet = some l }

  unfoldable pub set_subnets : Held → Action (Held × Result (Unit {0}))
  set_subnets (c, to_update) = do
    got ← get_cluster E c.name
    elim got [
      | err e ↦ return ((c, to_update), err e)
      | ok c' ↦
          if c'.network_present
          then (do
            prefixes ← get_nsm_excluded_prefix E "nsm-config" "kubeslice-system"
            elim prefixes [
              | err e ↦ return ((c', to_update), err e)
              | ok l ↦
                  if is_deep_equal c'.cni_subnet l
                  then return ((c', to_update), ok tt)
                  else ending true (with_subnets l c') (update_cluster_status E (with_subnets l c'))
            ])
          else if not_empty (get_or [] c'.cni_subnet)
          then ending to_update (with_subnets [] c') (update_cluster_status E (with_subnets [] c'))
          else return ((c', to_update), ok tt)
    ]

  abbrev pub with_node_ips : List String → HubCluster → HubCluster
  with_node_ips l c = record c { node_ips = l }

  unfoldable pub set_node_ips : Held → Action (Held × Result (Unit {0}))
  unfolding is_stale
  set_node_ips (c, to_update) = do
    got ← get_cluster E c.name
    elim got [
      | err e ↦ return ((c, to_update), err e)
      | ok c' ↦ do
        ips ← find_node_ip E c'.network_present
        elim ips [
          | err e ↦ return ((c', to_update), err e)
          | ok l ↦
              if is_stale l c'.node_ips
              then ending true (with_node_ips l c') (update_cluster_status E (with_node_ips l c'))
              else return ((c', to_update), ok tt)
        ]
    ]

module _ (E : Env) (R : RetryLib Call) where
  unfoldable pub update_network_status : HubCluster → Action (HubCluster × Result (Unit {0}))
  update_network_status c = R.retry (set_network_status E) c

  unfoldable pub update_cluster_cloud_provider_info : HubCluster → Action Step
  update_cluster_cloud_provider_info c = do
    info ← get_cluster_info E
    elim info [
      | err e ↦ return (record { cluster = c; result = no_requeue; error = some e; requeue = true })
      | ok g ↦ do out ← R.retry (set_location E g) (c, false); return (step_of out)
    ]

  unfoldable pub update_cni_subnet_config : HubCluster → Action Step
  update_cni_subnet_config c = do out ← R.retry (set_subnets E) (c, false); return (step_of out)

  unfoldable pub note_node_ips : Step → Option Error → Action Step
  note_node_ips s (some e) = record_event "ClusterNodeIpAutoDetectionFailed" >> return s
  note_node_ips s none =
      if s.requeue then record_event "ClusterNodeIpAutoDetected" >> return s else return s

  unfoldable pub update_node_ips : HubCluster → Action Step
  update_node_ips c = do
    out ← R.retry (set_node_ips E) (c, false)
    note_node_ips (step_of out) (step_of out).error
