-- ===== src/Cluster/Health/Assessed.antt =====
-- What `updateClusterHealthStatus` makes of the health of a cluster.
use worker_operator.Base.{
  String, true, false, some, List, [], ◌∷◌, ◌++◌, string_eq, nat_eq, ◌≡◌, ◌⊎◌, map,
}
use worker_operator.Cluster.Calls.{Component, ComponentStatus, ClusterHealth, HubCluster, Call, Env}
use worker_operator.Cluster.Health.Normal.{IsSummary}
use worker_operator.Cluster.Health.Statuses.{Reported}

abbrev pub component_names : List String
component_names =
    "nsmgr" ∷ "forwarder" ∷ "admission-webhook" ∷ "netop" ∷ "spire-agent" ∷ "spire-server"
    ∷ "istiod" ∷ "node-ips" ∷ "cni-subnets" ∷ []

-- With the network, the statuses are those of all components; without, there are none.
abbrev pub IsChecked : HubCluster → List Call → List ComponentStatus → Type 0
IsChecked cr k ss =
    ((cr.network_present ≡ true)
      × ((cs : List Component) × (map (λ c. c.name) cs ≡ component_names) × Reported cr k cs ss))
    ⊎ ((cr.network_present ≡ false) × (ss ≡ []))

-- The cluster with the statuses of its components and the health that sums them up; all else is as
-- it was.
abbrev pub Assessed : HubCluster → HubCluster → List Call → Type 0
Assessed cr cr' k =
    (old : ClusterHealth) × (ss : List ComponentStatus) × (s : String) × (cr.cluster_health
      ≡ some old)
    × (cr' ≡ record cr {
      cluster_health = some (record old { component_statuses = ss; cluster_health_status = s });
    })
    × IsSummary (ss, s)
    × IsChecked cr k ss

module _ (E : Env) (cr : HubCluster) where
  -- What the loop over the components adds to the statuses so far.
  abbrev Looped :
      List Component → List ComponentStatus → List ComponentStatus × String → List Call → Type 0
  Looped cs acc out k =
      IsSummary out × ((ss : List ComponentStatus) × (out.0 ≡ acc ++ ss) × Reported cr k cs ss)
