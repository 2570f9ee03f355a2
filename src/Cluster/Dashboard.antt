-- ===== src/Cluster/Dashboard.antt =====
-- The credentials of the dashboard, in reconciler.go.
use worker_operator.Base.{
  String, ◌<>◌, Bool, true, Option, none, some, List, [], ◌∷◌, Result, ok, err, other,
  is_already_exists, string_eq, if◌then◌else◌, lookup, return, ◌>>=◌,
}
use worker_operator.Objects.{Labels}
use worker_operator.Cluster.Calls.{
  HubCluster, HubSecret, Env, Action, update_cluster, get_service_account, get_secret,
  create_hub_secret, update_hub_secret,
}

abbrev pub dashboard_sa : String
dashboard_sa = "kubeslice-kubernetes-dashboard"

abbrev pub hub_secret_suffix : String
hub_secret_suffix = "-kubernetes-dashboard"

-- The secret for the hub, from a secret's data, which may be nil.
unfoldable pub hub_secret_of : String → Option Labels → Result HubSecret
hub_secret_of name none = err other
hub_secret_of name (some entries) = elim (lookup "token" entries) [
  | none ↦ err other
  | some token ↦ elim (lookup "ca.crt" entries) [
    | none ↦ err other
    | some crt ↦ ok (record { name = name; token = token; ca_crt = crt })
  ]
]

module _ (E : Env) where
  abbrev pub hub_secret_name : String
  hub_secret_name = E.cluster_name <> hub_secret_suffix

  abbrev pub with_credentials : HubCluster → HubCluster
  with_credentials cr = record cr {
    dashboard_endpoint = E.cluster_endpoint;
    dashboard_access_token = hub_secret_name;
    dashboard_enabled = true;
  }

  abbrev pub is_dashboard_creds_updated : HubCluster → Bool
  is_dashboard_creds_updated cr = cr.dashboard_enabled

  -- A secret that exists is updated.
  unfoldable pub post_secret : HubSecret → Action (Result (Unit {0}))
  post_secret s = do
    done ← create_hub_secret E s
    elim done [
      | err e ↦ if is_already_exists e then update_hub_secret E s else return (err e)
      | ok _ ↦ return (ok tt)
    ]

  unfoldable pub post_credentials :
      HubCluster → Result HubSecret → Action (HubCluster × Result (Unit {0}))
  post_credentials cr (err e) = return (cr, err e)
  post_credentials cr (ok s) = do
    posted ← post_secret s
    elim posted [
      | err e ↦ return (cr, err e)
      | ok _ ↦ do done ← update_cluster E (with_credentials cr); return (with_credentials cr, done)
    ]

  unfoldable pub read_credentials :
      HubCluster → List String → Action (HubCluster × Result (Unit {0}))
  unfolding hub_secret_of
  read_credentials cr [] = return (cr, err other)
  read_credentials cr (name ∷ names) = do
    secret ← get_secret E name
    elim secret [
      | err e ↦ return (cr, err e)
      | ok entries ↦ post_credentials cr (hub_secret_of hub_secret_name entries)
    ]

  unfoldable pub update_dashboard_creds : HubCluster → Action (HubCluster × Result (Unit {0}))
  update_dashboard_creds cr = do
    account ← get_service_account E dashboard_sa
    elim account [ err e ↦ return (cr, err e) | ok secrets ↦ read_credentials cr secrets ]
