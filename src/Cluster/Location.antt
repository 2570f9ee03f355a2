-- ===== src/Cluster/Location.antt =====
-- pkg/cluster/cluster.go: the cluster's location, and the prefixes of the network service manager.
use worker_operator.Base.{
  String, Option, none, some, List, [], ◌∷◌, Result, ok, err, other, ◌==◌, ◌/=◌, string_eq,
  if◌then◌else◌, length, nat_eq, lookup, get_or, split, ℕ, return, panic, ◌>>=◌,
}
use worker_operator.Cluster.Calls.{CloudNode, Env, Action, list_nodes, get_nsm_config}

pub record GeoLocation : Type 0 where
  pub cloud_provider : String
  pub cloud_region : String

abbrev pub region_key : String
region_key = "topology.kubernetes.io/region"

abbrev pub prefixes_key : String
prefixes_key = "excluded_prefixes_output.yaml"

-- The byte `:`.
abbrev pub colon : ℕ
colon = 58

abbrev pub first_word : List String → String
first_word [] = ""
first_word (w ∷ ws) = w

-- The provider of a node, by the scheme of its provider identifier.
unfoldable pub provider_of : String → String
provider_of provider_id =
    if provider_id /= ""
    then (let provider = first_word (split colon provider_id) in
        if provider == "gce" then "gcp" else provider)
    else ""

-- `getClusterLocation`, by the list of nodes.
unfoldable pub location_of : Result (List CloudNode) → Result GeoLocation
unfolding provider_of
location_of (err e) = err other
location_of (ok []) = err other
location_of (ok (n ∷ ns)) = ok (record {
  cloud_region = get_or "" (lookup region_key n.labels);
  cloud_provider = provider_of n.provider_id;
})

-- The prefixes of the text: its key may be missing. A value that is no list panics.
unfoldable pub get_prefixes : Result (Option (Option (List String))) → Action (Result (List String))
get_prefixes (err e) = return (err other)
get_prefixes (ok none) = return (err other)
get_prefixes (ok (some none)) = panic
get_prefixes (ok (some (some prefixes))) = return (ok prefixes)

abbrev pub unless_empty : Result (List String) → Result (List String)
unless_empty (err e) = err other
unless_empty (ok []) = err other
unless_empty (ok (p ∷ ps)) = ok (p ∷ ps)

module _ (E : Env) where
  unfoldable pub get_cluster_info : Action (Result GeoLocation)
  unfolding location_of
  get_cluster_info = do nodes ← list_nodes E; return (location_of nodes)

  unfoldable pub read_prefixes : Option String → Action (Result (List String))
  read_prefixes none = return (err other)
  read_prefixes (some text) = do
    prefixes ← get_prefixes (E.yaml_prefixes text)
    return (unless_empty prefixes)

  unfoldable pub get_nsm_excluded_prefix : String → String → Action (Result (List String))
  get_nsm_excluded_prefix configmap namespace = do
    got ← get_nsm_config E configmap namespace
    elim got [
      | err e ↦ return (err e)
      | ok none ↦ return (err other)
      | ok (some entries) ↦
          if length entries == 0
          then return (err other)
          else read_prefixes (lookup prefixes_key entries)
    ]
