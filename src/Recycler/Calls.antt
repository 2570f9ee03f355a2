-- ===== src/Recycler/Calls.antt =====
-- What the recycler's controller asks of the outside: the hub's API server (the recycler objects),
-- the worker's API server, the slice router, and the event recorder.
use worker_operator.Base.{String, Bool, List, Result, M, perform, emit}
use worker_operator.Objects.{SliceGateway, Pod, Deployment, GwRecycler}

pub data Call : Type 0 where
  got_recycler : String → Result GwRecycler → Call
  updated_recycler : GwRecycler → Result (Unit {0}) → Call
  updated_recycler_status : GwRecycler → Result (Unit {0}) → Call
  got_slicegw : String → Result SliceGateway → Call
  updated_slicegw_status : SliceGateway → Result (Unit {0}) → Call
  -- `GetDeployments`: by slice and slice gateway
  listed_deployments : String → String → Result (List Deployment) → Call
  updated_deployment : Deployment → Result (Unit {0}) → Call
  -- the pods with the label `kubeslice.io/slice-gw-dep`
  listed_pods : String → Result (List Pod) → Call
  updated_pod : Pod → Result (Unit {0}) → Call
  -- the pods with the label `networkservicemesh.io/impl`
  listed_router_pods : String → Result (List Pod) → Call
  -- `GetRouteInKernel`: the router's address, the remote subnet, the next hop
  got_route : String → String → String → Result Bool → Call
  recorded_event : String → Call

-- How the outside answers.
pub record Env : Type 0 where
  pub get_recycler : List Call → String → Result GwRecycler
  pub update_recycler : List Call → GwRecycler → Result (Unit {0})
  pub update_recycler_status : List Call → GwRecycler → Result (Unit {0})
  pub get_slicegw : List Call → String → Result SliceGateway
  pub update_slicegw_status : List Call → SliceGateway → Result (Unit {0})
  pub list_deployments : List Call → String → String → Result (List Deployment)
  pub update_deployment : List Call → Deployment → Result (Unit {0})
  pub list_pods : List Call → String → Result (List Pod)
  pub update_pod : List Call → Pod → Result (Unit {0})
  pub list_router_pods : List Call → String → Result (List Pod)
  pub get_route : List Call → String → String → String → Result Bool

abbrev pub Action : Type 0 → Type 0
Action = M Call

module _ (E : Env) where
  abbrev pub get_recycler : String → Action (Result GwRecycler)
  get_recycler n = perform (λ h. E.get_recycler h n) (got_recycler n)

  abbrev pub update_recycler : GwRecycler → Action (Result (Unit {0}))
  update_recycler r = perform (λ h. E.update_recycler h r) (updated_recycler r)

  abbrev pub update_recycler_status : GwRecycler → Action (Result (Unit {0}))
  update_recycler_status r = perform (λ h. E.update_recycler_status h r) (updated_recycler_status r)

  abbrev pub get_slicegw : String → Action (Result SliceGateway)
  get_slicegw n = perform (λ h. E.get_slicegw h n) (got_slicegw n)

  abbrev pub update_slicegw_status : SliceGateway → Action (Result (Unit {0}))
  update_slicegw_status g = perform (λ h. E.update_slicegw_status h g) (updated_slicegw_status g)

  abbrev pub list_deployments : String → String → Action (Result (List Deployment))
  list_deployments s g = perform (λ h. E.list_deployments h s g) (listed_deployments s g)

  abbrev pub update_deployment : Deployment → Action (Result (Unit {0}))
  update_deployment d = perform (λ h. E.update_deployment h d) (updated_deployment d)

  abbrev pub list_pods : String → Action (Result (List Pod))
  list_pods d = perform (λ h. E.list_pods h d) (listed_pods d)

  abbrev pub update_pod : Pod → Action (Result (Unit {0}))
  update_pod p = perform (λ h. E.update_pod h p) (updated_pod p)

  abbrev pub list_router_pods : String → Action (Result (List Pod))
  list_router_pods s = perform (λ h. E.list_router_pods h s) (listed_router_pods s)

  abbrev pub get_route : String → String → String → Action (Result Bool)
  get_route a s ip = perform (λ h. E.get_route h a s ip) (got_route a s ip)

abbrev pub record_event : String → Action (Unit {0})
record_event e = emit (recorded_event e)
