-- ===== src/Recycler/Helpers.antt =====
-- helpers.go of the recycler, and the functions of controllers/controller.go and
-- controllers/slicegateway/utils.go that it calls.
use worker_operator.Base.{
  String, ◌<>◌, Bool, true, false, Option, none, some, List, [], ◌∷◌, ◌++◌, Result, ok, err,
  is_not_found, ◌==◌, ◌/=◌, string_eq, contains, if◌then◌else◌, insert, or_empty, Retry, return,
  panic, ◌>>=◌,
}
use worker_operator.Objects.{SliceGateway, GwPodInfo, Pod, Deployment}
use worker_operator.Recycler.Calls.{
  Call, Env, Action, get_slicegw, update_slicegw_status, list_deployments, update_deployment,
  list_pods, update_pod, list_router_pods, get_route,
}

abbrev pub exclude_gw_route : String
exclude_gw_route = "kubeslice.io/exclude-gw-route"

abbrev pub marked_for_deletion : String
marked_for_deletion = "kubeslice.io/marked-for-deletion"

unfoldable pub find_deployment : String → List Deployment → Option Deployment
find_deployment dep_name [] = none
find_deployment dep_name (d ∷ ds) =
    if d.name == dep_name then some d else find_deployment dep_name ds

-- The entry of `SliceGatewayIntermediateDeployments` that the loop removes is the first one.
unfoldable pub remove_first : String → List String → List String
remove_first n [] = []
remove_first n (x ∷ xs) = if x == n then xs else x ∷ remove_first n xs

-- The loop of `GetSliceRouterPodNameAndIP`: the address of the first running pod.
unfoldable pub running_pod_ip : List Pod → String
running_pod_ip [] = ""
running_pod_ip (p ∷ ps) = if p.phase == "Running" then p.pod_ip else running_pod_ip ps

-- The inner loop of `GetNsmIPsForGwDeployment`, for one pod.
unfoldable pub nsm_ips_of_pod : String → List GwPodInfo → List String
nsm_ips_of_pod n [] = []
nsm_ips_of_pod n (s ∷ ss) =
    if s.pod_name == n
    then (if s.local_nsm_ip /= "" then s.local_nsm_ip ∷ [] else [])
    else nsm_ips_of_pod n ss

unfoldable pub nsm_ips_of_pods : List GwPodInfo → List Pod → List String
nsm_ips_of_pods ss [] = []
nsm_ips_of_pods ss (p ∷ ps) = nsm_ips_of_pod p.name ss ++ nsm_ips_of_pods ss ps

-- A Go string result beside an error that the caller ignores.
abbrev pub or_blank : Result String → String
or_blank (ok s) = s
or_blank (err e) = ""

abbrev pub or_false : Result Bool → Bool
or_false (ok b) = b
or_false (err e) = false

module _ (E : Env) where
  -- `GetPodForGwDeployment`. It takes element 0 of the list, which panics on an empty one.
  unfoldable pub get_pod_for_gw_deployment : String → Action (Result Pod)
  get_pod_for_gw_deployment dep_name = do
    pods ← list_pods E dep_name
    elim pods [ err e ↦ return (err e) | ok [] ↦ panic | ok (p ∷ ps) ↦ return (ok p) ]

  unfoldable pub get_nsm_ips_for_gw_deployment : String → String → Action (Result (List String))
  unfolding nsm_ips_of_pods
  get_nsm_ips_for_gw_deployment gw_name dep_name = do
    gw ← get_slicegw E gw_name
    elim gw [
      | err e ↦ return (err e)
      | ok g ↦ do
        pods ← list_pods E dep_name
        elim pods [
          | err e ↦ return (err e)
          | ok ps ↦ return (ok (nsm_ips_of_pods g.gateway_pod_status ps))
        ]
    ]

  unfoldable pub get_nsm_ip_for_new_deployment : SliceGateway → String → Action (Result String)
  unfolding get_nsm_ips_for_gw_deployment
  get_nsm_ip_for_new_deployment gw dep_name = do
    nsm_ips ← get_nsm_ips_for_gw_deployment gw.name dep_name
    elim nsm_ips [
      | err e ↦ return (err e)
      | ok [] ↦ return (ok "")
      | ok (ip ∷ ips) ↦ return (ok ip)
    ]

  -- `GetSliceRouterPodNameAndIP`; the name is not used.
  unfoldable pub get_slice_router_pod_ip : String → Action (Result String)
  unfolding running_pod_ip
  get_slice_router_pod_ip slice_name = do
    pods ← list_router_pods E slice_name
    elim pods [ err e ↦ return (err e) | ok ps ↦ return (ok (running_pod_ip ps)) ]

  unfoldable pub check_route_in_slice_router : SliceGateway → String → Action (Result Bool)
  unfolding get_slice_router_pod_ip
  check_route_in_slice_router gw nsm_ip = do
    pod_ip ← get_slice_router_pod_ip gw.slice_name
    elim pod_ip [
      | err e ↦ return (err e)
      | ok ip ↦ get_route E (ip <> ":5000") gw.remote_subnet nsm_ip
    ]

  unfoldable pub check_if_deployment_is_present : String → String → String → Action Bool
  unfolding find_deployment
  check_if_deployment_is_present dep_name slice_name gw_name = do
    deployments ← list_deployments E slice_name gw_name
    elim deployments [
      | err e ↦ return false
      | ok ds ↦ return (elim (find_deployment dep_name ds) [ none ↦ false | some d ↦ true ])
    ]

module _ (E : Env) (retry_on_conflict : Retry Call) where
  -- The body that `CreateNewDeployment` retries.
  unfoldable pub add_intermediate_deployment : String → String → Action (Result (Unit {0}))
  add_intermediate_deployment dep_name gw_name = do
    gw ← get_slicegw E gw_name
    elim gw [
      | err e ↦ return (err e)
      | ok g ↦
          if contains g.intermediate_deployments dep_name
          then return (ok tt)
          else update_slicegw_status E (record g {
            intermediate_deployments = g.intermediate_deployments ++ (dep_name ∷ []);
          })
    ]

  -- Its `ctrl.Result` is always empty and its Boolean says that the error is not nil.
  unfoldable pub create_new_deployment : String → String → String → Action (Result (Unit {0}))
  unfolding add_intermediate_deployment find_deployment
  create_new_deployment dep_name slice_name gw_name = do
    deployments ← list_deployments E slice_name gw_name
    elim deployments [
      | err e ↦ return (err e)
      | ok ds ↦ elim (find_deployment dep_name ds) [
        | some d ↦ return (ok tt)
        | none ↦ retry_on_conflict (add_intermediate_deployment dep_name gw_name)
      ]
    ]

  -- The body that `MarkGwRouteForDeletion` retries. With nil labels it returns `err`, which is nil.
  unfoldable pub exclude_gw_pod : String → Action (Result (Unit {0}))
  unfolding get_pod_for_gw_deployment
  exclude_gw_pod dep_name = do
    pod ← get_pod_for_gw_deployment E dep_name
    elim pod [
      | err e ↦ return (if is_not_found e then ok tt else err e)
      | ok p ↦ elim p.labels [
        | none ↦ return (ok tt)
        | some labels ↦
            update_pod E (record p { labels = some (insert exclude_gw_route "true" labels) })
      ]
    ]

  unfoldable pub mark_gw_route_for_deletion : String → Action (Result (Unit {0}))
  unfolding exclude_gw_pod
  mark_gw_route_for_deletion dep_name = retry_on_conflict (exclude_gw_pod dep_name)

  -- The two bodies that `TriggerGwDeploymentDeletion` retries.
  unfoldable pub mark_deployment : String → String → String → Action (Result (Unit {0}))
  unfolding find_deployment
  mark_deployment slice_name gw_name dep_name = do
    deployments ← list_deployments E slice_name gw_name
    elim deployments [
      | err e ↦ return (ok tt)
      | ok ds ↦ elim (find_deployment dep_name ds) [
        | none ↦ return (ok tt)
        | some d ↦
            update_deployment E
              (record d { labels = some (insert marked_for_deletion "true" (or_empty d.labels)) })
      ]
    ]

  unfoldable pub remove_intermediate_deployment : String → String → Action (Result (Unit {0}))
  unfolding remove_first
  remove_intermediate_deployment gw_name new_dep_name = do
    gw ← get_slicegw E gw_name
    elim gw [
      | err e ↦ return (err e)
      | ok g ↦ update_slicegw_status E (record g {
        intermediate_deployments = remove_first new_dep_name g.intermediate_deployments;
      })
    ]

  unfoldable pub trigger_gw_deployment_deletion :
      String → String → String → String → Action (Result (Unit {0}))
  unfolding mark_deployment remove_intermediate_deployment
  trigger_gw_deployment_deletion slice_name gw_name dep_name new_dep_name = do
    marked ← retry_on_conflict (mark_deployment slice_name gw_name dep_name)
    elim marked [
      | err e ↦ return (err e)
      | ok _ ↦ retry_on_conflict (remove_intermediate_deployment gw_name new_dep_name)
    ]
