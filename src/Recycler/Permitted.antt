-- ===== src/Recycler/Permitted.antt =====
-- What one run of the recycler's controller may write, and that it writes nothing else, whatever
-- the API servers answer.
use worker_operator.Base.{
  contains, String, true, false, List, [], ◌∷◌, ◌++◌, ok, ◌≡◌, ◌⊎◌, some, insert, or_empty,
  string_eq,
}
use worker_operator.Objects.{SliceGateway, Pod, Deployment, GwRecycler, Labels}
use worker_operator.Recycler.Names.{
  st_init, st_new_deployment_created, st_slicerouter_updated, st_old_deployment_deleted, st_end,
  req_none, req_create_new_deployment, req_update_routing_table, req_delete_old_gw_deployment,
  resp_new_deployment_created, resp_routing_table_updated, resp_old_deployment_deleted, Request,
  Response, get_request_string, get_request_index, get_response_string, behind,
  get_new_deployment_name,
}
use worker_operator.Recycler.Calls.{
  Call, got_recycler, updated_recycler, updated_recycler_status, got_slicegw,
  updated_slicegw_status, updated_deployment, updated_pod,
}
use worker_operator.Recycler.Footprint.{AllowsReads}
use worker_operator.Recycler.Helpers.{exclude_gw_route, marked_for_deletion, remove_first}

-- The last call made.
abbrev pub Last : Call → List Call → Type 0
Last c h = (k : List Call) × (h ≡ c ∷ k)

abbrev pub with_state : GwRecycler → String → Request → GwRecycler
with_state r s q = record r { state = s; request = get_request_string q }

-- The server, having seen `cr`, moves a fresh copy `r` of the recycler to `r'`.
pub data ServerWrite (cr r r' : GwRecycler) : Type 0 where
  start :
      cr.state ≡ st_init
      → r' ≡ with_state r st_new_deployment_created req_create_new_deployment
      → ServerWrite cr r r'
  reroute :
      cr.state ≡ st_new_deployment_created
      → behind cr.response resp_new_deployment_created ≡ false
      → r' ≡ with_state r st_slicerouter_updated req_update_routing_table
      → ServerWrite cr r r'
  remove :
      cr.state ≡ st_slicerouter_updated
      → behind cr.response resp_routing_table_updated ≡ false
      → r' ≡ with_state r st_old_deployment_deleted req_delete_old_gw_deployment
      → ServerWrite cr r r'
  finish :
      cr.state ≡ st_old_deployment_deleted
      → behind cr.response resp_old_deployment_deleted ≡ false
      → r' ≡ with_state r st_end req_none
      → ServerWrite cr r r'

-- The response that a request asks for.
pub data Answers : Request → Response → Type 0 where
  created : Answers req_create_new_deployment resp_new_deployment_created
  rerouted : Answers req_update_routing_table resp_routing_table_updated
  removed : Answers req_delete_old_gw_deployment resp_old_deployment_deleted

-- The client, having seen `cr`, posts on a fresh copy `r` the response that the request asks for,
-- where it has not answered it yet.
pub data ClientWrite (cr r r' : GwRecycler) : Type 0 where
  answer :
      (q : Request) (a : Response)
      → get_request_index cr.request ≡ q
      → Answers q a
      → behind cr.response a ≡ true
      → r' ≡ record r { response = get_response_string a }
      → ClientWrite cr r r'

module _ (cr : GwRecycler) (gw : SliceGateway) where
  abbrev pub IsServer : Type 0
  IsServer = gw.host_type ≡ "Server"

  abbrev pub IsClient : Type 0
  IsClient = gw.host_type ≡ "Client"

  -- The server in a state, or the client asked for the matching work that it has not done yet.
  abbrev pub Turn : String → Request → Response → Type 0
  Turn s q a =
      (IsServer × (cr.state ≡ s))
      ⊎ (IsClient × (get_request_index cr.request ≡ q) × (behind cr.response a ≡ true))

  -- The deployment on this cluster that is replaced.
  abbrev pub IsOwn : String → Type 0
  IsOwn d = (IsServer × (d ≡ cr.gw_pair.server_id)) ⊎ (IsClient × (d ≡ cr.gw_pair.client_id))

-- The calls that a run for the request `name` makes, having read `cr` and `gw`, with the calls
-- before each. Reads are free. A recycler is written only as the protocol says, from the copy
-- read last. Of the slice gateway only the list of intermediate deployments changes: the new
-- deployment's name is put in, where it is missing, when it is to be created, and taken out when the old one is
-- deleted. A deployment is only marked for deletion, a pod only for the exclusion of its route.
abbrev pub Permitted : String → GwRecycler → SliceGateway → List Call → Call → Type 0
Permitted name cr gw h (updated_recycler r' res) =
    IsServer cr gw × ((r : GwRecycler) × Last (got_recycler name (ok r)) h × ServerWrite cr r r')
Permitted name cr gw h (updated_recycler_status r' res) =
    IsClient cr gw × ((r : GwRecycler) × Last (got_recycler name (ok r)) h × ClientWrite cr r r')
Permitted name cr gw h (updated_slicegw_status g' res) =
    (g : SliceGateway) × (d : String) × Last (got_slicegw gw.name (ok g)) h
    × IsOwn cr gw d
    × ((Turn cr gw st_init req_create_new_deployment resp_new_deployment_created
          × (contains g.intermediate_deployments (get_new_deployment_name d) ≡ false)
          × (g' ≡ record g {
            intermediate_deployments =
                g.intermediate_deployments ++ (get_new_deployment_name d ∷ []);
          }))
        ⊎ (Turn cr gw st_old_deployment_deleted req_delete_old_gw_deployment
              resp_old_deployment_deleted
            × (g' ≡ record g {
              intermediate_deployments =
                  remove_first (get_new_deployment_name d) g.intermediate_deployments;
            })))
Permitted name cr gw h (updated_deployment d' res) =
    (d : Deployment) × IsOwn cr gw d.name
    × Turn cr gw st_old_deployment_deleted req_delete_old_gw_deployment resp_old_deployment_deleted
    × (d' ≡ record d { labels = some (insert marked_for_deletion "true" (or_empty d.labels)) })
Permitted name cr gw h (updated_pod p' res) =
    (p : Pod) × (labels : Labels) × Turn cr gw st_slicerouter_updated req_update_routing_table
      resp_routing_table_updated
    × (p.labels ≡ some labels)
    × (p' ≡ record p { labels = some (insert exclude_gw_route "true" labels) })
Permitted name cr gw h _ = Unit

-- Reads are free.
pub Permitted-reads :
    (name : String) (cr : GwRecycler) (gw : SliceGateway) → AllowsReads (Permitted name cr gw)
Permitted-reads name cr gw = record {
  recycler = λ h n r. tt;
  slicegw = λ h n r. tt;
  deployments = λ h s g r. tt;
  pods = λ h d r. tt;
  router_pods = λ h s r. tt;
  route = λ h a s ip r. tt;
  event = λ h e. tt;
}
