-- ===== src/Recycler/Names.antt =====
-- reconciler.go (constants) and utils.go of the recycler: states, requests, responses, names.
use worker_operator.Base.{
  ℕ, String, Bool, List, [], ◌∷◌, ◌==◌, string_eq, if◌then◌else◌, dash, split, join, ltb,
}

-- FSM state names
abbrev pub st_init : String
st_init = "init"

abbrev pub st_new_deployment_created : String
st_new_deployment_created = "new_deployment_created_state"

abbrev pub st_slicerouter_updated : String
st_slicerouter_updated = "slicerouter_updated_state"

abbrev pub st_old_deployment_deleted : String
st_old_deployment_deleted = "old_deployment_deleted_state"

abbrev pub st_error : String
st_error = "error_state"

abbrev pub st_end : String
st_end = "end"

-- FSM event names
abbrev pub ev_verify_new_deployment_created : String
ev_verify_new_deployment_created = "verify_new_deployment_created"

abbrev pub ev_update_routing_table : String
ev_update_routing_table = "update_routing_table"

abbrev pub ev_delete_old_gw_deployment : String
ev_delete_old_gw_deployment = "delete_old_gw_deployment"

abbrev pub ev_on_error : String
ev_on_error = "on_error"

abbrev pub ev_end : String
ev_end = "end"

pub data Request : Type 0 where
  req_invalid req_none req_create_new_deployment req_update_routing_table
        req_delete_old_gw_deployment :
      Request

pub data Response : Type 0 where
  resp_invalid resp_none resp_new_deployment_created resp_routing_table_updated
        resp_old_deployment_deleted :
      Response

unfoldable pub get_request_string : Request → String
get_request_string req_invalid = ""
get_request_string req_none = "none"
get_request_string req_create_new_deployment = "create_new_deployment"
get_request_string req_update_routing_table = "update_routing_table"
get_request_string req_delete_old_gw_deployment = "delete_old_gw_deployment"

unfoldable pub get_request_index : String → Request
get_request_index req =
    if req == "none"
    then req_none
    else if req == "create_new_deployment"
    then req_create_new_deployment
    else if req == "update_routing_table"
    then req_update_routing_table
    else if req == "delete_old_gw_deployment"
    then req_delete_old_gw_deployment
    else req_invalid

unfoldable pub get_response_string : Response → String
get_response_string resp_invalid = ""
get_response_string resp_none = "none"
get_response_string resp_new_deployment_created = "new_deployment_created"
get_response_string resp_routing_table_updated = "routing_table_updated"
get_response_string resp_old_deployment_deleted = "old_gw_deployment_deleted"

unfoldable pub get_response_index : String → Response
get_response_index resp =
    if resp == "none"
    then resp_none
    else if resp == "new_deployment_created"
    then resp_new_deployment_created
    else if resp == "routing_table_updated"
    then resp_routing_table_updated
    else if resp == "old_gw_deployment_deleted"
    then resp_old_deployment_deleted
    else resp_invalid

-- The constants run -1, 1, 2, 3, 4 (the block's `iota` is 1 at `RESP_none`). One is added here,
-- since only their order is used.
abbrev pub rank : Response → ℕ
rank resp_invalid = 0
rank resp_none = 2
rank resp_new_deployment_created = 3
rank resp_routing_table_updated = 4
rank resp_old_deployment_deleted = 5

-- `getResponseIndex(resp) < r`
abbrev pub behind : String → Response → Bool
behind resp r = ltb (rank (get_response_index resp)) (rank r)

-- Replaces the last word, if there is one.
abbrev pub set_last : List String → (String → String) → List String
set_last [] f = []
set_last (w ∷ []) f = f w ∷ []
set_last (w ∷ v ∷ ws) f = w ∷ set_last (v ∷ ws) f

abbrev pub other_instance : String → String
other_instance dep_instance = if dep_instance == "0" then "1" else "0"

unfoldable pub get_new_deployment_name : String → String
unfolding split join
get_new_deployment_name gw_id = join "-" (set_last (split dash gw_id) other_instance)
