-- ===== src/Recycler/Machine.antt =====
-- The state machine library that the recycler uses (github.com/looplab/fsm), as an interface:
-- `NewFSM`, `Current`, `SetState` and `Event`, and the transition table that reconciler.go gives it.
use worker_operator.Base.{String, ◌≡◌, List, [], ◌∷◌, Result, string_eq}
use worker_operator.Recycler.Names.{
  st_init, st_new_deployment_created, st_slicerouter_updated, st_old_deployment_deleted, st_error,
  st_end, ev_verify_new_deployment_created, ev_update_routing_table, ev_delete_old_gw_deployment,
  ev_on_error, ev_end,
}

-- `fsm.EventDesc`
pub record EventDesc : Type 0 where
  pub name : String
  pub src : List String
  pub dst : String

pub record FsmLib : Type 1 where
  pub Machine : Type 0
  pub new_fsm : String → List EventDesc → Machine
  pub current : Machine → String
  pub set_state : String → Machine → Machine
  pub event : String → Machine → Result (Unit {0}) × Machine

unfoldable pub transitions : List EventDesc
transitions =
    record {
      name = ev_verify_new_deployment_created;
      src = st_init ∷ st_new_deployment_created ∷ [];
      dst = st_new_deployment_created;
    }
    ∷ record {
      name = ev_update_routing_table;
      src = st_init ∷ st_new_deployment_created ∷ st_slicerouter_updated ∷ [];
      dst = st_slicerouter_updated;
    }
    ∷ record {
      name = ev_delete_old_gw_deployment;
      src = st_init ∷ st_slicerouter_updated ∷ st_old_deployment_deleted ∷ [];
      dst = st_old_deployment_deleted;
    }
    ∷ record {
      name = ev_on_error;
      src =
          st_init ∷ st_new_deployment_created ∷ st_slicerouter_updated ∷ st_old_deployment_deleted
          ∷ [];
      dst = st_error;
    }
    ∷ record {
      name = ev_end;
      src =
          st_init ∷ st_new_deployment_created ∷ st_slicerouter_updated ∷ st_old_deployment_deleted
          ∷ st_error ∷ [];
      dst = st_end;
    }
    ∷ []

-- The library's documentation, as far as it is needed: `SetState` puts a machine in a state.
pub record IsFsm (F : FsmLib) : Type 0 where
  pub current-set : (s : String) (m : F.Machine) → F.current (F.set_state s m) ≡ s
