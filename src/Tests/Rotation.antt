-- ===== src/Tests/Rotation.antt =====
-- One rotation of the keys of the gateways of cluster c1, with answers that let a step go through.
use worker_operator.Base.{
  String, Bool, true, false, none, some, List, [], ◌∷◌, ok, err, Error, not_found, RetryLib, lookup,
  arith, ◌≡◌, refl, if◌then◌else◌, contains, string_eq,
}
use worker_operator.Recycler.Reconcile.{blank_slicegw}
use worker_operator.Rotation.Calls.{Rotation, VpnKeyRotation, Call, Env}
use worker_operator.Rotation.Status.{array_difference, with_history, with_state, states}
use worker_operator.Rotation.Writes.{stamped}
use worker_operator.Rotation.Writes.History.{IsBounded, Moves-IsBounded, contains-array_difference}

abbrev once : RetryLib Call
once = record { retry = λ body s. body s }

abbrev all_errors : Error → Bool
all_errors e = true

abbrev rotation : VpnKeyRotation
rotation = record {
  name = "rotation";
  cluster_gateway_mapping = ("c1", "gw-c1-c2" ∷ []) ∷ [];
  certificate_creation_time = some 7;
  rotation_count = 2;
  current_rotation_state =
      some (("gw-c1-c2", record { status = "COMPLETE"; last_updated = 3 }) ∷ []);
  status_history = none;
}

abbrev env : Env
env = record {
  cluster_name = "c1";
  itoa = λ n. "2";
  tunnel_up = 0;
  get_rotation = λ h n. ok rotation;
  update_rotation = λ h r. ok tt;
  get_secret = λ h n. err not_found;
  get_hub_secret = λ h n. ok (record { name = n; slice_gw = n; data_map = [] });
  create_secret = λ h s. ok tt;
  delete_secret = λ h n. ok tt;
  get_slicegw = λ h n. ok blank_slicegw;
  get_slice = λ h n. ok tt;
  list_gw_pods = λ h n. ok [];
  get_recycler = λ h n. err not_found;
  create_recycler = λ h r. ok tt;
  list_recyclers = λ h n. ok [];
  is_today = λ h t. true;
}

abbrev finished : Rotation
finished = record { status = "COMPLETE"; last_updated = 7 }

abbrev finished_rotation : VpnKeyRotation
finished_rotation =
    with_history "gw-c1-c2" finished (with_state "gw-c1-c2" finished (states rotation) rotation)

rotation-IsBounded : IsBounded rotation
unfolding lookup
rotation-IsBounded gw = omega arith

Moves-IsBounded_example : IsBounded finished_rotation
Moves-IsBounded_example =
    Moves-IsBounded env rotation finished_rotation (stamped "gw-c1-c2" finished refl)
      rotation-IsBounded

abbrev one : List String
one = "a" ∷ []

abbrev two : List String
two = "a" ∷ "b" ∷ []

contains-array_difference_example :
    contains (array_difference one two) "b" ≡ (if contains one "b" then false else contains two "b")
contains-array_difference_example = contains-array_difference one two "b"
