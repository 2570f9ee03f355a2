-- ===== src/Namespaces/Policies.antt =====
-- The network policies of the application namespaces.
use worker_operator.Base.{
  String, Bool, true, false, not, none, some, List, [], ◌∷◌, Result, ok, err, is_not_found,
  if◌then◌else◌, return, panic, ◌>>=◌, ◌>>◌,
}
use worker_operator.Namespaces.Calls.{
  IsolationProfile, Slice, Env, Action, list_app_namespaces, update_slice_status, delete_policy,
  update_policy, create_policy, record_event,
}

abbrev pub with_policies : Bool → Slice → Slice
with_policies b s = record s { network_policies_installed = b }

abbrev pub names_or_error : Result (List String) → Result (List String)
names_or_error (err e) = if is_not_found e then ok [] else err e
names_or_error (ok l) = ok l

module _ (E : Env) where
  -- Errors of the deletions are only logged.
  unfoldable pub delete_policies : String → List String → Action (Unit {0})
  delete_policies slice [] = return tt
  delete_policies slice (ns ∷ rest) = do _ ← delete_policy E slice ns; delete_policies slice rest

  unfoldable pub set_installed : Bool → Slice → Action (Slice × Result (Unit {0}))
  set_installed b s = do
    done ← update_slice_status E (with_policies b s)
    return (with_policies b s, done)

  unfoldable pub uninstall_network_policies : Slice → Action (Slice × Result (Unit {0}))
  uninstall_network_policies s =
      delete_policies s.name s.application_namespaces >> set_installed false s

  unfoldable pub install_slice_network_policy_in_app_ns :
      String → String → Action (Result (Unit {0}))
  install_slice_network_policy_in_app_ns slice ns = do
    updated ← update_policy E slice ns
    elim updated [
      | err e ↦ if is_not_found e then create_policy E slice ns else return (err e)
      | ok _ ↦ return (ok tt)
    ]

  unfoldable pub install_policies : String → List String → Action (Result (Unit {0}))
  install_policies slice [] = return (ok tt)
  install_policies slice (ns ∷ rest) = do
    done ← install_slice_network_policy_in_app_ns slice ns
    elim done [
      | err e ↦ return (err e)
      | ok _ ↦ record_event "NetPolAdded" >> install_policies slice rest
    ]

  unfoldable pub install_listed : Slice → Result (List String) → Action (Slice × Result (Unit {0}))
  install_listed s (err e) = return (s, err e)
  install_listed s (ok names) = do
    done ← install_policies s.name names
    elim done [ err e ↦ return (s, err e) | ok _ ↦ set_installed true s ]

  unfoldable pub reconcile_policies : Slice → IsolationProfile → Action (Slice × Result (Unit {0}))
  reconcile_policies s profile =
      if not profile.isolation_enabled
      then (if s.network_policies_installed
          then uninstall_network_policies s
          else return (s, ok tt))
      else (do names ← list_app_namespaces E s.name; install_listed s (names_or_error names))

  unfoldable pub reconcile_slice_network_policy : Slice → Action (Slice × Result (Unit {0}))
  reconcile_slice_network_policy s = elim s.slice_config [
    | none ↦ panic
    | some none ↦ return (s, ok tt)
    | some (some profile) ↦ reconcile_policies s profile
  ]
