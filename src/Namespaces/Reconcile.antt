-- ===== src/Namespaces/Reconcile.antt =====
-- `ReconcileSliceNamespaces` and `cleanupSliceNamespaces`.
use worker_operator.Base.{String, List, [], ◌∷◌, Result, ok, err, RetryLib, return, ◌>>=◌, some}
use worker_operator.Namespaces.Calls.{
  Slice, NamespaceConfig, Call, Env, Action, list_app_namespaces, get_namespace_config,
}
use worker_operator.Namespaces.Offboard.{unbind_app_namespace}
use worker_operator.Namespaces.Onboard.{reconcile_app_namespaces}
use worker_operator.Namespaces.Allowed.{unbind_allowed_namespace, reconcile_allowed_namespaces}
use worker_operator.Namespaces.Policies.{reconcile_slice_network_policy}

module _ (E : Env) (R : RetryLib Call) where
  -- The `ctrl.Result` is empty throughout, and the reconciliation of the slice stops at an error.
  unfoldable pub reconcile_slice_namespaces : Slice → Action (Slice × Result (Unit {0}))
  reconcile_slice_namespaces s = do
    onboarded ← reconcile_app_namespaces E R s
    elim onboarded.1 [
      | err e ↦ return (onboarded.0, err e)
      | ok _ ↦ do
        allowed ← reconcile_allowed_namespaces E R onboarded.0
        elim allowed.1 [
          | err e ↦ return (allowed.0, err e)
          | ok _ ↦ reconcile_slice_network_policy E allowed.0
        ]
    ]

module _ (E : Env) where
  unfoldable pub unbind_apps : String → NamespaceConfig → List String → Action (Result (Unit {0}))
  unbind_apps slice config [] = return (ok tt)
  unbind_apps slice config (ns ∷ rest) = do
    done ← unbind_app_namespace E slice ns config
    elim done [ err e ↦ return (err e) | ok _ ↦ unbind_apps slice config rest ]

  unfoldable pub unbind_allowed : String → List String → Action (Result (Unit {0}))
  unbind_allowed slice [] = return (ok tt)
  unbind_allowed slice (ns ∷ rest) = do
    done ← unbind_allowed_namespace E slice ns
    elim done [ err e ↦ return (err e) | ok _ ↦ unbind_allowed slice rest ]

  -- Two empty maps where the cluster's configuration cannot be read.
  abbrev pub config_or_empty : Result NamespaceConfig → NamespaceConfig
  config_or_empty (err e) = record { config_labels = some []; config_annotations = some [] }
  config_or_empty (ok config) = config

  unfoldable pub cleanup_slice_namespaces : Slice → Action (Result (Unit {0}))
  cleanup_slice_namespaces s = do
    config ← get_namespace_config E
    names ← list_app_namespaces E s.name
    elim names [
      | err e ↦ return (err e)
      | ok l ↦ do
        apps ← unbind_apps s.name (config_or_empty config) l
        elim apps [ err e ↦ return (err e) | ok _ ↦ unbind_allowed s.name s.allowed_namespaces ]
    ]
