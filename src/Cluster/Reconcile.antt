-- ===== src/Cluster/Reconcile.antt =====
-- `Reconcile` of reconciler.go, by its steps in turn.
use worker_operator.Base.{
  ℕ, ◌-◌, String, not, ◌&&◌, Option, none, some, [], ok, err, Error, is_not_found, Requeue,
  no_requeue, requeue_now, requeue_after, string_eq, nat_eq, ltb, if◌then◌else◌, get_or, RetryLib,
  return, panic, ◌>>=◌, ◌>>◌,
}
use worker_operator.Cluster.Calls.{
  ClusterHealth, HubCluster, Call, Env, Action, get_cluster, update_cluster_status, current_time,
  record_event,
}
use worker_operator.Cluster.Deregister.{
  Handling, update_registration_status, handle_cluster_deletion,
}
use worker_operator.Cluster.Health.{not_empty, update_cluster_health_status, update_cluster_metrics}
use worker_operator.Cluster.Status.{
  Step, update_network_status, update_cluster_cloud_provider_info, update_cni_subnet_config,
  update_node_ips,
}
use worker_operator.Cluster.Dashboard.{is_dashboard_creds_updated, update_dashboard_creds}

abbrev pub Outcome : Type 0
Outcome = Requeue × Option Error

abbrev pub reconcile_interval : ℕ
reconcile_interval = 120

abbrev pub blank_health : ClusterHealth
blank_health = record { component_statuses = []; cluster_health_status = ""; last_updated = 0 }

abbrev pub health_or_blank : Option ClusterHealth → ClusterHealth
health_or_blank none = blank_health
health_or_blank (some health) = health

-- The event of an error.
unfoldable pub report : String → Option Error → Action (Unit {0})
report event none = return tt
report event (some e) = record_event event

-- What follows a step: the end of the reconciliation, or the rest of it.
unfoldable pub after_step : String → Step → Action Outcome → Action Outcome
after_step event s rest =
    report event s.error >> (if s.requeue then return (s.result, s.error) else rest)

module _ (E : Env) where
  unfoldable pub stamp_health : HubCluster → ClusterHealth → Action Outcome
  stamp_health cr health = do
    now ← current_time E
    done ←
        update_cluster_status E
          (record cr { cluster_health = some (record health { last_updated = now }) })
    elim done [
      | err e ↦ record_event "ClusterHealthStatusUpdateFailed" >> return (no_requeue, some e)
      | ok _ ↦
          record_event "ClusterHealthStatusUpdated"
          >> (record_event "ClusterHealthStatusUpdated"
              >> return (requeue_after reconcile_interval, none))
    ]

  unfoldable pub report_health : HubCluster → Option ClusterHealth → Action Outcome
  report_health cr none = panic
  report_health cr (some health) = do
    now ← current_time E
    if ltb reconcile_interval (now - health.last_updated)
        then stamp_health cr health
        else record_event "ClusterHealthStatusUpdated"
          >> return (requeue_after reconcile_interval, none)

  unfoldable pub check_health : HubCluster → Action Outcome
  check_health cr = do
    cr' ←
        update_cluster_health_status E
          (record cr { cluster_health = some (health_or_blank cr.cluster_health) })
    _ ← update_cluster_metrics cr'.cluster_health
    report_health cr' cr'.cluster_health

  unfoldable pub check_dashboard : HubCluster → Action Outcome
  check_dashboard cr =
      if not (is_dashboard_creds_updated E cr)
      then (do
        done ← update_dashboard_creds E cr
        elim done.1 [
          | err e ↦ record_event "ClusterDashboardCredsUpdateFailed" >> return (no_requeue, some e)
          | ok _ ↦ record_event "ClusterDashboardCredsUpdated" >> return (requeue_now, none)
        ])
      else check_health cr

module _ (E : Env) (R : RetryLib Call) where
  -- An error of the registration status is only logged.
  unfoldable pub register : HubCluster → Action Outcome
  register cr =
      if cr.network_present && not (not_empty (get_or [] cr.cni_subnet))
      then (do _ ← update_registration_status E R cr "Pending"; return (requeue_now, none))
      else (do
        noted ← update_registration_status E R cr "Registered"
        _ ← record_event "ClusterCNISubnetUpdateSuccessful"
        s ← update_node_ips E R noted.0
        after_step "ClusterNodeIpUpdateFailed" s
            (record_event "ClusterNodeIpUpdateSuccessful" >> check_dashboard E s.cluster))

  unfoldable pub update_info : HubCluster → Action Outcome
  update_info cr = do
    located ← update_cluster_cloud_provider_info E R cr
    after_step "ClusterProviderUpdateInfoFailed" located (do
      _ ← record_event "ClusterProviderUpdateInfoSuccesful"
      network ← update_network_status E R located.cluster
      elim network.1 [
        | err e ↦ return (no_requeue, some e)
        | ok _ ↦ do
          subnets ← update_cni_subnet_config E R network.0
          after_step "ClusterCNISubnetUpdateFailed" subnets (register subnets.cluster)
      ])

  -- What follows the handling of a deletion.
  unfoldable pub continue_with : Handling → Action (ℕ × Outcome)
  continue_with v =
      if v.stop
      then return (v.attempts, (v.result, v.error))
      else (do outcome ← update_info v.cluster; return (v.attempts, outcome))

  -- With the global count of failed deregistrations before and after it.
  unfoldable pub reconcile : ℕ → String → Action (ℕ × Outcome)
  reconcile attempts name = do
    got ← get_cluster E name
    elim got [
      | err e ↦ return (attempts, (no_requeue, if is_not_found e then none else some e))
      | ok cr ↦ do handled ← handle_cluster_deletion E R attempts cr; continue_with handled
    ]
