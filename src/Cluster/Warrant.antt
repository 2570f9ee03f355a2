-- ===== src/Cluster/Warrant.antt =====
-- Which runs of the cluster controller deregister the cluster.
use worker_operator.Base.{
  ℕ, String, Bool, not, ◌&&◌, Option, none, some, List, [], ok, err, Error, RetryLib, IsRetryLib,
  Adds, Emits, Emits-return, Emits-panic, Emits-bind, Emits-then, Emits-perform, Emits-if,
  Emits-retry_lib, Emits-outcome, Adds-ask, Adds-after, ltb, get_or, ◌-◌,
}
use worker_operator.Cluster.Calls.{ClusterHealth, HubCluster, Call, Env, Action}
use worker_operator.Cluster.Location.{get_cluster_info}
use worker_operator.Cluster.Deregister.{Handling}
use worker_operator.Cluster.Deregister.Warrant.{
  Warranted, Emits-update_registration_status, Adds-handle_cluster_deletion,
}
use worker_operator.Cluster.Health.{not_empty}
use worker_operator.Cluster.Status.{
  Step, step_of, update_network_status, update_cluster_cloud_provider_info,
  update_cni_subnet_config, note_node_ips, update_node_ips,
}
use worker_operator.Cluster.Dashboard.{is_dashboard_creds_updated}
use worker_operator.Cluster.Reconcile.{
  Outcome, after_step, stamp_health, report_health, check_health, check_dashboard, register,
  update_info, report, continue_with, reconcile, reconcile_interval,
}
use worker_operator.Cluster.Steps.{
  Emits-event, Emits-note, Emits-set_network_status, Emits-set_location, Emits-set_subnets,
  Emits-set_node_ips, Emits-update_dashboard_creds, Emits-update_cluster_health_status,
  Emits-update_cluster_metrics,
}

module _ (E : Env) (n : ℕ) where
  abbrev Q : List Call → Call → Type 0
  Q = Warranted n

  Emits-report : (event : String) (o : Option Error) → Emits Q (report event o)
  unfolding report
  Emits-report event none = Emits-return Q tt
  Emits-report event (some e) = Emits-event E n event

  Emits-after_step :
      (event : String) (s : Step) (rest : Action Outcome)
      → Emits Q rest
      → Emits Q (after_step event s rest)
  unfolding after_step
  Emits-after_step event s rest x =
      Emits-then Q _ _ (Emits-report event s.error)
        (Emits-if Q s.requeue _ _ (λ _. Emits-return Q _) (λ _. x))

  Emits-stamp_health : (c : HubCluster) (s : ClusterHealth) → Emits Q (stamp_health E c s)
  unfolding stamp_health
  Emits-stamp_health c s = Emits-bind Q _ _ (Emits-perform Q _ _ (λ h. tt)) (λ now.
      Emits-bind Q _ _ (Emits-perform Q _ _ (λ h. tt)) (elim [
        | err e ↦ Emits-note E n _ _ (Emits-return Q _)
        | ok u ↦ Emits-note E n _ _ (Emits-note E n _ _ (Emits-return Q _))
      ]))

  Emits-report_health : (c : HubCluster) (o : Option ClusterHealth) → Emits Q (report_health E c o)
  unfolding report_health
  Emits-report_health c none = Emits-panic Q _
  Emits-report_health c (some s) = Emits-bind Q _ _ (Emits-perform Q _ _ (λ h. tt)) (λ now.
      Emits-if Q (ltb reconcile_interval (now - s.last_updated)) _ _ (λ _. Emits-stamp_health c s)
        (λ _. Emits-note E n _ _ (Emits-return Q _)))

  Emits-check_health : (c : HubCluster) → Emits Q (check_health E c)
  unfolding check_health
  Emits-check_health c =
      Emits-bind Q _ _ (Emits-update_cluster_health_status E n _) (λ c'.
        Emits-bind Q _ _ (Emits-update_cluster_metrics E n _) (λ u. Emits-report_health c' _))

  Emits-check_dashboard : (c : HubCluster) → Emits Q (check_dashboard E c)
  unfolding check_dashboard
  Emits-check_dashboard c =
      Emits-if Q (not (is_dashboard_creds_updated E c)) _ _
        (λ _.
          Emits-outcome Q _ _ (Emits-update_dashboard_creds E n c)
            (λ c' e. Emits-note E n _ _ (Emits-return Q _))
            (λ c' u. Emits-note E n _ _ (Emits-return Q _)))
        (λ _. Emits-check_health c)

module _ (E : Env) {retriable : Error → Bool} {limit : ℕ} (R : RetryLib Call)
    (law : IsRetryLib retriable limit R) (n : ℕ) where
  abbrev W : List Call → Call → Type 0
  W = Warranted n

  Emits-note_node_ips : (s : Step) (o : Option Error) → Emits W (note_node_ips E R s o)
  unfolding note_node_ips
  Emits-note_node_ips s (some e) = Emits-note E n _ _ (Emits-return W _)
  Emits-note_node_ips s none =
      Emits-if W s.requeue _ _ (λ _. Emits-note E n _ _ (Emits-return W _)) (λ _. Emits-return W _)

  Emits-update_node_ips : (c : HubCluster) → Emits W (update_node_ips E R c)
  unfolding update_node_ips
  Emits-update_node_ips c =
      Emits-bind W _ _ (Emits-retry_lib W R _ _ law (Emits-set_node_ips E n))
        (λ out. Emits-note_node_ips (step_of out) _)

  Emits-update_cni_subnet_config : (c : HubCluster) → Emits W (update_cni_subnet_config E R c)
  unfolding update_cni_subnet_config
  Emits-update_cni_subnet_config c =
      Emits-bind W _ _ (Emits-retry_lib W R _ _ law (Emits-set_subnets E n))
        (λ out. Emits-return W _)

  Emits-update_cluster_cloud_provider_info :
      (c : HubCluster) → Emits W (update_cluster_cloud_provider_info E R c)
  unfolding update_cluster_cloud_provider_info get_cluster_info
  Emits-update_cluster_cloud_provider_info c =
      Emits-bind W _ _
        (Emits-bind W _ _ (Emits-perform W _ _ (λ h. tt)) (λ nodes. Emits-return W _))
        (elim [
          | err e ↦ Emits-return W _
          | ok g ↦
              Emits-bind W _ _ (Emits-retry_lib W R _ _ law (Emits-set_location E n g))
                (λ out. Emits-return W _)
        ])

  Emits-register : (c : HubCluster) → Emits W (register E R c)
  unfolding register
  Emits-register c =
      Emits-if W (c.network_present && not (not_empty (get_or [] c.cni_subnet))) _ _
        (λ _.
          Emits-bind W _ _ (Emits-update_registration_status E R law n c _) (λ u. Emits-return W _))
        (λ _. Emits-bind W _ _ (Emits-update_registration_status E R law n c _) (λ noted.
          Emits-bind W _ _ (Emits-event E n _) (λ u.
            Emits-bind W _ _ (Emits-update_node_ips noted.0) (λ s.
              Emits-after_step E n _ s _
                (Emits-note E n _ _ (Emits-check_dashboard E n s.cluster))))))

  Emits-update_info : (c : HubCluster) → Emits W (update_info E R c)
  unfolding update_info update_network_status
  Emits-update_info c = Emits-bind W _ _ (Emits-update_cluster_cloud_provider_info c) (λ located.
      Emits-after_step E n _ located _ (
        Emits-bind W _ _ (Emits-event E n _) (λ u.
          Emits-outcome W _ _ (Emits-retry_lib W R _ _ law (Emits-set_network_status E n))
            (λ c' e. Emits-return W _)
            (λ c' v.
              Emits-bind W _ _ (Emits-update_cni_subnet_config c')
                (λ s. Emits-after_step E n _ s _ (Emits-register s.cluster))))))

  Emits-continue_with : (v : Handling) → Emits W (continue_with E R v)
  unfolding continue_with
  Emits-continue_with v =
      Emits-if W v.stop _ _ (λ _. Emits-return W _)
        (λ _. Emits-bind W _ _ (Emits-update_info v.cluster) (λ o. Emits-return W _))

  -- A run of the cluster controller creates and deletes the objects of the deregistration only after
  -- it has read the cluster as being deleted, with the finalizer and not marked as being
  -- deregistered, has marked it so, and then has listed no slices and no slice gateways; and only if fewer
  -- than three deregistrations have failed before.
  pub reconcile-Warranted : (name : String) → Adds (Warranted n) [] (reconcile E R n name []).1
  unfolding reconcile
  reconcile-Warranted name =
      Adds-ask W _ _ _ [] (λ a. tt)
        (elim [
          | err e ↦ Emits-return W _ _
          | ok c ↦
              let a = Adds-handle_cluster_deletion E R law n name c [] in
              Adds-after W W _ _ _ a a (λ v k b. Emits-continue_with v k)
        ])
