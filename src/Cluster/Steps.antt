-- ===== src/Cluster/Steps.antt =====
-- The steps of the cluster controller that make no object of the deregistration.
use worker_operator.Base.{
  ℕ, String, Bool, true, Option, none, some, List, [], ◌∷◌, Result, ok, err, ◌==◌, ◌/=◌, string_eq,
  nat_eq, emit, ◌>>◌, Emits, Emits-return, Emits-panic, Emits-bind, Emits-then, Emits-perform,
  Emits-emit, Emits-if, is_already_exists, length, get_or,
}
use worker_operator.Cluster.Calls.{
  Component, ComponentStatus, ClusterHealth, HubCluster, HubSecret, Call, recorded_event, Env,
  Action,
}
use worker_operator.Cluster.Location.{
  GeoLocation, get_prefixes, read_prefixes, get_nsm_excluded_prefix,
}
use worker_operator.Cluster.Deregister.Warrant.{Warranted}
use worker_operator.Cluster.Health.{
  normal, warning, not_empty, get_component_status, check_components, note_change, set_health,
  update_cluster_health_status, set_components_up, update_cluster_metrics, event_of,
}
use worker_operator.Cluster.Status.{
  Held, is_deep_equal, is_stale, is_nsm_installed, set_network_status, has_moved, set_location,
  set_subnets, set_node_ips, ending,
}
use worker_operator.Cluster.Dashboard.{
  post_secret, post_credentials, read_credentials, update_dashboard_creds,
}

module _ (E : Env) (n : ℕ) where
  abbrev Q : List Call → Call → Type 0
  Q = Warranted n

  pub Emits-event : (e : String) → Emits Q (emit (recorded_event e))
  Emits-event e = Emits-emit Q _ (λ h. tt)

  pub Emits-note :
      {A : Type 0} (e : String) (rest : Action A)
      → Emits Q rest
      → Emits Q (emit (recorded_event e) >> rest)
  Emits-note e rest x = Emits-then Q _ rest (Emits-event e) x

  Emits-get_prefixes : (a : Result (Option (Option (List String)))) → Emits Q (get_prefixes a)
  unfolding get_prefixes
  Emits-get_prefixes (err e) = Emits-return Q _
  Emits-get_prefixes (ok none) = Emits-return Q _
  Emits-get_prefixes (ok (some none)) = Emits-panic Q _
  Emits-get_prefixes (ok (some (some l))) = Emits-return Q _

  Emits-read_prefixes : (o : Option String) → Emits Q (read_prefixes E o)
  unfolding read_prefixes
  Emits-read_prefixes none = Emits-return Q _
  Emits-read_prefixes (some text) = Emits-bind Q _ _ (Emits-get_prefixes _) (λ a. Emits-return Q _)

  Emits-get_nsm_excluded_prefix : (c ns : String) → Emits Q (get_nsm_excluded_prefix E c ns)
  unfolding get_nsm_excluded_prefix
  Emits-get_nsm_excluded_prefix c ns = Emits-bind Q _ _ (Emits-perform Q _ _ (λ h. tt)) (elim [
    | err e ↦ Emits-return Q _
    | ok none ↦ Emits-return Q _
    | ok (some entries) ↦
        Emits-if Q (length entries == 0) _ _ (λ _. Emits-return Q _) (λ _. Emits-read_prefixes _)
  ])

  pub Emits-set_network_status : (c : HubCluster) → Emits Q (set_network_status E c)
  unfolding set_network_status is_nsm_installed
  Emits-set_network_status c = Emits-bind Q _ _ (Emits-perform Q _ _ (λ h. tt)) (elim [
    | err e ↦ Emits-return Q _
    | ok c' ↦
        Emits-bind Q _ _
          (Emits-bind Q _ _ (Emits-perform Q _ _ (λ h. tt))
            (elim [ err e ↦ Emits-return Q _ | ok m ↦ Emits-return Q _ ]))
          (λ present. Emits-bind Q _ _ (Emits-perform Q _ _ (λ h. tt)) (λ done. Emits-return Q _))
  ])

  Emits-ending :
      (b : Bool) (c : HubCluster) (write : Action (Result (Unit {0})))
      → Emits Q write
      → Emits Q (ending b c write)
  Emits-ending b c write x = Emits-bind Q write _ x (λ done. Emits-return Q _)

  pub Emits-set_location : (g : GeoLocation) (s : Held) → Emits Q (set_location E g s)
  unfolding set_location
  Emits-set_location g (c, b) = Emits-bind Q _ _ (Emits-perform Q _ _ (λ h. tt)) (elim [
    | err e ↦ Emits-return Q _
    | ok c' ↦
        Emits-if Q (has_moved E g c') _ _
          (λ _. Emits-ending true _ _ (Emits-perform Q _ _ (λ h. tt))) (λ _. Emits-return Q _)
  ])

  pub Emits-set_subnets : (s : Held) → Emits Q (set_subnets E s)
  unfolding set_subnets
  Emits-set_subnets (c, b) = Emits-bind Q _ _ (Emits-perform Q _ _ (λ h. tt)) (elim [
    | err e ↦ Emits-return Q _
    | ok c' ↦
        Emits-if Q c'.network_present _ _
          (λ _. Emits-bind Q _ _ (Emits-get_nsm_excluded_prefix _ _) (elim [
            | err e ↦ Emits-return Q _
            | ok l ↦
                Emits-if Q (is_deep_equal c'.cni_subnet l) _ _ (λ _. Emits-return Q _)
                  (λ _. Emits-ending true _ _ (Emits-perform Q _ _ (λ h. tt)))
          ]))
          (λ _.
            Emits-if Q (not_empty (get_or [] c'.cni_subnet)) _ _
              (λ _. Emits-ending b _ _ (Emits-perform Q _ _ (λ h. tt))) (λ _. Emits-return Q _))
  ])

  pub Emits-set_node_ips : (s : Held) → Emits Q (set_node_ips E s)
  unfolding set_node_ips
  Emits-set_node_ips (c, b) = Emits-bind Q _ _ (Emits-perform Q _ _ (λ h. tt)) (elim [
    | err e ↦ Emits-return Q _
    | ok c' ↦ Emits-bind Q _ _ (Emits-perform Q _ _ (λ h. tt)) (elim [
      | err e ↦ Emits-return Q _
      | ok l ↦
          Emits-if Q (is_stale l c'.node_ips) _ _
            (λ _. Emits-ending true _ _ (Emits-perform Q _ _ (λ h. tt))) (λ _. Emits-return Q _)
    ])
  ])

  Emits-post_secret : (s : HubSecret) → Emits Q (post_secret E s)
  unfolding post_secret
  Emits-post_secret s = Emits-bind Q _ _ (Emits-perform Q _ _ (λ h. tt)) (elim [
    | err e ↦
        Emits-if Q (is_already_exists e) _ _ (λ _. Emits-perform Q _ _ (λ h. tt))
          (λ _. Emits-return Q _)
    | ok u ↦ Emits-return Q _
  ])

  Emits-post_credentials :
      (c : HubCluster) (s : Result HubSecret) → Emits Q (post_credentials E c s)
  unfolding post_credentials
  Emits-post_credentials c (err e) = Emits-return Q _
  Emits-post_credentials c (ok s) = Emits-bind Q _ _ (Emits-post_secret s) (elim [
    | err e ↦ Emits-return Q _
    | ok u ↦ Emits-bind Q _ _ (Emits-perform Q _ _ (λ h. tt)) (λ a. Emits-return Q _)
  ])

  Emits-read_credentials : (c : HubCluster) (l : List String) → Emits Q (read_credentials E c l)
  unfolding read_credentials
  Emits-read_credentials c [] = Emits-return Q _
  Emits-read_credentials c (x ∷ xs) =
      Emits-bind Q _ _ (Emits-perform Q _ _ (λ h. tt))
        (elim [ err e ↦ Emits-return Q _ | ok o ↦ Emits-post_credentials c _ ])

  pub Emits-update_dashboard_creds : (c : HubCluster) → Emits Q (update_dashboard_creds E c)
  unfolding update_dashboard_creds
  Emits-update_dashboard_creds c =
      Emits-bind Q _ _ (Emits-perform Q _ _ (λ h. tt))
        (elim [ err e ↦ Emits-return Q _ | ok l ↦ Emits-read_credentials c l ])

  Emits-get_component_status :
      (c : Component) (cr : HubCluster) → Emits Q (get_component_status E c cr)
  unfolding get_component_status
  Emits-get_component_status c cr =
      Emits-if Q (c.name == "node-ips") _ _ (λ _. Emits-return Q _)
        (λ _.
          Emits-if Q (c.name == "cni-subnets") _ _ (λ _. Emits-return Q _)
            (λ _. Emits-bind Q _ _ (Emits-perform Q _ _ (λ h. tt)) (λ a. Emits-return Q _)))

  Emits-check_components :
      (cr : HubCluster) (cs : List Component) (s : List ComponentStatus × String)
      → Emits Q (check_components E cr cs s)
  unfolding check_components
  Emits-check_components cr [] s = Emits-return Q s
  Emits-check_components cr (c ∷ cs) s =
      Emits-bind Q _ _ (Emits-get_component_status c cr) (λ a. Emits-check_components cr cs _)

  Emits-event_of : (s : String) → Emits Q (event_of s)
  Emits-event_of s =
      Emits-if Q (s == normal) _ _ (λ _. Emits-event _)
        (λ _. Emits-if Q (s == warning) _ _ (λ _. Emits-event _) (λ _. Emits-return Q _))

  Emits-note_change : (o : Option ClusterHealth) (s : String) → Emits Q (note_change E o s)
  unfolding note_change
  Emits-note_change none s = Emits-panic Q _
  Emits-note_change (some old) s =
      Emits-if Q (old.cluster_health_status /= s) _ _ (λ _. Emits-event_of s)
        (λ _. Emits-return Q _)

  Emits-set_health :
      (cr : HubCluster) (o : Option ClusterHealth) (s : List ComponentStatus × String)
      → Emits Q (set_health E cr o s)
  unfolding set_health
  Emits-set_health cr none s = Emits-panic Q _
  Emits-set_health cr (some old) s = Emits-return Q _

  pub Emits-update_cluster_health_status :
      (cr : HubCluster) → Emits Q (update_cluster_health_status E cr)
  unfolding update_cluster_health_status
  Emits-update_cluster_health_status cr =
      Emits-if Q cr.network_present _ _
        (λ _.
          Emits-bind Q _ _ (Emits-check_components cr _ _)
            (λ s. Emits-bind Q _ _ (Emits-note_change _ _) (λ u. Emits-set_health cr _ s)))
        (λ _. Emits-set_health cr _ _)

  Emits-set_components_up : (l : List ComponentStatus) → Emits Q (set_components_up l)
  unfolding set_components_up
  Emits-set_components_up [] = Emits-return Q tt
  Emits-set_components_up (x ∷ xs) =
      Emits-then Q _ _ (Emits-emit Q _ (λ h. tt)) (Emits-set_components_up xs)

  pub Emits-update_cluster_metrics : (o : Option ClusterHealth) → Emits Q (update_cluster_metrics o)
  unfolding update_cluster_metrics
  Emits-update_cluster_metrics none = Emits-panic Q _
  Emits-update_cluster_metrics (some x) =
      Emits-then Q _ _ (Emits-emit Q _ (λ h. tt)) (Emits-set_components_up _)
