-- ===== src/Export/Published.antt =====
-- What the hub holds of a service export after it was told without an error.
use worker_operator.Base.{
  ℕ, String, ◌<>◌, true, List, [], ◌∷◌, Result, ok, err, Error, is_not_found, ◌⊎◌, inl, inr, ◌≡◌,
  refl, M, return, panic, perform, ◌>>=◌, same, more, Did, did_now, did_before, Holds, Holds-return,
  Holds-ask, Holds-if, Post,
}
use worker_operator.Export.Calls.{ServicePod, ServicePort, ServiceExport}
use worker_operator.Export.Hub.{
  DiscoveryEndpoint, DiscoveryPort, get_hub_service_discovery_ports, ConfigSpec,
  ServiceExportConfig, HubCall, got_config, created_config, updated_config, Hub,
  get_hub_service_discovery_eps, get_hub_service_export_obj, config_of, update_service_export,
}

abbrev QHub : List HubCall → HubCall → Type 0
QHub h c = Unit

-- Nothing is said of an error.
abbrev pub IfTold : (List HubCall → Type 0) → Result (Unit {0}) → List HubCall → Type 0
IfTold P (err e) k = Unit
IfTold P (ok u) k = P k

-- A call at the end of a run, by its answer.
Holds-tell :
    (P : List HubCall → Type 0) (respond : List HubCall → Result (Unit {0}))
    (note : Result (Unit {0}) → HubCall) (h : List HubCall)
    → P (note (ok tt) ∷ h)
    → Holds QHub (IfTold P) h (perform respond note h)
unfolding perform
Holds-tell P respond note h p = (more _ same tt, by_answer (respond h))
  where
    by_answer : (r : Result (Unit {0})) → IfTold P r (note r ∷ h)
    by_answer (err e) = tt
    by_answer (ok u) = p

module _ (H : Hub) (x : ServiceExport) where
  -- The name of the export's object on the hub.
  abbrev pub object_name : String
  object_name = x.name <> ("-" <> (x.namespace <> ("-" <> H.cluster_name)))

  -- The object of the export was missing and created with a spec, or was found and given it.
  abbrev pub IsWritten : ConfigSpec → List HubCall → Type 0
  IsWritten s k =
      ((e : Error) × Did (λ c. c ≡ got_config object_name (err e)) k
        × (is_not_found e ≡ true)
        × Did (λ c. c ≡ created_config (record { name = object_name; spec = s }) (ok tt)) k)
      ⊎ ((old : ServiceExportConfig) × Did (λ c. c ≡ got_config object_name (ok old)) k
          × Did (λ c. c ≡ updated_config (record old { spec = s }) (ok tt)) k)

  -- Each pod as an endpoint at the port, in order.
  abbrev pub AreEndpoints : ℕ → List ServicePod → List DiscoveryEndpoint → Type 0
  AreEndpoints port [] [] = Unit
  AreEndpoints port (pod ∷ pods) (e ∷ es) =
      ((e.pod_name ≡ pod.name)
        × (e.cluster ≡ H.cluster_name)
        × (e.nsm_ip ≡ pod.nsm_ip)
        × (e.dns_name ≡ pod.dns_name)
        × (e.port ≡ port))
      × AreEndpoints port pods es
  AreEndpoints port _ _ = ⊥

  -- Each port, in order.
  abbrev pub ArePorts : List ServicePort → List DiscoveryPort → Type 0
  ArePorts [] [] = Unit
  ArePorts (p ∷ ps) (d ∷ ds) =
      ((d.name ≡ p.name)
        × (d.port ≡ p.container_port)
        × (d.protocol ≡ p.protocol)
        × (d.service_port ≡ p.service_port)
        × (d.service_protocol ≡ p.service_protocol))
      × ArePorts ps ds
  ArePorts _ _ = ⊥

  -- The spec is that of the export, whose pods are reached at its first port.
  abbrev pub IsSpec : ConfigSpec → Type 0
  IsSpec s =
      (s.service_name ≡ x.name)
      × (s.service_namespace ≡ x.namespace)
      × (s.source_cluster ≡ H.cluster_name)
      × (s.slice_name ≡ x.slice)
      × (s.aliases ≡ x.aliases)
      × ArePorts x.ports s.ports
      × ((first : ServicePort) × (others : List ServicePort) × (x.ports ≡ first ∷ others)
          × AreEndpoints first.container_port x.pods s.endpoints)

  abbrev pub IsPublished : List HubCall → Type 0
  IsPublished k = (s : ConfigSpec) × IsSpec s × IsWritten s k

  endpoints-AreEndpoints :
      (port : ℕ) (pods : List ServicePod)
      → AreEndpoints port pods (get_hub_service_discovery_eps H port pods)
  endpoints-AreEndpoints port [] = tt
  endpoints-AreEndpoints port (pod ∷ pods) =
      ((refl, refl, refl, refl, refl), endpoints-AreEndpoints port pods)

  ports-ArePorts :
      (ports : List ServicePort) → ArePorts ports (get_hub_service_discovery_ports H ports)
  ports-ArePorts [] = tt
  ports-ArePorts (p ∷ ps) = ((refl, refl, refl, refl, refl), ports-ArePorts ps)

  -- The spec that the code builds.
  abbrev built : ServicePort → ConfigSpec
  built p = (config_of H x (get_hub_service_discovery_eps H p.container_port x.pods)).spec

  built-IsSpec : (p : ServicePort) (ps : List ServicePort) → x.ports ≡ p ∷ ps → IsSpec (built p)
  built-IsSpec p ps q = (
    refl,
    refl,
    refl,
    refl,
    refl,
    ports-ArePorts x.ports,
    (p, ps, q, endpoints-AreEndpoints p.container_port x.pods),
  )

  Holds-object :
      (ports : List ServicePort) (f : ServiceExportConfig → M HubCall (Result (Unit {0})))
      (h : List HubCall)
      → ((p : ServicePort) (ps : List ServicePort)
          → ports ≡ p ∷ ps
          → Holds QHub
              (IfTold IsPublished)
              h
              (f (config_of H x (get_hub_service_discovery_eps H p.container_port x.pods)) h))
      → Holds QHub (IfTold IsPublished) h ((get_hub_service_export_obj H x ports >>= f) h)
  unfolding get_hub_service_export_obj panic return ◌>>=◌
  Holds-object [] f h k = (same, tt)
  Holds-object (p ∷ ps) f h k = k p ps refl

  Holds-update_service_export :
      (h : List HubCall) → Holds QHub (IfTold IsPublished) h (update_service_export H x h)
  unfolding update_service_export
  Holds-update_service_export h =
      let R = IfTold IsPublished in
      Holds-ask QHub R _ _ _ h (λ a. tt)
        (elim [
          | err e ↦
              Holds-if QHub R (is_not_found e) _ _ _
                (λ n. Holds-object x.ports _ _ (λ p ps q. Holds-tell IsPublished _ _ _ (
                  built p,
                  built-IsSpec p ps q,
                  inl (e, did_before _ (did_now _ refl), n, did_now _ refl),
                )))
                (λ _. Holds-return QHub R (err e) _ tt)
          | ok c ↦ Holds-object x.ports _ _ (λ p ps q. Holds-tell IsPublished _ _ _ (
            built p,
            built-IsSpec p ps q,
            inr (c, did_before _ (did_now _ refl), did_now _ refl),
          ))
        ])

-- If the hub is told of a service export without an error, the export has a port, and the hub's
-- object was created or updated with the spec of the export: its name, namespace, cluster and slice,
-- all its ports and aliases, and each of its pods at its first port.
pub update_service_export-IsPublished :
    (H : Hub) (x : ServiceExport) → Post (IfTold (IsPublished H x)) (update_service_export H x [])
update_service_export-IsPublished H x = (Holds-update_service_export H x []).1
