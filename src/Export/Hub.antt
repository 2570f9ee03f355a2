-- ===== src/Export/Hub.antt =====
-- The hub client's calls for service exports, pkg/hub/hubclient/hubclient.go.
use worker_operator.Base.{
  ℕ, String, ◌<>◌, List, [], ◌∷◌, Result, ok, err, is_not_found, if◌then◌else◌, map, M, return,
  panic, perform, ◌>>=◌,
}
use worker_operator.Export.Calls.{ServicePod, ServicePort, ServiceExport}

pub record DiscoveryEndpoint : Type 0 where
  pub pod_name : String
  pub cluster : String
  pub nsm_ip : String
  pub dns_name : String
  pub port : ℕ

pub record DiscoveryPort : Type 0 where
  pub name : String
  pub port : ℕ
  pub protocol : String
  pub service_port : ℕ
  pub service_protocol : String

pub record ConfigSpec : Type 0 where
  pub service_name : String
  pub service_namespace : String
  pub source_cluster : String
  pub slice_name : String
  pub endpoints : List DiscoveryEndpoint
  pub ports : List DiscoveryPort
  pub aliases : List String

-- The hub's object, by its name in the project's namespace.
pub record ServiceExportConfig : Type 0 where
  pub name : String
  pub spec : ConfigSpec

pub data HubCall : Type 0 where
  got_config : String → Result ServiceExportConfig → HubCall
  created_config : ServiceExportConfig → Result (Unit {0}) → HubCall
  updated_config : ServiceExportConfig → Result (Unit {0}) → HubCall
  deleted_config : ServiceExportConfig → Result (Unit {0}) → HubCall

pub record Hub : Type 0 where
  pub cluster_name : String
  pub get_config : List HubCall → String → Result ServiceExportConfig
  pub create_config : List HubCall → ServiceExportConfig → Result (Unit {0})
  pub update_config : List HubCall → ServiceExportConfig → Result (Unit {0})
  pub delete_config : List HubCall → ServiceExportConfig → Result (Unit {0})

module _ (H : Hub) where
  abbrev get_config : String → M HubCall (Result ServiceExportConfig)
  get_config n = perform (λ h. H.get_config h n) (got_config n)

  abbrev create_config : ServiceExportConfig → M HubCall (Result (Unit {0}))
  create_config c = perform (λ h. H.create_config h c) (created_config c)

  abbrev update_config : ServiceExportConfig → M HubCall (Result (Unit {0}))
  update_config c = perform (λ h. H.update_config h c) (updated_config c)

  abbrev delete_config : ServiceExportConfig → M HubCall (Result (Unit {0}))
  delete_config c = perform (λ h. H.delete_config h c) (deleted_config c)

  abbrev pub get_hub_service_discovery_eps : ℕ → List ServicePod → List DiscoveryEndpoint
  get_hub_service_discovery_eps port pods =
      map
        (λ pod. record {
          pod_name = pod.name;
          cluster = H.cluster_name;
          nsm_ip = pod.nsm_ip;
          dns_name = pod.dns_name;
          port = port;
        })
        pods

  abbrev pub get_hub_service_discovery_ports : List ServicePort → List DiscoveryPort
  get_hub_service_discovery_ports ports =
      map
        (λ p. record {
          name = p.name;
          port = p.container_port;
          protocol = p.protocol;
          service_port = p.service_port;
          service_protocol = p.service_protocol;
        })
        ports

  abbrev pub get_hub_service_export_obj_name : ServiceExport → String
  get_hub_service_export_obj_name x = x.name <> ("-" <> (x.namespace <> ("-" <> H.cluster_name)))

  abbrev pub config_of : ServiceExport → List DiscoveryEndpoint → ServiceExportConfig
  config_of x endpoints = record {
    name = get_hub_service_export_obj_name x;
    spec = record {
      service_name = x.name;
      service_namespace = x.namespace;
      source_cluster = H.cluster_name;
      slice_name = x.slice;
      endpoints = endpoints;
      ports = get_hub_service_discovery_ports x.ports;
      aliases = x.aliases;
    };
  }

  -- The first port is read, so an export without ports panics.
  unfoldable pub get_hub_service_export_obj :
      ServiceExport → List ServicePort → M HubCall ServiceExportConfig
  get_hub_service_export_obj x [] = panic
  get_hub_service_export_obj x (p ∷ ps) =
      return (config_of x (get_hub_service_discovery_eps p.container_port x.pods))

  unfoldable pub update_service_export : ServiceExport → M HubCall (Result (Unit {0}))
  update_service_export x = do
    got ← get_config (get_hub_service_export_obj_name x)
    elim got [
      | err e ↦
          if is_not_found e
          then get_hub_service_export_obj x x.ports >>= create_config
          else return (err e)
      | ok c ↦ get_hub_service_export_obj x x.ports >>= λ obj.
          update_config (record c { spec = obj.spec })
    ]

  abbrev pub get_hub_service_discovery_ep_for_ingress_gw : ServicePod → DiscoveryEndpoint
  get_hub_service_discovery_ep_for_ingress_gw ep = record {
    pod_name = ep.name;
    cluster = H.cluster_name;
    nsm_ip = ep.nsm_ip;
    dns_name = ep.dns_name;
    port = 8080;
  }

  abbrev pub with_endpoint : ServiceExport → ServicePod → ConfigSpec → ConfigSpec
  with_endpoint x ep s = record s {
    endpoints = get_hub_service_discovery_ep_for_ingress_gw ep ∷ [];
    ports = get_hub_service_discovery_ports x.ports;
    aliases = x.aliases;
  }

  unfoldable pub update_service_export_endpoint_for_ingress_gw :
      ServiceExport → ServicePod → M HubCall (Result (Unit {0}))
  update_service_export_endpoint_for_ingress_gw x ep = do
    got ← get_config (get_hub_service_export_obj_name x)
    elim got [
      | err e ↦
          if is_not_found e
          then create_config (config_of x (get_hub_service_discovery_ep_for_ingress_gw ep ∷ []))
          else return (err e)
      | ok c ↦ update_config (record c { spec = with_endpoint x ep c.spec })
    ]

  unfoldable pub delete_service_export : ServiceExport → M HubCall (Result (Unit {0}))
  delete_service_export x = do
    got ← get_config (get_hub_service_export_obj_name x)
    elim got [
      | err e ↦ if is_not_found e then return (ok tt) else return (err e)
      | ok c ↦ delete_config c
    ]
