-- ===== src/Objects.antt =====
-- The Kubernetes objects that the controllers exchange: the operator's own kinds, after
-- api/v1beta1, and of the kinds of other APIs the fields that the operator reads or writes.
use worker_operator.Base.{ℕ, String, Option, List, Dict}

abbrev pub Labels : Type 0
Labels = Dict String String

-- The numbers are opaque readings; `status` is the bit pattern of an int32.
pub record TunnelStatus : Type 0 where
  pub intf_name : String
  pub local_ip : String
  pub remote_ip : String
  pub latency : ℕ
  pub tx_rate : ℕ
  pub rx_rate : ℕ
  pub packet_loss : ℕ
  pub status : ℕ
  pub tunnel_state : String

pub record GwPodInfo : Type 0 where
  pub pod_name : String
  pub peer_pod_name : String
  pub pod_ip : String
  pub local_nsm_ip : String
  pub tunnel_status : TunnelStatus
  pub remote_port : ℕ

-- A slice gateway: its name, `Spec.SliceName`, the fields of `Status.Config` that the
-- controllers use (without the prefix `SliceGateway`), and `Status.GatewayPodStatus`.
pub record SliceGateway : Type 0 where
  pub name : String
  pub slice_name : String
  pub gateway_id : String
  pub host_type : String
  pub connectivity_type : String
  pub remote_gateway_id : String
  pub remote_subnet : String
  pub remote_node_ips : List String
  pub remote_node_ports : List ℕ
  pub server_lb_ips : List String
  pub intermediate_deployments : List String
  pub gateway_pod_status : List GwPodInfo

-- A label map may be nil.
pub record Pod : Type 0 where
  pub name : String
  pub labels : Option Labels
  pub node_name : String
  pub phase : String
  pub pod_ip : String

pub record Deployment : Type 0 where
  pub name : String
  pub labels : Option Labels

pub record GwPair : Type 0 where
  pub client_id : String
  pub server_id : String

-- `WorkerSliceGwRecycler`, the object through which the two clusters of a gateway pair recycle
-- it: the server writes `state` and `request`, the client writes `response`.
pub record GwRecycler : Type 0 where
  pub name : String
  pub slice_gw_server : String
  pub slice_gw_client : String
  pub gw_pair : GwPair
  pub state : String
  pub request : String
  pub response : String
