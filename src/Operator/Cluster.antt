-- ===== src/Operator/Cluster.antt =====
-- The Kubernetes objects that the operator reads, with the fields that it reads, and its calls of
-- the client library on a cluster `W`; `S` is the library's type of label selectors.
use pontifex.Base.{String, Bool, List, Option}
use pontifex.GoMap.{GoMap}
use pontifex.Effects.{Query}
use pontifex.Api.{NetworkOverlay}

-- `corev1.NodeAddressType`
pub data AddressType : Type 0 where
  internal_ip external_ip other_address : AddressType

pub record NodeAddress : Type 0 where
  pub type : AddressType
  pub address : String

pub record Node : Type 0 where
  pub name : String
  pub labels : GoMap String String
  pub addresses : List NodeAddress

pub record Pod : Type 0 where
  pub name : String
  pub node_name : String
  pub pod_ip : String
  pub phase : String
  pub deleting : Bool

pub record Client (S W : Type 0) : Type 0 where
  pub parse_selector : String → Option S
  pub list_nodes_with_label : String → Query W (List Node)
  pub get_node : String → Query W Node
  pub list_pods : String → S → Query W (List Pod)
  pub list_overlays : Query W (List NetworkOverlay)
