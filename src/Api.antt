-- ===== src/Api.antt =====
-- api/v1alpha1/networkoverlay_types.go: the NetworkOverlay resource. Of the Kubernetes object
-- metadata the program reads the name, the deletion timestamp (whether it is set) and the
-- finalizers. A nil slice and an empty one are both `[]`.
use pontifex.Base.{ℕ, String, Bool, List, Option}

pub record Peer : Type 0 where
  pub name : String
  pub public_key : String
  pub endpoint : String
  pub allowed_ips : List String
  pub asn : ℕ  -- uint32

pub record Edge : Type 0 where
  pub pod_namespace : String
  pub pod_labels_selector : String
  pub virtual_ip : String

pub record NetworkOverlaySpec : Type 0 where
  pub virtual_cidr : String
  pub peers : List Peer
  pub edges : List Edge

pub record Gateway : Type 0 where
  pub node_name : String
  pub node_ip : String
  pub public_ip : String
  pub is_secondary : Bool

pub record EdgeStatus : Type 0 where
  pub virtual_ip : String
  pub pod_namespace : String
  pub pod_name : String
  pub pod_ip : String
  pub node_name : String
  pub node_ip : String
  pub ready : Bool

-- `corev1.SecretReference`
pub record SecretReference : Type 0 where
  pub name : String
  pub namespace : String

pub record NetworkOverlayStatus : Type 0 where
  pub community : String
  pub public_key : String
  pub wg_secret_ref : Option SecretReference
  pub gateways : List Gateway
  pub edges : List EdgeStatus

pub record NetworkOverlay : Type 0 where
  pub name : String
  pub deleting : Bool
  pub finalizers : List String
  pub spec : NetworkOverlaySpec
  pub status : NetworkOverlayStatus
