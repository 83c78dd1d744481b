-- ===== src/Examples/Snapshot.antt =====
-- Small overlays, and the node `n1` that serves an edge of one of them.
use pontifex.Base.{true, false, List, [], ◌∷◌, none}
use pontifex.Api.{NetworkOverlay, Gateway, EdgeStatus, Peer}
use pontifex.Agent.Bgp.Internal.{InternalReconciler}

abbrev pub gateway_node : Gateway
gateway_node = record {
  node_name = "g1";
  node_ip = "10.0.0.1";
  public_ip = "";
  is_secondary = false;
}

abbrev pub edge_on_node : EdgeStatus
edge_on_node = record {
  virtual_ip = "10.1.0.5";
  pod_namespace = "default";
  pod_name = "web";
  pod_ip = "10.244.0.7";
  node_name = "n1";
  node_ip = "10.0.0.2";
  ready = true;
}

abbrev pub peer : Peer
peer = record {
  name = "east";
  public_key = "k";
  endpoint = "192.0.2.1:51820";
  allowed_ips = [];
  asn = 65001;
}

abbrev pub overlay : NetworkOverlay
overlay = record {
  name = "ov1";
  deleting = false;
  finalizers = [];
  spec = record { virtual_cidr = "10.1.0.0/24"; peers = peer ∷ []; edges = [] };
  status = record {
    community = "65000:1";
    public_key = "";
    wg_secret_ref = none;
    gateways = gateway_node ∷ [];
    edges = edge_on_node ∷ [];
  };
}

abbrev pub snapshot : List NetworkOverlay
snapshot = overlay ∷ []

abbrev pub node : InternalReconciler
node = record { asn = 65000; router_id = "10.0.0.2"; node_name = "n1" }
