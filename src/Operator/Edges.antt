-- ===== src/Operator/Edges.antt =====
-- apps/operator/internal/controller/networkoverlay_controller.go: the pods that serve an overlay's
-- edges.
pub mod Resolved
use pontifex.Base.{
  String, Bool, true, false, not, ◌&&◌, List, [], ◌∷◌, ◌==◌, comparable_string, if◌then◌else◌,
  Option, none, some,
}
use pontifex.GoMap.{GoSet, has, index_by}
use pontifex.Effects.{Query, Action, ◌>>=◌, ◌>>◌, pure, ask, called}
use pontifex.Api.{Edge, EdgeStatus, NetworkOverlay}
use pontifex.Operator.Cluster.{AddressType, internal_ip, NodeAddress, Node, Pod, Client}

-- `EdgeStatus{VirtualIP: edge.VirtualIP, PodNamespace: edge.PodNamespace}`
abbrev pub unresolved : Edge → EdgeStatus
unresolved edge = record {
  virtual_ip = edge.virtual_ip;
  pod_namespace = edge.pod_namespace;
  pod_name = "";
  pod_ip = "";
  node_name = "";
  node_ip = "";
  ready = false;
}

abbrev is_internal : AddressType → Bool
is_internal internal_ip = true
is_internal _ = false

-- The first internal address.
unfoldable pub first_internal_ip : List NodeAddress → String
first_internal_ip [] = ""
first_internal_ip (a ∷ rest) =
    let later = first_internal_ip rest in if is_internal a.type then a.address else later

abbrev pub resolved : Edge → Pod → Node → EdgeStatus
resolved edge pod node = record {
  virtual_ip = edge.virtual_ip;
  pod_namespace = edge.pod_namespace;
  pod_name = pod.name;
  pod_ip = pod.pod_ip;
  node_name = pod.node_name;
  node_ip = first_internal_ip node.addresses;
  ready = true;
}

abbrev pub is_running : Pod → Bool
is_running pod = pod.phase == "Running" && not pod.deleting

unfoldable pub running_pods : List Pod → List Pod
running_pods [] = []
running_pods (pod ∷ pods) =
    let rest = running_pods pods in if is_running pod then pod ∷ rest else rest

module _ {S W : Type 0} (client : Client S W) (gateways : GoSet String) (edge : Edge) where
  -- The `switch` on the number of running pods, and what follows it.
  unfoldable pub resolve_running : List Pod → Action W EdgeStatus
  resolve_running [] = pure (unresolved edge)
  resolve_running (pod ∷ []) = elim (has pod.node_name gateways) [
    | true ↦ pure (unresolved edge)
    | false ↦ (do node ← ask (client.get_node pod.node_name); pure (resolved edge pod node))
  ]
  resolve_running (_ ∷ _ ∷ _) = pure (unresolved edge)

  -- The body of the loop over edges.
  unfoldable pub resolve_edge : Action W EdgeStatus
  unfolding resolve_running
  resolve_edge = elim (client.parse_selector edge.pod_labels_selector) [
    | none ↦ pure (unresolved edge)
    | some selector ↦ (do
      pods ← ask (client.list_pods edge.pod_namespace selector)
      resolve_running (running_pods pods))
  ]

module _ {S W : Type 0} (client : Client S W) where
  unfoldable pub resolve_all : GoSet String → List Edge → Action W (List EdgeStatus)
  unfolding resolve_edge
  resolve_all gateways [] = pure []
  resolve_all gateways (edge ∷ edges) = do
    status ← resolve_edge client gateways edge
    rest ← resolve_all gateways edges
    pure (status ∷ rest)

  -- `resolveEdges`
  unfoldable pub resolve_edges : String → NetworkOverlay → Query W (List EdgeStatus)
  unfolding resolve_all
  resolve_edges gateway_node_label overlay = called (do
    gateway_nodes ← ask (client.list_nodes_with_label gateway_node_label)
    resolve_all (index_by Node.name gateway_nodes []) overlay.spec.edges)
