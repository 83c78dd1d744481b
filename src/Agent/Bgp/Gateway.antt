-- ===== src/Agent/Bgp/Gateway.antt =====
-- apps/agent/internal/reconcilers/bgp/gateway.go: the BGP reconciler of a gateway.
pub mod Stages
pub mod Desired
pub mod Content
pub mod Convergence
pub mod Succeeds
use pontifex.Base.{
  ℕ, String, ◌<>◌, Bool, true, false, not, ◌||◌, List, [], ◌∷◌, ◌++◌, Option, none, some, ◌==◌,
  comparable_string, if◌then◌else◌,
}
use pontifex.GoMap.{GoMap, has, put, index_by, Runtime, values}
use pontifex.GoNet.{split_host_port, is_ip}
use pontifex.Effects.{Error, ◌>>=◌, ◌>>◌, query, perform, reconciled}
use pontifex.Effects.Settles.{remove_orphans, install_missing}
use pontifex.Api.{NetworkOverlay, EdgeStatus}
use pontifex.Api as Api
use pontifex.Agent.Bgp.{Neighbor, Policy, Server, policy_import, policy_export}

pub record GatewayReconciler : Type 0 where
  pub asn : ℕ
  pub router_id : String
  pub is_secondary : Bool

-- `peerAddress`; `none` is an error, which is only logged.
unfoldable pub peer_address : String → Option String
peer_address endpoint = elim (split_host_port endpoint) [
  | some host ↦ some host
  | none ↦ if is_ip endpoint then some endpoint else none
]

abbrev pub neighbor_policies : Bool → NetworkOverlay → List String
neighbor_policies is_secondary ov =
    let policies : List String = ("pntfx-import-" <> ov.name) ∷ ("pntfx-export-" <> ov.name) ∷ [] in
    if is_secondary then policies ++ ("pntfx-prepend-" <> ov.name) ∷ [] else policies

abbrev pub peer_neighbor : Bool → NetworkOverlay → Api.Peer → String → Neighbor
peer_neighbor is_secondary ov peer addr = record {
  name = "pntfx-peer-" <> ov.name <> "-" <> peer.name;
  address = addr;
  asn = peer.asn;
  is_ibgp = false;
  next_hop = "";
  policies = neighbor_policies is_secondary ov;
}

abbrev pub internal_neighbor : ℕ → String → Neighbor
internal_neighbor asn ip = record {
  name = "pntfx-internal-" <> ip;
  address = ip;
  asn = asn;
  is_ibgp = true;
  next_hop = "";
  policies = [];
}

-- The body of the loop over peers.
unfoldable pub want_peer :
    Bool → NetworkOverlay → Api.Peer → GoMap String Neighbor → GoMap String Neighbor
want_peer is_secondary ov peer desired = elim (peer_address peer.endpoint) [
  | none ↦ desired
  | some addr ↦
      if has addr desired
      then desired
      else put addr (peer_neighbor is_secondary ov peer addr) desired
]

unfoldable pub want_peers :
    Bool → NetworkOverlay → List Api.Peer → GoMap String Neighbor → GoMap String Neighbor
want_peers is_secondary ov [] desired = desired
want_peers is_secondary ov (peer ∷ peers) desired =
    want_peers is_secondary ov peers (want_peer is_secondary ov peer desired)

-- The body of the loop over edges.
unfoldable pub want_client : ℕ → EdgeStatus → GoMap String Neighbor → GoMap String Neighbor
want_client asn edge desired =
    if not edge.ready || edge.node_ip == ""
    then desired
    else if has edge.node_ip desired
    then desired
    else put edge.node_ip (internal_neighbor asn edge.node_ip) desired

unfoldable pub want_clients : ℕ → List EdgeStatus → GoMap String Neighbor → GoMap String Neighbor
want_clients asn [] desired = desired
want_clients asn (edge ∷ edges) desired = want_clients asn edges (want_client asn edge desired)

unfoldable pub neighbors_from :
    GatewayReconciler → List NetworkOverlay → GoMap String Neighbor → GoMap String Neighbor
neighbors_from r [] desired = desired
neighbors_from r (ov ∷ ovs) desired = neighbors_from r ovs (
    if ov.status.community == ""
    then desired
    else want_clients r.asn ov.status.edges (want_peers r.is_secondary ov ov.spec.peers desired))

unfoldable pub build_desired_neighbors :
    GatewayReconciler → List NetworkOverlay → GoMap String Neighbor
unfolding neighbors_from
build_desired_neighbors r overlays = neighbors_from r overlays []

abbrev pub import_policy : NetworkOverlay → Policy
import_policy ov = record {
  name = "pntfx-import-" <> ov.name;
  direction = policy_import;
  match = "any";
  action = "community-set:" <> ov.status.community;
}

abbrev pub export_policy : NetworkOverlay → Policy
export_policy ov = record {
  name = "pntfx-export-" <> ov.name;
  direction = policy_export;
  match = "community:" <> ov.status.community;
  action = "accept";
}

abbrev pub prepend_policy : NetworkOverlay → Policy
prepend_policy ov = record {
  name = "pntfx-prepend-" <> ov.name;
  direction = policy_export;
  match = "community:" <> ov.status.community;
  action = "prepend-asn:3";
}

unfoldable pub want_policies : Bool → NetworkOverlay → GoMap String Policy → GoMap String Policy
want_policies is_secondary ov desired =
    if ov.status.community == ""
    then desired
    else (let both =
          put ("pntfx-export-" <> ov.name) (export_policy ov)
            (put ("pntfx-import-" <> ov.name) (import_policy ov) desired) in
        if is_secondary then put ("pntfx-prepend-" <> ov.name) (prepend_policy ov) both else both)

unfoldable pub policies_from :
    Bool → List NetworkOverlay → GoMap String Policy → GoMap String Policy
policies_from is_secondary [] desired = desired
policies_from is_secondary (ov ∷ ovs) desired =
    policies_from is_secondary ovs (want_policies is_secondary ov desired)

unfoldable pub build_desired_policies :
    GatewayReconciler → List NetworkOverlay → GoMap String Policy
unfolding policies_from
build_desired_policies r overlays = policies_from r.is_secondary overlays []

-- `Reconcile`. The loops over maps are those of the policies and of the neighbors, in this order.
unfoldable pub reconcile :
    {W : Type 0} → Server W → GatewayReconciler → Runtime → List NetworkOverlay → W → List Error × W
reconcile server r rt overlays = reconciled (do
  let neighbors = build_desired_neighbors r overlays
  let policies = build_desired_policies r overlays
  actual_neighbors ← query "list bgp neighbors" server.list_neighbors
  actual_policies ← query "list bgp policies" server.list_policies
  perform (
      remove_orphans Neighbor.address actual_neighbors neighbors
        (λ n. "remove neighbor " <> n.address) (λ n. server.remove_neighbor n.address))
  perform (
      remove_orphans Policy.name actual_policies policies (λ p. "remove policy " <> p.name)
        (λ p. server.remove_policy p.name))
  perform (
      install_missing Policy.name (index_by Policy.name actual_policies []) (values rt 0 policies)
        (λ p. "add policy " <> p.name) (λ p. server.add_policy p))
  perform (
      install_missing Neighbor.address (index_by Neighbor.address actual_neighbors [])
        (values rt 1 neighbors) (λ n. "add neighbor " <> n.address) (λ n. server.add_neighbor n)))
