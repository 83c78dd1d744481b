-- ===== src/Agent/Bgp/Internal.antt =====
-- apps/agent/internal/reconcilers/bgp/internalnode.go: the BGP reconciler of an internal node.
pub mod Stages
pub mod Desired
pub mod Content
pub mod Convergence
pub mod Idempotence
pub mod Failures
pub mod Succeeds
use pontifex.Base.{
  ℕ, String, ◌<>◌, Bool, true, false, not, ◌||◌, List, [], ◌∷◌, ◌==◌, comparable_string,
  if◌then◌else◌,
}
use pontifex.GoMap.{GoMap, has, put, index_by, Runtime, values}
use pontifex.Effects.{Error, ◌>>=◌, ◌>>◌, query, perform, reconciled}
use pontifex.Effects.Settles.{remove_orphans, install_missing}
use pontifex.Api.{NetworkOverlay, Gateway, EdgeStatus}
use pontifex.Agent.Bgp.{Neighbor, Policy, Route, Server, policy_import, policy_export}

pub record InternalReconciler : Type 0 where
  pub asn : ℕ
  pub router_id : String
  pub node_name : String

abbrev pub gateway_neighbor : ℕ → String → Neighbor
gateway_neighbor asn ip = record {
  name = "pntfx-gateway-" <> ip;
  address = ip;
  asn = asn;
  is_ibgp = true;
  next_hop = "";
  policies = [];
}

-- The body of the inner loop of `buildDesiredNeighbors`, and the two loops.
unfoldable pub want_gateway : ℕ → Gateway → GoMap String Neighbor → GoMap String Neighbor
want_gateway asn gw desired =
    if gw.node_ip == ""
    then desired
    else if has gw.node_ip desired
    then desired
    else put gw.node_ip (gateway_neighbor asn gw.node_ip) desired

unfoldable pub want_gateways : ℕ → List Gateway → GoMap String Neighbor → GoMap String Neighbor
want_gateways asn [] desired = desired
want_gateways asn (gw ∷ gws) desired = want_gateways asn gws (want_gateway asn gw desired)

unfoldable pub neighbors_from :
    ℕ → List NetworkOverlay → GoMap String Neighbor → GoMap String Neighbor
neighbors_from asn [] desired = desired
neighbors_from asn (ov ∷ ovs) desired =
    neighbors_from asn ovs (want_gateways asn ov.status.gateways desired)

unfoldable pub build_desired_neighbors :
    InternalReconciler → List NetworkOverlay → GoMap String Neighbor
unfolding neighbors_from
build_desired_neighbors r overlays = neighbors_from r.asn overlays []

abbrev pub export_policy : NetworkOverlay → Policy
export_policy ov = record {
  name = "pntfx-export-" <> ov.name;
  direction = policy_export;
  match = "any";
  action = "community-set:" <> ov.status.community;
}

abbrev pub import_policy : NetworkOverlay → Policy
import_policy ov = record {
  name = "pntfx-import-" <> ov.name;
  direction = policy_import;
  match = "community:" <> ov.status.community;
  action = "accept";
}

unfoldable pub want_policies : NetworkOverlay → GoMap String Policy → GoMap String Policy
want_policies ov desired =
    if ov.status.community == ""
    then desired
    else put ("pntfx-import-" <> ov.name) (import_policy ov)
        (put ("pntfx-export-" <> ov.name) (export_policy ov) desired)

unfoldable pub policies_from : List NetworkOverlay → GoMap String Policy → GoMap String Policy
policies_from [] desired = desired
policies_from (ov ∷ ovs) desired = policies_from ovs (want_policies ov desired)

unfoldable pub build_desired_policies : List NetworkOverlay → GoMap String Policy
unfolding policies_from
build_desired_policies overlays = policies_from overlays []

abbrev pub edge_prefix : EdgeStatus → String
edge_prefix edge = edge.virtual_ip <> "/32"

abbrev pub edge_route : String → EdgeStatus → Route
edge_route community edge = record {
  prefix = edge_prefix edge;
  next_hop = "";
  communities = community ∷ [];
}

-- `edge.NodeName != r.nodeName || !edge.Ready || edge.VirtualIP == ""`
unfoldable pub not_served : String → EdgeStatus → Bool
not_served node edge = not (edge.node_name == node) || not edge.ready || edge.virtual_ip == ""

unfoldable pub want_edges :
    String → String → List EdgeStatus → GoMap String Route → GoMap String Route
want_edges node community [] desired = desired
want_edges node community (edge ∷ edges) desired = want_edges node community edges (
    if not_served node edge
    then desired
    else put (edge_prefix edge) (edge_route community edge) desired)

unfoldable pub advertisements_from :
    String → List NetworkOverlay → GoMap String Route → GoMap String Route
advertisements_from node [] desired = desired
advertisements_from node (ov ∷ ovs) desired = advertisements_from node ovs (
    if ov.status.community == ""
    then desired
    else want_edges node ov.status.community ov.status.edges desired)

unfoldable pub build_desired_advertisements :
    InternalReconciler → List NetworkOverlay → GoMap String Route
unfolding advertisements_from
build_desired_advertisements r overlays = advertisements_from r.node_name overlays []

-- `Reconcile`. The loops over maps are those of the policies, the neighbors and the routes to
-- advertise, in this order.
unfoldable pub reconcile :
    {W : Type 0}
    → Server W
    → InternalReconciler
    → Runtime
    → List NetworkOverlay
    → W
    → List Error × W
reconcile server r rt overlays = reconciled (do
  let neighbors = build_desired_neighbors r overlays
  let policies = build_desired_policies overlays
  let ads = build_desired_advertisements r overlays
  actual_neighbors ← query "list bgp neighbors" server.list_neighbors
  actual_policies ← query "list bgp policies" server.list_policies
  actual_advertised ← query "list bgp advertised" server.list_advertised
  perform (
      remove_orphans Neighbor.address actual_neighbors neighbors
        (λ n. "remove neighbor " <> n.address) (λ n. server.remove_neighbor n.address))
  perform (
      remove_orphans Policy.name actual_policies policies (λ p. "remove policy " <> p.name)
        (λ p. server.remove_policy p.name))
  perform (
      remove_orphans Route.prefix actual_advertised ads (λ rt. "withdraw " <> rt.prefix)
        (λ rt. server.withdraw rt.prefix))
  perform (
      install_missing Policy.name (index_by Policy.name actual_policies []) (values rt 0 policies)
        (λ p. "add policy " <> p.name) (λ p. server.add_policy p))
  perform (
      install_missing Neighbor.address (index_by Neighbor.address actual_neighbors [])
        (values rt 1 neighbors) (λ n. "add neighbor " <> n.address) (λ n. server.add_neighbor n))
  perform (
      install_missing Route.prefix (index_by Route.prefix actual_advertised []) (values rt 2 ads)
        (λ ad. "advertise " <> ad.prefix) (λ ad. server.advertise ad.prefix ad.communities)))
