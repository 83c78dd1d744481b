-- ===== src/Agent/Bgp/Internal/Desired.antt =====
-- The desired maps of an internal node hold each item under its own key, once.
use pontifex.Base.{
  ℕ, String, List, [], ◌∷◌, refl, arith, ◌==◌, comparable_string, Bool-cases, inl, inr,
}
use pontifex.GoMap.{GoMap}
use pontifex.GoMap.Ranges.{IsIndexed, put-IsIndexed}
use pontifex.Api.{NetworkOverlay, Gateway, EdgeStatus}
use pontifex.Agent.Bgp.{Neighbor, Policy, Route}
use pontifex.Agent.Bgp.Internal.{
  InternalReconciler, gateway_neighbor, want_gateway, want_gateways, neighbors_from,
  build_desired_neighbors, want_policies, import_policy, export_policy, policies_from,
  build_desired_policies, edge_prefix, edge_route, want_edges, advertisements_from,
  build_desired_advertisements,
}

want_gateways-IsIndexed :
    (asn : ℕ) (gws : List Gateway) (m : GoMap String Neighbor)
    → IsIndexed Neighbor.address m
    → IsIndexed Neighbor.address (want_gateways asn gws m)
unfolding want_gateways want_gateway
want_gateways-IsIndexed asn [] m h = h
want_gateways-IsIndexed asn (gw ∷ gws) m h = want_gateways-IsIndexed asn gws _ (
    ground
      (arith, put-IsIndexed Neighbor.address gw.node_ip (gateway_neighbor asn gw.node_ip) m refl h))

neighbors_from-IsIndexed :
    (asn : ℕ) (ovs : List NetworkOverlay) (m : GoMap String Neighbor)
    → IsIndexed Neighbor.address m
    → IsIndexed Neighbor.address (neighbors_from asn ovs m)
unfolding neighbors_from
neighbors_from-IsIndexed asn [] m h = h
neighbors_from-IsIndexed asn (ov ∷ ovs) m h =
    neighbors_from-IsIndexed asn ovs _ (want_gateways-IsIndexed asn ov.status.gateways m h)

pub build_desired_neighbors-IsIndexed :
    (r : InternalReconciler) (ovs : List NetworkOverlay)
    → IsIndexed Neighbor.address (build_desired_neighbors r ovs)
unfolding build_desired_neighbors
build_desired_neighbors-IsIndexed r ovs = neighbors_from-IsIndexed r.asn ovs [] (tt, tt)

want_policies-IsIndexed :
    (ov : NetworkOverlay) (m : GoMap String Policy)
    → IsIndexed Policy.name m
    → IsIndexed Policy.name (want_policies ov m)
unfolding want_policies
want_policies-IsIndexed ov m h = elim (Bool-cases (ov.status.community == "")) [
  | inl p ↦ rw p h
  | inr p ↦ rw p (
      put-IsIndexed Policy.name _ (import_policy ov) _ refl
        (put-IsIndexed Policy.name _ (export_policy ov) m refl h))
]

policies_from-IsIndexed :
    (ovs : List NetworkOverlay) (m : GoMap String Policy)
    → IsIndexed Policy.name m
    → IsIndexed Policy.name (policies_from ovs m)
unfolding policies_from
policies_from-IsIndexed [] m h = h
policies_from-IsIndexed (ov ∷ ovs) m h =
    policies_from-IsIndexed ovs _ (want_policies-IsIndexed ov m h)

pub build_desired_policies-IsIndexed :
    (ovs : List NetworkOverlay) → IsIndexed Policy.name (build_desired_policies ovs)
unfolding build_desired_policies
build_desired_policies-IsIndexed ovs = policies_from-IsIndexed ovs [] (tt, tt)

want_edges-IsIndexed :
    (node community : String) (edges : List EdgeStatus) (m : GoMap String Route)
    → IsIndexed Route.prefix m
    → IsIndexed Route.prefix (want_edges node community edges m)
unfolding want_edges
want_edges-IsIndexed node community [] m h = h
want_edges-IsIndexed node community (edge ∷ edges) m h =
    want_edges-IsIndexed node community edges _ (
      ground
        (arith, put-IsIndexed Route.prefix (edge_prefix edge) (edge_route community edge) m refl h))

advertisements_from-IsIndexed :
    (node : String) (ovs : List NetworkOverlay) (m : GoMap String Route)
    → IsIndexed Route.prefix m
    → IsIndexed Route.prefix (advertisements_from node ovs m)
unfolding advertisements_from
advertisements_from-IsIndexed node [] m h = h
advertisements_from-IsIndexed node (ov ∷ ovs) m h =
    advertisements_from-IsIndexed node ovs _
      (ground (arith, want_edges-IsIndexed node ov.status.community ov.status.edges m h))

pub build_desired_advertisements-IsIndexed :
    (r : InternalReconciler) (ovs : List NetworkOverlay)
    → IsIndexed Route.prefix (build_desired_advertisements r ovs)
unfolding build_desired_advertisements
build_desired_advertisements-IsIndexed r ovs =
    advertisements_from-IsIndexed r.node_name ovs [] (tt, tt)
