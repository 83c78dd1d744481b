-- ===== src/Agent/Bgp/Gateway/Desired.antt =====
-- The desired maps of a gateway hold each item under its own key, once.
use pontifex.Base.{
  ℕ, String, Bool, List, [], ◌∷◌, refl, arith, comparable_string, Option-cases, inl, inr,
}
use pontifex.GoMap.{GoMap}
use pontifex.GoMap.Ranges.{IsIndexed, if-IsIndexed, put-IsIndexed}
use pontifex.Api.{NetworkOverlay, EdgeStatus}
use pontifex.Api as Api
use pontifex.Agent.Bgp.{Neighbor, Policy}
use pontifex.Agent.Bgp.Gateway.{
  GatewayReconciler, peer_address, peer_neighbor, internal_neighbor, want_peer, want_peers,
  want_client, want_clients, neighbors_from, build_desired_neighbors, import_policy, export_policy,
  prepend_policy, want_policies, policies_from, build_desired_policies,
}

want_peer-IsIndexed :
    (s : Bool) (ov : NetworkOverlay) (peer : Api.Peer) (m : GoMap String Neighbor)
    → IsIndexed Neighbor.address m
    → IsIndexed Neighbor.address (want_peer s ov peer m)
unfolding want_peer
want_peer-IsIndexed s ov peer m h = elim (Option-cases (peer_address peer.endpoint)) [
  | inl e ↦ rw (e, want_peer) h
  | inr (addr, e) ↦
      rw (e, want_peer)
        (if-IsIndexed Neighbor.address _ m _ h
          (put-IsIndexed Neighbor.address addr (peer_neighbor s ov peer addr) m refl h))
]

want_peers-IsIndexed :
    (s : Bool) (ov : NetworkOverlay) (peers : List Api.Peer) (m : GoMap String Neighbor)
    → IsIndexed Neighbor.address m
    → IsIndexed Neighbor.address (want_peers s ov peers m)
unfolding want_peers
want_peers-IsIndexed s ov [] m h = h
want_peers-IsIndexed s ov (peer ∷ peers) m h =
    want_peers-IsIndexed s ov peers _ (want_peer-IsIndexed s ov peer m h)

want_clients-IsIndexed :
    (asn : ℕ) (edges : List EdgeStatus) (m : GoMap String Neighbor)
    → IsIndexed Neighbor.address m
    → IsIndexed Neighbor.address (want_clients asn edges m)
unfolding want_clients want_client
want_clients-IsIndexed asn [] m h = h
want_clients-IsIndexed asn (edge ∷ edges) m h = want_clients-IsIndexed asn edges _ (
    ground (
      arith,
      put-IsIndexed Neighbor.address edge.node_ip (internal_neighbor asn edge.node_ip) m refl h,
    ))

neighbors_from-IsIndexed :
    (r : GatewayReconciler) (ovs : List NetworkOverlay) (m : GoMap String Neighbor)
    → IsIndexed Neighbor.address m
    → IsIndexed Neighbor.address (neighbors_from r ovs m)
unfolding neighbors_from
neighbors_from-IsIndexed r [] m h = h
neighbors_from-IsIndexed r (ov ∷ ovs) m h = neighbors_from-IsIndexed r ovs _ (
    ground (
      arith,
      want_clients-IsIndexed r.asn ov.status.edges _
          (want_peers-IsIndexed r.is_secondary ov ov.spec.peers m h),
    ))

pub build_desired_neighbors-IsIndexed :
    (r : GatewayReconciler) (ovs : List NetworkOverlay)
    → IsIndexed Neighbor.address (build_desired_neighbors r ovs)
unfolding build_desired_neighbors
build_desired_neighbors-IsIndexed r ovs = neighbors_from-IsIndexed r ovs [] (tt, tt)

want_policies-IsIndexed :
    (s : Bool) (ov : NetworkOverlay) (m : GoMap String Policy)
    → IsIndexed Policy.name m
    → IsIndexed Policy.name (want_policies s ov m)
unfolding want_policies
want_policies-IsIndexed s ov m h =
    let both =
      put-IsIndexed Policy.name _ (export_policy ov) _ refl
        (put-IsIndexed Policy.name _ (import_policy ov) m refl h) in
    ground (arith, both, put-IsIndexed Policy.name _ (prepend_policy ov) _ refl both)

policies_from-IsIndexed :
    (s : Bool) (ovs : List NetworkOverlay) (m : GoMap String Policy)
    → IsIndexed Policy.name m
    → IsIndexed Policy.name (policies_from s ovs m)
unfolding policies_from
policies_from-IsIndexed s [] m h = h
policies_from-IsIndexed s (ov ∷ ovs) m h =
    policies_from-IsIndexed s ovs _ (want_policies-IsIndexed s ov m h)

pub build_desired_policies-IsIndexed :
    (r : GatewayReconciler) (ovs : List NetworkOverlay)
    → IsIndexed Policy.name (build_desired_policies r ovs)
unfolding build_desired_policies
build_desired_policies-IsIndexed r ovs = policies_from-IsIndexed r.is_secondary ovs [] (tt, tt)
