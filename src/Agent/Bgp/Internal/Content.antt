-- ===== src/Agent/Bgp/Internal/Content.antt =====
-- What the desired maps of an internal node hold, described without the loops that fill them.
use pontifex.Base.{
  ℕ, String, Bool, false, not, ◌&&◌, ◌||◌, List, [], ◌∷◌, none, some, ◌≡◌, refl, ◌∙◌, arith, ◌==◌,
  comparable_string, any, if◌then◌else◌,
}
use pontifex.GoMap.{GoMap, get, has}
use pontifex.GoMap.Laws.{get-put, has-put, has-eq-is_some}
use pontifex.Api.{NetworkOverlay, Gateway, EdgeStatus}
use pontifex.Agent.Bgp.{Neighbor, Route}
use pontifex.Agent.Bgp.Internal.{
  InternalReconciler, gateway_neighbor, want_gateway, want_gateways, neighbors_from,
  build_desired_neighbors, edge_prefix, edge_route, not_served, want_edges, advertisements_from,
  build_desired_advertisements,
}

-- `a` is the non-empty NodeIP of the gateway.
abbrev pub is_gateway_at : String → Gateway → Bool
is_gateway_at a gw = not (gw.node_ip == "") && gw.node_ip == a

abbrev pub has_gateway_at : String → NetworkOverlay → Bool
has_gateway_at a ov = any (is_gateway_at a) ov.status.gateways

module _ (asn : ℕ) (a : String) where
  abbrev Held : Bool → GoMap String Neighbor → Type 0
  Held b m = get a m ≡ (if b then some (gateway_neighbor asn a) else none)

  want_gateway-Held :
      (gw : Gateway) (m : GoMap String Neighbor) (b : Bool)
      → Held b m
      → Held (b || is_gateway_at a gw) (want_gateway asn gw m)
  unfolding want_gateway
  want_gateway-Held gw m b h = ground (
    arith,
    comparable_string.equal_iff gw.node_ip "",
    comparable_string.equal_iff gw.node_ip a,
    has-eq-is_some gw.node_ip m,
    get-put gw.node_ip a (gateway_neighbor asn gw.node_ip) m,
  )

  want_gateways-Held :
      (gws : List Gateway) (m : GoMap String Neighbor) (b : Bool)
      → Held b m
      → Held (b || any (is_gateway_at a) gws) (want_gateways asn gws m)
  unfolding want_gateways
  want_gateways-Held [] m b h = ground arith
  want_gateways-Held (gw ∷ gws) m b h =
      want_gateways-Held gws _ _ (want_gateway-Held gw m b h) ∙ ground arith

  neighbors_from-Held :
      (ovs : List NetworkOverlay) (m : GoMap String Neighbor) (b : Bool)
      → Held b m
      → Held (b || any (has_gateway_at a) ovs) (neighbors_from asn ovs m)
  unfolding neighbors_from
  neighbors_from-Held [] m b h = ground arith
  neighbors_from-Held (ov ∷ ovs) m b h =
      neighbors_from-Held ovs _ _ (want_gateways-Held ov.status.gateways m b h) ∙ ground arith

get-build_desired_neighbors :
    (r : InternalReconciler) (ovs : List NetworkOverlay) (a : String)
    → get a (build_desired_neighbors r ovs)
      ≡ (if any (has_gateway_at a) ovs then some (gateway_neighbor r.asn a) else none)
unfolding build_desired_neighbors get
get-build_desired_neighbors r ovs a = neighbors_from-Held r.asn a ovs [] false refl

-- The overlay has a community and an edge that this node serves under the prefix.
abbrev pub serves_prefix : String → String → EdgeStatus → Bool
serves_prefix node p edge =
    (edge.node_name == node && edge.ready && not (edge.virtual_ip == "")) && edge_prefix edge == p

abbrev pub serves : String → String → NetworkOverlay → Bool
serves node p ov = not (ov.status.community == "") && any (serves_prefix node p) ov.status.edges

module _ (node p : String) where
  has-want_edges :
      (community : String) (edges : List EdgeStatus) (m : GoMap String Route)
      → has p (want_edges node community edges m) ≡ (has p m || any (serves_prefix node p) edges)
  unfolding want_edges not_served
  has-want_edges community [] m = ground arith
  has-want_edges community (edge ∷ edges) m =
      has-want_edges community edges _
      ∙ ground (arith, has-put (edge_prefix edge) p (edge_route community edge) m)

  has-advertisements_from :
      (ovs : List NetworkOverlay) (m : GoMap String Route)
      → has p (advertisements_from node ovs m) ≡ (has p m || any (serves node p) ovs)
  unfolding advertisements_from
  has-advertisements_from [] m = ground arith
  has-advertisements_from (ov ∷ ovs) m =
      has-advertisements_from ovs _
      ∙ ground (arith, has-want_edges ov.status.community ov.status.edges m)

has-build_desired_advertisements :
    (r : InternalReconciler) (ovs : List NetworkOverlay) (p : String)
    → has p (build_desired_advertisements r ovs) ≡ any (serves r.node_name p) ovs
unfolding build_desired_advertisements has
has-build_desired_advertisements r ovs p = has-advertisements_from r.node_name p ovs []

-- What an internal node desires of its daemon: one iBGP session for each address that is the
-- non-empty NodeIP of some gateway of some overlay, and no other; and the advertisement of a prefix
-- exactly if some overlay with a community has a ready edge on this node whose virtual IP, a
-- non-empty one, is the prefix without its `/32`.
pub desired_exactly :
    (r : InternalReconciler) (ovs : List NetworkOverlay) (a p : String)
    → (get a (build_desired_neighbors r ovs)
        ≡ (if any (has_gateway_at a) ovs then some (gateway_neighbor r.asn a) else none))
      × (has p (build_desired_advertisements r ovs) ≡ any (serves r.node_name p) ovs)
desired_exactly r ovs a p =
    (get-build_desired_neighbors r ovs a, has-build_desired_advertisements r ovs p)
