-- ===== src/Agent/Bgp/Gateway/Content.antt =====
-- What the desired neighbors of a gateway are, without the loops that collect them.
use pontifex.Base.{
  ℕ, String, Bool, not, ◌||◌, List, [], ◌∷◌, ◌++◌, Option, none, some, ◌≡◌, refl, ◌∙◌, arith, ◌==◌,
  comparable_string, Option-cases, inl, inr, if◌then◌else◌,
}
use pontifex.GoMap.{GoMap, get}
use pontifex.GoMap.Laws.{get-put, has-eq-is_some}
use pontifex.GoMap.Ranges.{find}
use pontifex.Api.{NetworkOverlay, EdgeStatus}
use pontifex.Api as Api
use pontifex.Agent.Bgp.{Neighbor}
use pontifex.Agent.Bgp.Gateway.{
  GatewayReconciler, peer_address, peer_neighbor, internal_neighbor, want_peer, want_peers,
  want_client, want_clients, neighbors_from, build_desired_neighbors,
}

-- The external peers of an overlay whose endpoints can be read, in order.
abbrev pub peer_candidates : Bool → NetworkOverlay → List Api.Peer → List Neighbor
peer_candidates is_secondary ov [] = []
peer_candidates is_secondary ov (peer ∷ peers) =
    let rest = peer_candidates is_secondary ov peers in
    elim (peer_address peer.endpoint) [
      | none ↦ rest
      | some addr ↦ peer_neighbor is_secondary ov peer addr ∷ rest
    ]

-- The nodes of its ready edges, in order.
abbrev pub client_candidates : ℕ → List EdgeStatus → List Neighbor
client_candidates asn [] = []
client_candidates asn (edge ∷ edges) =
    let rest = client_candidates asn edges in
    if not edge.ready || edge.node_ip == "" then rest else internal_neighbor asn edge.node_ip ∷ rest

-- Those of the overlays that have a community; an overlay's peers come before its nodes.
abbrev pub candidates : GatewayReconciler → List NetworkOverlay → List Neighbor
candidates r [] = []
candidates r (ov ∷ ovs) =
    let rest = candidates r ovs in
    if ov.status.community == ""
    then rest
    else peer_candidates r.is_secondary ov ov.spec.peers
      ++ (client_candidates r.asn ov.status.edges ++ rest)

abbrev or_else : Option Neighbor → Option Neighbor → Option Neighbor
or_else none d = d
or_else (some n) d = some n

or_else_assoc : (p q r : Option Neighbor) → or_else (or_else p q) r ≡ or_else p (or_else q r)
or_else_assoc p q r = ground arith

module _ (a : String) where
  abbrev at : List Neighbor → Option Neighbor
  at ns = find Neighbor.address a ns

  at-append : (ns ms : List Neighbor) → at (ns ++ ms) ≡ or_else (at ns) (at ms)
  unfolding find
  at-append [] ms = refl
  at-append (n ∷ ns) ms = ground (arith, at-append ns ms)

  get-want_peers :
      (s : Bool) (ov : NetworkOverlay) (peers : List Api.Peer) (m : GoMap String Neighbor)
      → get a (want_peers s ov peers m) ≡ or_else (get a m) (at (peer_candidates s ov peers))
  unfolding want_peers want_peer find
  get-want_peers s ov [] m = ground arith
  get-want_peers s ov (peer ∷ peers) m = elim (Option-cases (peer_address peer.endpoint)) [
    | inl e ↦ rw (e, want_peers, want_peer, peer_candidates) (get-want_peers s ov peers m)
    | inr (addr, e) ↦
        get-want_peers s ov peers _
        ∙ ground (
          arith,
          e,
          comparable_string.equal_iff addr a,
          has-eq-is_some addr m,
          get-put addr a (peer_neighbor s ov peer addr) m,
        )
  ]

  get-want_clients :
      (asn : ℕ) (edges : List EdgeStatus) (m : GoMap String Neighbor)
      → get a (want_clients asn edges m) ≡ or_else (get a m) (at (client_candidates asn edges))
  unfolding want_clients want_client find
  get-want_clients asn [] m = ground arith
  get-want_clients asn (edge ∷ edges) m =
      get-want_clients asn edges _
      ∙ ground (
        arith,
        comparable_string.equal_iff edge.node_ip a,
        has-eq-is_some edge.node_ip m,
        get-put edge.node_ip a (internal_neighbor asn edge.node_ip) m,
      )

  get-neighbors_from :
      (r : GatewayReconciler) (ovs : List NetworkOverlay) (m : GoMap String Neighbor)
      → get a (neighbors_from r ovs m) ≡ or_else (get a m) (at (candidates r ovs))
  unfolding neighbors_from find
  get-neighbors_from r [] m = ground arith
  get-neighbors_from r (ov ∷ ovs) m =
      get-neighbors_from r ovs _
      ∙ ground (
        arith,
        get-want_clients r.asn ov.status.edges (want_peers r.is_secondary ov ov.spec.peers m),
        get-want_peers r.is_secondary ov ov.spec.peers m,
        at-append (peer_candidates r.is_secondary ov ov.spec.peers)
            (client_candidates r.asn ov.status.edges ++ candidates r ovs),
        at-append (client_candidates r.asn ov.status.edges) (candidates r ovs),
      )

-- Under each address a gateway desires the first candidate with that address: the external peers
-- and then the ready internal nodes of each overlay that has a community, in the snapshot's order,
-- and nothing under any other address.
pub first_candidate :
    (r : GatewayReconciler) (ovs : List NetworkOverlay) (a : String)
    → get a (build_desired_neighbors r ovs) ≡ find Neighbor.address a (candidates r ovs)
unfolding build_desired_neighbors get
first_candidate r ovs a = get-neighbors_from a r ovs []
