-- ===== src/Agent/Routes/Wanted.antt =====
-- apps/agent/internal/reconcilers/routes/internalnode.go: the maps that an internal node desires, and
-- the routes of each table.
pub mod Desired
pub mod Content
pub mod Tenancy
use pontifex.Base.{
  ℕ, String, Bool, true, not, ◌&&◌, ◌||◌, List, [], ◌∷◌, ◌++◌, Option, none, some, ◌≡◌, ◌↔◌, arith,
  ◌==◌, Comparable, comparable_string, comparable_number, if◌then◌else◌,
}
use pontifex.GoMap.{GoMap, GoSet, get, put, insert}
use pontifex.Api.{NetworkOverlay, EdgeStatus}
use pontifex.Agent.Bgp as Bgp
use pontifex.Agent.Firewall.{Bridge}
use pontifex.Agent.Routes.{Vrf, Rule, Route}
use pontifex.Agent.Routes.Tables.{vrf_name, vrf_table_id}

-- The table of an overlay, if it has a community that names one; this is the guard of the loops
-- over overlays.
unfoldable pub table_of : NetworkOverlay → Option ℕ
table_of ov = if ov.status.community == "" then none else vrf_table_id ov.status.community

abbrev pub overlay_vrf : NetworkOverlay → ℕ → Vrf
overlay_vrf ov tid = record { name = vrf_name ov.name; table_id = tid }

unfoldable pub want_vrf : NetworkOverlay → GoMap String Vrf → GoMap String Vrf
want_vrf ov desired = elim (table_of ov) [
  | none ↦ desired
  | some tid ↦ put (vrf_name ov.name) (overlay_vrf ov tid) desired
]

unfoldable pub want_vrfs : List NetworkOverlay → GoMap String Vrf → GoMap String Vrf
want_vrfs [] desired = desired
want_vrfs (ov ∷ ovs) desired = want_vrfs ovs (want_vrf ov desired)

abbrev pub overlay_rule : NetworkOverlay → ℕ → Rule
overlay_rule ov tid = record {
  source = "";
  to = ov.spec.virtual_cidr;
  table_id = tid;
  iif = "";
  oif = "";
}

unfoldable pub want_rule : NetworkOverlay → GoMap ℕ Rule → GoMap ℕ Rule
want_rule ov desired = elim (table_of ov) [
  | none ↦ desired
  | some tid ↦ if ov.spec.virtual_cidr == "" then desired else put tid (overlay_rule ov tid) desired
]

unfoldable pub want_rules : List NetworkOverlay → GoMap ℕ Rule → GoMap ℕ Rule
want_rules [] desired = desired
want_rules (ov ∷ ovs) desired = want_rules ovs (want_rule ov desired)

-- An edge on this node that serves its virtual address.
abbrev pub serves : String → EdgeStatus → Bool
serves node_name edge = edge.node_name == node_name && edge.ready && not (edge.virtual_ip == "")

unfoldable pub want_ips : String → List EdgeStatus → GoSet String → GoSet String
want_ips node_name [] desired = desired
want_ips node_name (edge ∷ edges) desired =
    want_ips node_name edges
      (if serves node_name edge then insert edge.virtual_ip desired else desired)

-- `bridgeKey`
pub record BridgeKey : Type 0 where
  pub overlay_name : String
  pub virtual_ip : String

pub bridge_key_equal_iff :
    (j k : BridgeKey)
    → (j.overlay_name == k.overlay_name && j.virtual_ip == k.virtual_ip ≡ true) ↔ (j ≡ k)
bridge_key_equal_iff j k = ground (
  arith,
  comparable_string.equal_iff j.overlay_name k.overlay_name,
  comparable_string.equal_iff j.virtual_ip k.virtual_ip,
)

instance abbrev pub comparable_bridge_key : Comparable BridgeKey
comparable_bridge_key = record {
  equal = λ j k. j.overlay_name == k.overlay_name && j.virtual_ip == k.virtual_ip;
  equal_iff = bridge_key_equal_iff;
}

abbrev pub bridge_key : Bridge → BridgeKey
bridge_key b = record { overlay_name = b.overlay_name; virtual_ip = b.virtual_ip }

abbrev pub edge_bridge : NetworkOverlay → EdgeStatus → Bridge
edge_bridge ov edge = record {
  overlay_name = ov.name;
  virtual_ip = edge.virtual_ip;
  pod_ip = edge.pod_ip;
}

-- `edge.NodeName != r.nodeName || !edge.Ready || edge.VirtualIP == "" || edge.PodIP == ""`
abbrev pub not_bridged : String → EdgeStatus → Bool
not_bridged node_name edge =
    not (edge.node_name == node_name)
    || not edge.ready
    || edge.virtual_ip == ""
    || edge.pod_ip == ""

unfoldable pub want_edge_bridges :
    String → NetworkOverlay → List EdgeStatus → GoMap BridgeKey Bridge → GoMap BridgeKey Bridge
want_edge_bridges node_name ov [] desired = desired
want_edge_bridges node_name ov (edge ∷ edges) desired = want_edge_bridges node_name ov edges (
    if not_bridged node_name edge
    then desired
    else put (bridge_key (edge_bridge ov edge)) (edge_bridge ov edge) desired)

unfoldable pub want_bridges :
    String → List NetworkOverlay → GoMap BridgeKey Bridge → GoMap BridgeKey Bridge
want_bridges node_name [] desired = desired
want_bridges node_name (ov ∷ ovs) desired =
    want_bridges node_name ovs (want_edge_bridges node_name ov ov.status.edges desired)

-- `overlayInfo`
pub record OverlayInfo : Type 0 where
  pub name : String
  pub table_id : ℕ

unfoldable pub community_map :
    List NetworkOverlay → GoMap String OverlayInfo → GoMap String OverlayInfo
community_map [] m = m
community_map (ov ∷ ovs) m = community_map ovs (elim (table_of ov) [
  | none ↦ m
  | some tid ↦ put ov.status.community (record { name = ov.name; table_id = tid }) m
])

-- `routesByTable[tid]`, whose zero value is the empty slice.
abbrev pub or_empty : Option (List Route) → List Route
or_empty none = []
or_empty (some l) = l

abbrev pub learned_route : ℕ → Bgp.Route → Route
learned_route tid rt = record { table_id = tid; dst = rt.prefix; gw = rt.next_hop; dev = "" }

-- The loop over a route's communities, which stops at the first known one.
unfoldable pub place_route :
    GoMap String OverlayInfo → Bgp.Route → List String → GoMap ℕ (List Route) → GoMap ℕ (List Route)
place_route infos rt [] m = m
place_route infos rt (c ∷ cs) m =
    let rest = place_route infos rt cs m in
    elim (get c infos) [
      | some info ↦
          put info.table_id (or_empty (get info.table_id m) ++ learned_route info.table_id rt ∷ [])
            m
      | none ↦ rest
    ]

unfoldable pub routes_by_table :
    GoMap String OverlayInfo → List Bgp.Route → GoMap ℕ (List Route) → GoMap ℕ (List Route)
routes_by_table infos [] m = m
routes_by_table infos (rt ∷ rts) m =
    routes_by_table infos rts (place_route infos rt rt.communities m)
