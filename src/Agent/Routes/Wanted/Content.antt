-- ===== src/Agent/Routes/Wanted/Content.antt =====
-- What the maps that an internal node desires are, without the loops that collect them.
use pontifex.Base.{
  not, ◌||◌, ℕ, String, List, [], ◌∷◌, ◌++◌, none, some, ◌≡◌, refl, sym, ap, ◌∙◌, ◌==◌,
  Option-cases, Bool-cases, inl, inr, comparable_string, comparable_number, if◌then◌else◌,
}
use pontifex.GoMap.{GoMap, get}
use pontifex.GoMap.Laws.{get-put}
use pontifex.GoMap.Last.{find_last, find_last-append}
use pontifex.Api.{NetworkOverlay, EdgeStatus}
use pontifex.Agent.Firewall.{Bridge}
use pontifex.Agent.Routes.{Vrf, Rule}
use pontifex.Agent.Routes.Tables.{vrf_name}
use pontifex.Agent.Routes.Wanted.{
  table_of, overlay_vrf, want_vrf, want_vrfs, overlay_rule, want_rule, want_rules, BridgeKey,
  bridge_key, comparable_bridge_key, edge_bridge, not_bridged, want_edge_bridges, want_bridges,
}

-- The bridges of the ready edges on the node `n` that have both addresses, in order.
abbrev pub edge_bridges : String → NetworkOverlay → List EdgeStatus → List Bridge
edge_bridges n ov [] = []
edge_bridges n ov (edge ∷ edges) =
    let rest = edge_bridges n ov edges in
    if not (edge.node_name == n) || not edge.ready || edge.virtual_ip == "" || edge.pod_ip == ""
    then rest
    else edge_bridge ov edge ∷ rest

abbrev pub overlay_bridges : String → List NetworkOverlay → List Bridge
overlay_bridges n [] = []
overlay_bridges n (ov ∷ ovs) = edge_bridges n ov ov.status.edges ++ overlay_bridges n ovs

get-want_edge_bridges :
    (n : String) (ov : NetworkOverlay) (k : BridgeKey) (edges : List EdgeStatus)
    (m : GoMap BridgeKey Bridge)
    → get k (want_edge_bridges n ov edges m)
      ≡ find_last bridge_key k (edge_bridges n ov edges) (get k m)
unfolding want_edge_bridges
get-want_edge_bridges n ov k [] m = refl
get-want_edge_bridges n ov k (edge ∷ edges) m =
    get-want_edge_bridges n ov k edges _ ∙ elim (Bool-cases (not_bridged n edge)) [
      | inl p ↦ rw p refl
      | inr p ↦ rw p (
          ap (find_last bridge_key k (edge_bridges n ov edges))
            (get-put (bridge_key (edge_bridge ov edge)) k (edge_bridge ov edge) m))
    ]

get-want_bridges :
    (n : String) (k : BridgeKey) (ovs : List NetworkOverlay) (m : GoMap BridgeKey Bridge)
    → get k (want_bridges n ovs m) ≡ find_last bridge_key k (overlay_bridges n ovs) (get k m)
unfolding want_bridges
get-want_bridges n k [] m = refl
get-want_bridges n k (ov ∷ ovs) m =
    get-want_bridges n k ovs _
    ∙ ap (find_last bridge_key k (overlay_bridges n ovs))
        (get-want_edge_bridges n ov k ov.status.edges m)
    ∙ sym (find_last-append bridge_key k (edge_bridges n ov ov.status.edges) _ (get k m))

-- The rules of the overlays that have a table and a virtual range, in order.
abbrev pub overlay_rules : List NetworkOverlay → List Rule
overlay_rules [] = []
overlay_rules (ov ∷ ovs) =
    let rest = overlay_rules ovs in
    elim (table_of ov) [
      | none ↦ rest
      | some tid ↦ if ov.spec.virtual_cidr == "" then rest else overlay_rule ov tid ∷ rest
    ]

get-want_rules :
    (t : ℕ) (ovs : List NetworkOverlay) (m : GoMap ℕ Rule)
    → get t (want_rules ovs m) ≡ find_last Rule.table_id t (overlay_rules ovs) (get t m)
unfolding want_rules want_rule
get-want_rules t [] m = refl
get-want_rules t (ov ∷ ovs) m = get-want_rules t ovs _ ∙ elim (Option-cases (table_of ov)) [
  | inl e ↦ rw (e, want_rule, overlay_rules) refl
  | inr (tid, e) ↦ elim (Bool-cases (ov.spec.virtual_cidr == "")) [
    | inl p ↦ rw (e, p, want_rule, overlay_rules) refl
    | inr p ↦
        rw (e, p, want_rule, overlay_rules)
          (ap (find_last Rule.table_id t (overlay_rules ovs))
            (get-put tid t (overlay_rule ov tid) m))
  ]
]

-- The VRFs of the overlays that have a table, in order.
abbrev pub overlay_vrfs : List NetworkOverlay → List Vrf
overlay_vrfs [] = []
overlay_vrfs (ov ∷ ovs) =
    let rest = overlay_vrfs ovs in
    elim (table_of ov) [ none ↦ rest | some tid ↦ overlay_vrf ov tid ∷ rest ]

get-want_vrfs :
    (k : String) (ovs : List NetworkOverlay) (m : GoMap String Vrf)
    → get k (want_vrfs ovs m) ≡ find_last Vrf.name k (overlay_vrfs ovs) (get k m)
unfolding want_vrfs want_vrf
get-want_vrfs k [] m = refl
get-want_vrfs k (ov ∷ ovs) m = get-want_vrfs k ovs _ ∙ elim (Option-cases (table_of ov)) [
  | inl e ↦ rw (e, want_vrf, overlay_vrfs) refl
  | inr (tid, e) ↦
      rw (e, want_vrf, overlay_vrfs)
        (ap (find_last Vrf.name k (overlay_vrfs ovs))
          (get-put (vrf_name ov.name) k (overlay_vrf ov tid) m))
]

-- What an internal node desires: for an overlay's name and a virtual address the bridge of the last
-- ready edge on it with that address and a pod address, for a table the rule of the last overlay
-- that has this table and a virtual range, and for a VRF's name the VRF of the last overlay of that
-- name that has a table; and nothing where there is no such edge or overlay.
pub last_wanted :
    (n : String) (k : BridgeKey) (t : ℕ) (name : String) (ovs : List NetworkOverlay)
    → (get k (want_bridges n ovs []) ≡ find_last bridge_key k (overlay_bridges n ovs) none)
      × (get t (want_rules ovs []) ≡ find_last Rule.table_id t (overlay_rules ovs) none)
      × (get name (want_vrfs ovs []) ≡ find_last Vrf.name name (overlay_vrfs ovs) none)
unfolding get
last_wanted n k t name ovs =
    (get-want_bridges n k ovs [], get-want_rules t ovs [], get-want_vrfs name ovs [])
