-- ===== src/Agent/Routes/Wanted/Desired.antt =====
-- The maps that an internal node desires carry each value under its own key.
use pontifex.Base.{
  ℕ, String, List, [], ◌∷◌, refl, arith, ◌==◌, Option-cases, inl, inr, comparable_string,
  comparable_number,
}
use pontifex.GoMap.{GoMap}
use pontifex.GoMap.Ranges.{IsIndexed, put-IsIndexed, if-IsIndexed}
use pontifex.Api.{NetworkOverlay, EdgeStatus}
use pontifex.Agent.Firewall.{Bridge}
use pontifex.Agent.Routes.{Vrf, Rule}
use pontifex.Agent.Routes.Tables.{vrf_name}
use pontifex.Agent.Routes.Wanted.{
  table_of, overlay_vrf, want_vrf, want_vrfs, overlay_rule, want_rule, want_rules, BridgeKey,
  comparable_bridge_key, bridge_key, edge_bridge, want_edge_bridges, want_bridges,
}

pub want_vrfs-IsIndexed :
    (ovs : List NetworkOverlay) (m : GoMap String Vrf)
    → IsIndexed Vrf.name m
    → IsIndexed Vrf.name (want_vrfs ovs m)
unfolding want_vrfs want_vrf
want_vrfs-IsIndexed [] m h = h
want_vrfs-IsIndexed (ov ∷ ovs) m h = want_vrfs-IsIndexed ovs _ (elim (Option-cases (table_of ov)) [
  | inl e ↦ rw (e, want_vrf) h
  | inr (tid, e) ↦
      rw (e, want_vrf) (put-IsIndexed Vrf.name (vrf_name ov.name) (overlay_vrf ov tid) m refl h)
])

pub want_rules-IsIndexed :
    (ovs : List NetworkOverlay) (m : GoMap ℕ Rule)
    → IsIndexed Rule.table_id m
    → IsIndexed Rule.table_id (want_rules ovs m)
unfolding want_rules want_rule
want_rules-IsIndexed [] m h = h
want_rules-IsIndexed (ov ∷ ovs) m h =
    want_rules-IsIndexed ovs _ (elim (Option-cases (table_of ov)) [
      | inl e ↦ rw (e, want_rule) h
      | inr (tid, e) ↦
          rw (e, want_rule)
            (if-IsIndexed Rule.table_id (ov.spec.virtual_cidr == "") m _ h
              (put-IsIndexed Rule.table_id tid (overlay_rule ov tid) m refl h))
    ])

want_edge_bridges-IsIndexed :
    (n : String) (ov : NetworkOverlay) (edges : List EdgeStatus) (m : GoMap BridgeKey Bridge)
    → IsIndexed bridge_key m
    → IsIndexed bridge_key (want_edge_bridges n ov edges m)
unfolding want_edge_bridges
want_edge_bridges-IsIndexed n ov [] m h = h
want_edge_bridges-IsIndexed n ov (edge ∷ edges) m h = want_edge_bridges-IsIndexed n ov edges _ (
    ground (
      arith,
      put-IsIndexed bridge_key (bridge_key (edge_bridge ov edge)) (edge_bridge ov edge) m refl h,
    ))

pub want_bridges-IsIndexed :
    (n : String) (ovs : List NetworkOverlay) (m : GoMap BridgeKey Bridge)
    → IsIndexed bridge_key m
    → IsIndexed bridge_key (want_bridges n ovs m)
unfolding want_bridges
want_bridges-IsIndexed n [] m h = h
want_bridges-IsIndexed n (ov ∷ ovs) m h =
    want_bridges-IsIndexed n ovs _ (want_edge_bridges-IsIndexed n ov ov.status.edges m h)
