-- ===== src/Agent/Routes/Internal.antt =====
-- apps/agent/internal/reconcilers/routes/internalnode.go: the routes reconciler of an internal
-- node. The loops over maps are, in their order: the VRFs (0), the rules (1), the learned routes
-- (2), the bridges (3), and the addresses of the overlay at the index i (4 + i).
pub mod Contract
pub mod Stages
pub mod Convergence
pub mod Succeeds
pub mod Syncs
pub mod Addresses
pub mod Held
pub mod Failures
use pontifex.Base.{
  ℕ, suc, ◌+◌, ◌<>◌, String, Bool, true, false, not, ◌&&◌, ◌||◌, List, [], ◌∷◌, ◌++◌, Option, none,
  some, ◌≡◌, ◌↔◌, arith, ◌==◌, Comparable, comparable_string, comparable_number, if◌then◌else◌,
}
use pontifex.GoMap.{GoMap, GoSet, get, put, insert, index_by, Runtime, values, keys}
use pontifex.Strconv.{decimal}
use pontifex.Effects.{
  Call, Error, Run, Action, ◌>>=◌, ◌>>◌, query, perform, attempt, attempt_query, reconciled,
}
use pontifex.Effects.Settles.{remove_orphans, install_missing}
use pontifex.Api.{NetworkOverlay, EdgeStatus}
use pontifex.Agent.Bgp as Bgp
use pontifex.Agent.Firewall.{Bridge, Firewall}
use pontifex.Agent.Routes.{Vrf, Addr, Rule, Route, Routes}
use pontifex.Agent.Routes.Tables.{vrf_name, vrf_table_id}
use pontifex.Agent.Routes.Wanted.{
  BridgeKey, OverlayInfo, bridge_key, bridge_key_equal_iff, community_map, comparable_bridge_key,
  edge_bridge, learned_route, not_bridged, or_empty, overlay_rule, overlay_vrf, place_route,
  routes_by_table, serves, table_of, want_bridges, want_edge_bridges, want_ips, want_rule,
  want_rules, want_vrf, want_vrfs,
}

pub record InternalReconciler : Type 0 where
  pub node_name : String
  pub learned : GoMap String Bgp.Route

module _ {W : Type 0} (routes : Routes W) (firewall : Firewall W) (r : InternalReconciler)
    (rt : Runtime) where
  -- `reconcileVRFs`
  unfoldable pub reconcile_vrfs : List NetworkOverlay → Action W (Unit {0})
  reconcile_vrfs overlays = do
    let desired = want_vrfs overlays []
    actual ← query "list VRFs" routes.list_vrfs
    perform (
        remove_orphans Vrf.name actual desired (λ v. "remove VRF " <> v.name)
          (λ v. routes.remove_vrf v.name))
    perform (
        install_missing Vrf.name (index_by Vrf.name actual []) (values rt 0 desired)
          (λ v. "ensure VRF " <> v.name) (λ v. routes.ensure_vrf v.name v.table_id))

  -- `reconcileRules`
  unfoldable pub reconcile_rules : List NetworkOverlay → Action W (Unit {0})
  reconcile_rules overlays = do
    let desired = want_rules overlays []
    actual ← query "list ip rules" routes.list_rules
    perform (
        remove_orphans Rule.table_id actual desired
          (λ u. "remove ip rule table " <> decimal u.table_id) (λ u. routes.remove_rule u))
    perform (
        install_missing Rule.table_id (index_by Rule.table_id actual []) (values rt 1 desired)
          (λ u. "ensure ip rule table " <> decimal u.table_id) (λ u. routes.ensure_rule u))

  -- The body of the loop of `reconcileAddrs`, for the overlay at the index `i`.
  unfoldable pub reconcile_overlay_addrs : ℕ → NetworkOverlay → Run W → Run W
  reconcile_overlay_addrs i ov s =
      let vrf = vrf_name ov.name in
      let desired = want_ips r.node_name ov.status.edges [] in
      let listed =
        attempt_query ("list addrs for VRF " <> vrf) (routes.list_addrs vrf)
          (λ actual t.
            install_missing (λ ip. ip) (index_by Addr.ip actual []) (keys rt (4 + i) desired)
              (λ ip. "ensure addr " <> ip <> " on VRF " <> vrf) (λ ip. routes.ensure_addr vrf ip)
              (remove_orphans Addr.ip actual desired
                (λ a. "remove addr " <> a.ip <> " from VRF " <> vrf)
                (λ a. routes.remove_addr vrf a.ip) t))
          s in
      if ov.status.community == "" then s else listed

  -- `reconcileAddrs`
  unfoldable pub reconcile_addrs : ℕ → List NetworkOverlay → Run W → Run W
  reconcile_addrs i [] s = s
  reconcile_addrs i (ov ∷ ovs) s = reconcile_addrs (suc i) ovs (reconcile_overlay_addrs i ov s)

  -- The last loop of `reconcileRoutes`.
  unfoldable pub sync_tables : GoMap ℕ (List Route) → List NetworkOverlay → Run W → Run W
  sync_tables by_table [] s = s
  sync_tables by_table (ov ∷ ovs) s = sync_tables by_table ovs (elim (table_of ov) [
    | none ↦ s
    | some tid ↦
        attempt ("sync routes for overlay " <> ov.name <> " table " <> decimal tid)
          (routes.sync_routes tid (or_empty (get tid by_table))) s
  ])

  -- `reconcileRoutes`
  unfoldable pub reconcile_routes : List NetworkOverlay → Run W → Run W
  reconcile_routes overlays =
      sync_tables (routes_by_table (community_map overlays []) (values rt 2 r.learned) []) overlays

  -- `reconcileBridges`
  unfoldable pub reconcile_bridges : List NetworkOverlay → Action W (Unit {0})
  reconcile_bridges overlays = do
    let desired = want_bridges r.node_name overlays []
    actual ← query "list firewall bridges" firewall.list_bridges
    perform (
        remove_orphans bridge_key actual desired
          (λ b. "remove bridge " <> b.overlay_name <> "/" <> b.virtual_ip)
          (λ b. firewall.remove_bridge b.overlay_name b.virtual_ip))
    perform (
        install_missing bridge_key (index_by bridge_key actual []) (values rt 3 desired)
          (λ b. "ensure bridge " <> b.overlay_name <> "/" <> b.virtual_ip)
          (λ b. firewall.ensure_bridge b.overlay_name b.virtual_ip b.pod_ip))

  -- `Reconcile`
  unfoldable pub reconcile : List NetworkOverlay → W → List Error × W
  unfolding reconcile_vrfs reconcile_rules reconcile_addrs reconcile_routes reconcile_bridges
  reconcile overlays = reconciled (do
    reconcile_vrfs overlays
    reconcile_rules overlays
    perform (reconcile_addrs 0 overlays)
    perform (reconcile_routes overlays)
    reconcile_bridges overlays)
