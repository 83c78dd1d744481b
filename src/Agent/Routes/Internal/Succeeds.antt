-- ===== src/Agent/Routes/Internal/Succeeds.antt =====
-- A routes reconciliation of an internal node on a host that does what it is told.
use pontifex.Base.{
  ℕ, suc, ◌+◌, String, List, [], ◌∷◌, ◌≡◌, refl, ◌∙◌, inl, inr, Bool-cases, Option-cases, ◌==◌,
  comparable_string, comparable_number,
}
use pontifex.GoMap.{GoMap, get, index_by, keys, Runtime}
use pontifex.Effects.Settles.{settled, pair_eq}
use pontifex.Effects.Succeeds.{
  Quiet, Succeeds, then-Succeeds, perform-Succeeds, reconciled-nil, attempt-Quiet,
  attempt_query-Quiet, remove_orphans-Quiet, install_missing-Quiet, converge-Succeeds,
}
use pontifex.Api.{NetworkOverlay}
use pontifex.Agent.Firewall.{Firewall}
use pontifex.Agent.Routes.{Vrf, Addr, Rule, Route, Routes}
use pontifex.Agent.Routes.Tables.{vrf_name}
use pontifex.Agent.Routes.Wanted.{
  BridgeKey, bridge_key, comparable_bridge_key, table_of, want_bridges, want_ips, want_rules,
  want_vrfs,
}
use pontifex.Agent.Routes.Internal.{
  InternalReconciler, reconcile_vrfs, reconcile_rules, reconcile_overlay_addrs, reconcile_addrs,
  sync_tables, reconcile_routes, reconcile_bridges, reconcile,
}
use pontifex.Agent.Routes.Internal.Contract.{View, Honours, AllWork}
use pontifex.Agent.Routes.Internal.Convergence.{routes_settle}

module _ {W : Type 0} (routes : Routes W) (firewall : Firewall W) (works : AllWork routes firewall)
    (r : InternalReconciler) (rt : Runtime) where
  reconcile_vrfs-Succeeds :
      (ovs : List NetworkOverlay) → Succeeds (reconcile_vrfs routes firewall r rt ovs)
  unfolding reconcile_vrfs
  reconcile_vrfs-Succeeds ovs =
      converge-Succeeds Vrf.name Vrf.name rt 0 (want_vrfs ovs []) routes.list_vrfs _ _ _ _ _
        works.list_vrfs (λ v. works.remove_vrf v.name) (λ v. works.ensure_vrf v.name v.table_id)

  reconcile_rules-Succeeds :
      (ovs : List NetworkOverlay) → Succeeds (reconcile_rules routes firewall r rt ovs)
  unfolding reconcile_rules
  reconcile_rules-Succeeds ovs =
      converge-Succeeds Rule.table_id Rule.table_id rt 1 (want_rules ovs []) routes.list_rules _ _ _
        _ _ works.list_rules works.remove_rule works.ensure_rule

  reconcile_bridges-Succeeds :
      (ovs : List NetworkOverlay) → Succeeds (reconcile_bridges routes firewall r rt ovs)
  unfolding reconcile_bridges
  reconcile_bridges-Succeeds ovs =
      converge-Succeeds bridge_key bridge_key rt 3 (want_bridges r.node_name ovs [])
        firewall.list_bridges _ _ _ _ _ works.list_bridges
        (λ b. works.remove_bridge b.overlay_name b.virtual_ip)
        (λ b. works.ensure_bridge b.overlay_name b.virtual_ip b.pod_ip)

  reconcile_overlay_addrs-Quiet :
      (i : ℕ) (ov : NetworkOverlay) → Quiet (reconcile_overlay_addrs routes firewall r rt i ov)
  unfolding reconcile_overlay_addrs
  reconcile_overlay_addrs-Quiet i ov s = elim (Bool-cases (ov.status.community == "")) [
    | inl p ↦ rw (p, reconcile_overlay_addrs) refl
    | inr p ↦
        let vrf = vrf_name ov.name in
        let desired = want_ips r.node_name ov.status.edges [] in
        rw (p, reconcile_overlay_addrs)
          (attempt_query-Quiet _ (routes.list_addrs vrf) _ (works.list_addrs vrf)
            (λ actual t.
              install_missing-Quiet (λ ip. ip) (index_by Addr.ip actual [])
                (keys rt (4 + i) desired) _ _ (works.ensure_addr vrf) _
              ∙ remove_orphans-Quiet Addr.ip actual desired _ _ (λ a. works.remove_addr vrf a.ip) t)
            s)
  ]

  reconcile_addrs-Quiet :
      (ovs : List NetworkOverlay) (i : ℕ) → Quiet (reconcile_addrs routes firewall r rt i ovs)
  unfolding reconcile_addrs
  reconcile_addrs-Quiet [] i s = refl
  reconcile_addrs-Quiet (ov ∷ ovs) i s =
      reconcile_addrs-Quiet ovs (suc i) (reconcile_overlay_addrs routes firewall r rt i ov s)
      ∙ reconcile_overlay_addrs-Quiet i ov s

  sync_tables-Quiet :
      (by_table : GoMap ℕ (List Route)) (ovs : List NetworkOverlay)
      → Quiet (sync_tables routes firewall r rt by_table ovs)
  unfolding sync_tables
  sync_tables-Quiet by_table [] s = refl
  sync_tables-Quiet by_table (ov ∷ ovs) s = elim (Option-cases (table_of ov)) [
    | inl t ↦ rw (t, sync_tables) (sync_tables-Quiet by_table ovs s)
    | inr (tid, t) ↦
        rw (t, sync_tables)
          (sync_tables-Quiet by_table ovs _ ∙ attempt-Quiet _ _ (works.sync_routes tid _) s)
  ]

  reconcile_nil :
      (ovs : List NetworkOverlay) (w : W) → (reconcile routes firewall r rt ovs w).0 ≡ []
  unfolding reconcile reconcile_routes
  reconcile_nil ovs w =
      reconciled-nil _
        (then-Succeeds (reconcile_vrfs-Succeeds ovs) λ _.
          then-Succeeds (reconcile_rules-Succeeds ovs) λ _.
            then-Succeeds (perform-Succeeds _ (reconcile_addrs-Quiet ovs 0)) λ _.
              then-Succeeds
                (perform-Succeeds (reconcile_routes routes firewall r rt ovs)
                  (sync_tables-Quiet _ ovs))
                λ _. reconcile_bridges-Succeeds ovs)
        w

  -- On a host that honours its contract and on which every call succeeds, a routes reconciliation of
  -- an internal node returns nil, and so every VRF, rule and bridge has settled.
  pub routes_converge :
      (view : View W)
      → Honours routes firewall view
      → (ovs : List NetworkOverlay) (w : W)
      → ((reconcile routes firewall r rt ovs w).0 ≡ [])
        × (let w' = (reconcile routes firewall r rt ovs w).1 in
            ((n : String)
              → view.vrfs w' n ≡ settled (λ v. v) (view.vrfs w n) (get n (want_vrfs ovs [])))
            × ((t : ℕ)
                → view.rules w' t ≡ settled (λ u. u) (view.rules w t) (get t (want_rules ovs [])))
            × ((b : BridgeKey)
                → view.bridges w' b
                  ≡ settled (λ v. v) (view.bridges w b) (get b (want_bridges r.node_name ovs []))))
  routes_converge view honest ovs w =
      let nil = reconcile_nil ovs w in
      (nil, routes_settle routes firewall view honest r rt ovs w _ (pair_eq nil refl))
