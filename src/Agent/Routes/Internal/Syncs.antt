-- ===== src/Agent/Routes/Internal/Syncs.antt =====
-- The tables of a host after a routes reconciliation of an internal node.
use pontifex.Base.{
  ℕ, ◌<>◌, Bool, true, false, List, [], ◌∷◌, none, ◌≡◌, refl, sym, ap, ◌∙◌, any, arith, ◌==◌,
  comparable_number, Option-cases, inl, inr, if◌then◌else◌,
}
use pontifex.GoMap.{GoMap, get, Runtime, values}
use pontifex.Strconv.{decimal}
use pontifex.Effects.{Run, attempt}
use pontifex.Effects.Sweeps.{attempt_clean, world-attempt}
use pontifex.Api.{NetworkOverlay}
use pontifex.Agent.Firewall.{Firewall}
use pontifex.Agent.Routes.{Route, Routes}
use pontifex.Agent.Routes.Wanted.{table_of, or_empty}
use pontifex.Agent.Routes.Wanted.Tenancy.{is_table, routes_of_table, routes_of_tenant}
use pontifex.Agent.Routes.Internal.{
  InternalReconciler, sync_tables, reconcile_addrs, reconcile_routes, reconcile,
}
use pontifex.Agent.Routes.Internal.Contract.{View, Honours, BridgeCallsKeep}
use pontifex.Agent.Routes.Internal.Convergence.{bridges_keep, bridges_clean}
use pontifex.Agent.Routes.Internal.Stages.{middle, sync_clean, after_rules, steps_of_clean}

-- `SyncRoutes` that returns nil makes a table as desired, and it touches no other table.
pub record SyncsTables {W : Type 0} (routes : Routes W) (tables : W → ℕ → List Route) : Type 0 where
  pub synced :
      (t : ℕ) (rs : List Route) (w : W)
      → (routes.sync_routes t rs w).0 ≡ none
      → tables (routes.sync_routes t rs w).1 t ≡ rs
  pub others :
      (t : ℕ) (rs : List Route) (w : W) (k : ℕ)
      → (t == k) ≡ false
      → tables (routes.sync_routes t rs w).1 k ≡ tables w k

-- An overlay has the table `t`.
abbrev pub has_table : List NetworkOverlay → ℕ → Bool
has_table ovs t = any (λ ov. is_table t (table_of ov)) ovs

module _ {W : Type 0} (routes : Routes W) (firewall : Firewall W) (r : InternalReconciler)
    (rt : Runtime) (tables : W → ℕ → List Route) (syncs : SyncsTables routes tables) where
  sync_settles :
      (by_table : GoMap ℕ (List Route)) (ovs : List NetworkOverlay) (s : Run W) (t : ℕ)
      → (sync_tables routes firewall r rt by_table ovs s).errs ≡ []
      → tables (sync_tables routes firewall r rt by_table ovs s).world t
        ≡ (if has_table ovs t then or_empty (get t by_table) else tables s.world t)
  unfolding sync_tables
  sync_settles by_table [] s t h = refl
  sync_settles by_table (ov ∷ ovs) s t h = elim (Option-cases (table_of ov)) [
    | inl e ↦
        rw (e, sync_tables, has_table) (sync_settles by_table ovs s t (rw (e, sync_tables) at h))
    | inr (tid, e) ↦
        let title = "sync routes for overlay " <> ov.name <> " table " <> decimal tid in
        let call = routes.sync_routes tid (or_empty (get tid by_table)) in
        let h' : (sync_tables routes firewall r rt by_table ovs (attempt title call s)).errs ≡ [] =
          rw (e, sync_tables) at h in
        let none' =
          (attempt_clean title call s (sync_clean routes firewall r rt by_table ovs _ h')).1 in
        rw (e, sync_tables, has_table)
          (sync_settles by_table ovs (attempt title call s) t h'
            ∙ ground (
              arith,
              world-attempt title call s,
              comparable_number.equal_iff tid t,
              syncs.synced tid (or_empty (get tid by_table)) s.world none',
              syncs.others tid (or_empty (get tid by_table)) s.world t,
            ))
  ]

  -- When `Reconcile` returns nil, the table of every overlay that has one holds exactly the learned
  -- routes whose home it is, in the order of the loop: the table of the first of their communities
  -- that an overlay has and that names a table.
  pub tables_hold :
      (view : View W)
      → Honours routes firewall view
      → BridgeCallsKeep firewall tables
      → (ovs : List NetworkOverlay) (w w' : W) → reconcile routes firewall r rt ovs w ≡ ([], w')
      → (t : ℕ) → has_table ovs t ≡ true
      → tables w' t ≡ routes_of_table ovs t (values rt 2 r.learned)
  unfolding reconcile_routes
  tables_hold view honest keeps ovs w w' h t there =
      let (_, _, bd, clean, e) = steps_of_clean routes firewall r rt ovs w w' h in
      let s2 = after_rules routes firewall r rt ovs w in
      let s3 = middle routes firewall r rt ovs s2 in
      let c3 = bridges_clean routes firewall view honest r rt ovs s3 bd clean in
      ap (λ v. tables v t) (sym e)
      ∙ ap (λ f. f t) (bridges_keep routes firewall view honest r rt ovs s3 tables keeps)
      ∙ sync_settles _ ovs (reconcile_addrs routes firewall r rt 0 ovs s2) t c3
      ∙ rw there (routes_of_tenant ovs t (values rt 2 r.learned))
