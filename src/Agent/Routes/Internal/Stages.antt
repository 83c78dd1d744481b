-- ===== src/Agent/Routes/Internal/Stages.antt =====
-- The five steps of an internal node's routes reconciliation, one after the other.
use pontifex.Base.{
  ℕ, suc, List, [], ◌∷◌, ◌≡◌, refl, ap, ◌∙◌, arith, Bool-cases, Option-cases, inl, inr, ◌==◌,
  comparable_string,
}
use mathlib.Core.List.{concat-ne-nil}
use pontifex.GoMap.{GoMap, Runtime}
use pontifex.Effects.{ok, Run, attempt_query}
use pontifex.Effects.Sweeps.{attempt_clean, world-attempt}
use pontifex.Effects.Settles.{
  remove_orphans_clean, install_missing_clean, remove_orphans_keeps, install_missing_keeps,
}
use pontifex.Effects.Converge.{Result-cases}
use pontifex.Api.{NetworkOverlay}
use pontifex.Agent.Firewall.{Firewall}
use pontifex.Agent.Routes.{Addr, Route, Routes}
use pontifex.Agent.Routes.Tables.{vrf_name}
use pontifex.Agent.Routes.Internal.{
  InternalReconciler, reconcile_vrfs, reconcile_rules, reconcile_overlay_addrs, reconcile_addrs,
  sync_tables, reconcile_routes, reconcile_bridges, reconcile,
}
use pontifex.Agent.Routes.Wanted.{table_of}
use pontifex.Agent.Routes.Internal.Contract.{RouteCallsKeep}

module _ {W : Type 0} (routes : Routes W) (firewall : Firewall W) (r : InternalReconciler)
    (rt : Runtime) where
  overlay_addrs_clean :
      (i : ℕ) (ov : NetworkOverlay) (s : Run W)
      → (reconcile_overlay_addrs routes firewall r rt i ov s).errs ≡ []
      → s.errs ≡ []
  unfolding reconcile_overlay_addrs attempt_query
  overlay_addrs_clean i ov s h = elim (Bool-cases (ov.status.community == "")) [
    | inl p ↦ rw (p, reconcile_overlay_addrs) at h
    | inr p ↦ elim (Result-cases (routes.list_addrs (vrf_name ov.name) s.world).0) [
      | inl (actual, q) ↦ remove_orphans_clean _ _ _ _ _ _ (
          install_missing_clean _ _ _ _ _ _
            (rw (p, q, reconcile_overlay_addrs, attempt_query) at h))
      | inr (x, q) ↦
          absurd (concat-ne-nil _ _ (rw (p, q, reconcile_overlay_addrs, attempt_query) at h))
    ]
  ]

  overlay_addrs_keeps :
      {B : Type 0} (f : W → B)
      → RouteCallsKeep routes f
      → (i : ℕ) (ov : NetworkOverlay) (s : Run W)
      → f (reconcile_overlay_addrs routes firewall r rt i ov s).world ≡ f s.world
  unfolding reconcile_overlay_addrs attempt_query
  overlay_addrs_keeps f keeps i ov s = elim (Bool-cases (ov.status.community == "")) [
    | inl p ↦ rw (p, reconcile_overlay_addrs) refl
    | inr p ↦ elim (Result-cases (routes.list_addrs (vrf_name ov.name) s.world).0) [
      | inl (actual, q) ↦
          rw (p, q, reconcile_overlay_addrs, attempt_query)
            (install_missing_keeps _ _ _ _ _ _ f (keeps.ensure (vrf_name ov.name))
              ∙ remove_orphans_keeps Addr.ip actual _ _ _ _ f
                  (λ a. keeps.remove (vrf_name ov.name) a.ip)
              ∙ keeps.listing (vrf_name ov.name) s.world)
      | inr (x, q) ↦
          rw (p, q, reconcile_overlay_addrs, attempt_query)
            (keeps.listing (vrf_name ov.name) s.world)
    ]
  ]

  pub addrs_clean :
      (i : ℕ) (ovs : List NetworkOverlay) (s : Run W)
      → (reconcile_addrs routes firewall r rt i ovs s).errs ≡ []
      → s.errs ≡ []
  unfolding reconcile_addrs
  addrs_clean i [] s h = h
  addrs_clean i (ov ∷ ovs) s h = overlay_addrs_clean i ov s (addrs_clean (suc i) ovs _ h)

  addrs_keeps :
      {B : Type 0} (f : W → B)
      → RouteCallsKeep routes f
      → (i : ℕ) (ovs : List NetworkOverlay) (s : Run W)
      → f (reconcile_addrs routes firewall r rt i ovs s).world ≡ f s.world
  unfolding reconcile_addrs
  addrs_keeps f keeps i [] s = refl
  addrs_keeps f keeps i (ov ∷ ovs) s =
      addrs_keeps f keeps (suc i) ovs _ ∙ overlay_addrs_keeps f keeps i ov s

  pub sync_clean :
      (by_table : GoMap ℕ (List Route)) (ovs : List NetworkOverlay) (s : Run W)
      → (sync_tables routes firewall r rt by_table ovs s).errs ≡ []
      → s.errs ≡ []
  unfolding sync_tables
  sync_clean by_table [] s h = h
  sync_clean by_table (ov ∷ ovs) s h = elim (Option-cases (table_of ov)) [
    | inl p ↦ sync_clean by_table ovs _ (rw (p, sync_tables) at h)
    | inr (tid, p) ↦ (attempt_clean _ _ s (sync_clean by_table ovs _ (rw (p, sync_tables) at h))).0
  ]

  sync_keeps :
      {B : Type 0} (f : W → B)
      → RouteCallsKeep routes f
      → (by_table : GoMap ℕ (List Route)) (ovs : List NetworkOverlay) (s : Run W)
      → f (sync_tables routes firewall r rt by_table ovs s).world ≡ f s.world
  unfolding sync_tables
  sync_keeps f keeps by_table [] s = refl
  sync_keeps f keeps by_table (ov ∷ ovs) s =
      sync_keeps f keeps by_table ovs _ ∙ elim (Option-cases (table_of ov)) [
        | inl p ↦ rw p refl
        | inr (tid, p) ↦ rw p (ap f (world-attempt _ _ s) ∙ keeps.sync tid _ s.world)
      ]

  -- The addresses and the routes, between the rules and the bridges.
  abbrev pub middle : List NetworkOverlay → Run W → Run W
  middle ovs s =
      reconcile_routes routes firewall r rt ovs (reconcile_addrs routes firewall r rt 0 ovs s)

  pub middle_clean :
      (ovs : List NetworkOverlay) (s : Run W) → (middle ovs s).errs ≡ [] → s.errs ≡ []
  unfolding reconcile_routes
  middle_clean ovs s h = addrs_clean 0 ovs s (sync_clean _ ovs _ h)

  pub middle_keeps :
      {B : Type 0} (f : W → B)
      → RouteCallsKeep routes f
      → (ovs : List NetworkOverlay) (s : Run W) → f (middle ovs s).world ≡ f s.world
  unfolding reconcile_routes
  middle_keeps f keeps ovs s = sync_keeps f keeps _ ovs _ ∙ addrs_keeps f keeps 0 ovs s

  module _ (ovs : List NetworkOverlay) (w : W) where
    abbrev pub start : Run W
    start = record { errs = []; world = w }

    abbrev pub after_vrfs : Run W
    after_vrfs = (reconcile_vrfs routes firewall r rt ovs start).1

    abbrev pub after_rules : Run W
    after_rules = (reconcile_rules routes firewall r rt ovs after_vrfs).1

    abbrev pub after_bridges : Run W
    after_bridges = (reconcile_bridges routes firewall r rt ovs (middle ovs after_rules)).1

    -- A clean reconciliation has gone through all its steps.
    pub steps_of_clean :
        (w' : W)
        → reconcile routes firewall r rt ovs w ≡ ([], w')
        → ((reconcile_vrfs routes firewall r rt ovs start).0 ≡ ok tt)
          × ((reconcile_rules routes firewall r rt ovs after_vrfs).0 ≡ ok tt)
          × ((reconcile_bridges routes firewall r rt ovs (middle ovs after_rules)).0 ≡ ok tt)
          × (after_bridges.errs ≡ [])
          × (after_bridges.world ≡ w')
    unfolding reconcile
    steps_of_clean w' h = ground (arith, h)
