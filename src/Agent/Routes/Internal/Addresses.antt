-- ===== src/Agent/Routes/Internal/Addresses.antt =====
-- The addresses of the VRFs after a routes reconciliation of an internal node.
use pontifex.Base.{
  ℕ, suc, ◌+◌, String, true, false, List, [], ◌∷◌, Option, ◌≡◌, refl, ap, ◌∙◌, subst, arith, ◌==◌,
  comparable_string, comparable_number, Bool-cases, inl, inr, if◌then◌else◌,
}
use mathlib.Core.List.{concat-ne-nil}
use pontifex.GoMap.{has, Runtime}
use pontifex.Effects.{Run, attempt_query}
use pontifex.Effects.Converge.{Result-cases}
use pontifex.Effects.Keyed.{Removes, Installs, Lists}
use pontifex.Effects.Present.{present, exactly_present}
use pontifex.Effects.Settles.{install_missing_keeps, remove_orphans_keeps}
use pontifex.Api.{NetworkOverlay}
use pontifex.Agent.Firewall.{Firewall}
use pontifex.Agent.Routes.{Addr, Route, Routes}
use pontifex.Agent.Routes.Tables.{vrf_name}
use pontifex.Agent.Routes.Wanted.{want_ips}
use pontifex.Agent.Routes.Internal.{InternalReconciler, reconcile_overlay_addrs, reconcile_addrs}
use pontifex.Agent.Routes.Internal.Stages.{addrs_clean}

-- The addresses of each VRF are keyed by themselves; a call on one VRF leaves the addresses of the
-- others alone, and so does a sync of a table.
pub record KeepsAddrs {W : Type 0} (routes : Routes W)
    (addrs : W → String → String → Option (Unit {0})) : Type 0 where
  pub lists : (vrf : String) → Lists (λ w. addrs w vrf) Addr.ip (routes.list_addrs vrf)
  pub removes :
      (vrf : String) → Removes (λ w. addrs w vrf) Addr.ip (λ a. routes.remove_addr vrf a.ip)
  pub ensures :
      (vrf : String) → Installs (λ w. addrs w vrf) (λ ip. ip) (λ _. tt) (routes.ensure_addr vrf)
  pub remove_others :
      (vrf ip other : String) (w : W)
      → (vrf == other) ≡ false
      → addrs (routes.remove_addr vrf ip w).1 other ≡ addrs w other
  pub ensure_others :
      (vrf ip other : String) (w : W)
      → (vrf == other) ≡ false
      → addrs (routes.ensure_addr vrf ip w).1 other ≡ addrs w other
  pub sync : (t : ℕ) (rs : List Route) (w : W) → addrs (routes.sync_routes t rs w).1 ≡ addrs w

-- What the loop makes of the addresses of a VRF, for one overlay and for all, on the node `n`.
abbrev pub after_overlay :
    String → NetworkOverlay → String → String → Option (Unit {0}) → Option (Unit {0})
after_overlay n ov vrf ip old =
    if ov.status.community == ""
    then old
    else if vrf_name ov.name == vrf
    then present (has ip (want_ips n ov.status.edges []))
    else old

abbrev pub after_overlays :
    String → List NetworkOverlay → String → String → Option (Unit {0}) → Option (Unit {0})
after_overlays n [] vrf ip old = old
after_overlays n (ov ∷ ovs) vrf ip old = after_overlays n ovs vrf ip (after_overlay n ov vrf ip old)

module _ {W : Type 0} (routes : Routes W) (firewall : Firewall W) (r : InternalReconciler)
    (rt : Runtime) (addrs : W → String → String → Option (Unit {0}))
    (keeps : KeepsAddrs routes addrs) where
  -- The VRF of the overlay itself.
  own_addrs_settle :
      (i : ℕ) (ov : NetworkOverlay) (s : Run W) (ip : String)
      → (ov.status.community == "") ≡ false
      → (reconcile_overlay_addrs routes firewall r rt i ov s).errs ≡ []
      → addrs (reconcile_overlay_addrs routes firewall r rt i ov s).world (vrf_name ov.name) ip
        ≡ present (has ip (want_ips r.node_name ov.status.edges []))
  unfolding reconcile_overlay_addrs attempt_query
  own_addrs_settle i ov s ip p h =
      let name = vrf_name ov.name in
      elim (Result-cases (routes.list_addrs name s.world).0) [
        | inr (x, q) ↦
            absurd (concat-ne-nil _ _ (rw (p, q, reconcile_overlay_addrs, attempt_query) at h))
        | inl (actual, q) ↦
            rw (p, q, reconcile_overlay_addrs, attempt_query)
              (exactly_present (λ w. addrs w name) Addr.ip rt (4 + i) actual
                (want_ips r.node_name ov.status.edges []) (routes.list_addrs name) _ _ _ _
                (keeps.lists name) (keeps.removes name) (keeps.ensures name) s.world
                (record s { world = (routes.list_addrs name s.world).1 })
                ((keeps.lists name).unchanged s.world) q
                (rw (p, q, reconcile_overlay_addrs, attempt_query) at h) ip)
      ]

  -- Any other VRF.
  other_addrs_kept :
      (i : ℕ) (ov : NetworkOverlay) (s : Run W) (vrf : String)
      → (vrf_name ov.name == vrf) ≡ false
      → addrs (reconcile_overlay_addrs routes firewall r rt i ov s).world vrf ≡ addrs s.world vrf
  unfolding reconcile_overlay_addrs attempt_query
  other_addrs_kept i ov s vrf other = elim (Bool-cases (ov.status.community == "")) [
    | inl p ↦ rw (p, reconcile_overlay_addrs) refl
    | inr p ↦
        let name = vrf_name ov.name in
        let same_world = ap (λ w. addrs w vrf) ((keeps.lists name).unchanged s.world) in
        elim (Result-cases (routes.list_addrs name s.world).0) [
          | inr (x, q) ↦ rw (p, q, reconcile_overlay_addrs, attempt_query) same_world
          | inl (actual, q) ↦
              rw (p, q, reconcile_overlay_addrs, attempt_query)
                (install_missing_keeps (λ k. k) _ _ _ _ _ (λ w. addrs w vrf)
                    (λ a w. keeps.ensure_others name a vrf w other)
                  ∙ remove_orphans_keeps Addr.ip actual _ _ _ _ (λ w. addrs w vrf)
                      (λ a w. keeps.remove_others name a.ip vrf w other)
                  ∙ same_world)
        ]
  ]

  unserved :
      (i : ℕ) (ov : NetworkOverlay) (s : Run W) (vrf ip : String)
      → (ov.status.community == "") ≡ true
      → addrs (reconcile_overlay_addrs routes firewall r rt i ov s).world vrf ip
        ≡ addrs s.world vrf ip
  unfolding reconcile_overlay_addrs
  unserved i ov s vrf ip p = rw (p, reconcile_overlay_addrs) refl

  overlay_addrs_settle :
      (i : ℕ) (ov : NetworkOverlay) (s : Run W) (vrf ip : String)
      → (reconcile_overlay_addrs routes firewall r rt i ov s).errs ≡ []
      → addrs (reconcile_overlay_addrs routes firewall r rt i ov s).world vrf ip
        ≡ after_overlay r.node_name ov vrf ip (addrs s.world vrf ip)
  overlay_addrs_settle i ov s vrf ip h = elim (Bool-cases (vrf_name ov.name == vrf)) [
    | inr other ↦ elim (Bool-cases (ov.status.community == "")) [
      | inl p ↦ rw p (ap (λ f. f ip) (other_addrs_kept i ov s vrf other))
      | inr p ↦ rw (p, other) (ap (λ f. f ip) (other_addrs_kept i ov s vrf other))
    ]
    | inl same ↦ elim (Bool-cases (ov.status.community == "")) [
      | inl p ↦ rw p (unserved i ov s vrf ip p)
      | inr p ↦
          rw (p, same)
            (subst
              (λ v.
                addrs (reconcile_overlay_addrs routes firewall r rt i ov s).world v ip
                ≡ present (has ip (want_ips r.node_name ov.status.edges [])))
              (ground (arith, same, comparable_string.equal_iff (vrf_name ov.name) vrf))
              (own_addrs_settle i ov s ip p h))
    ]
  ]

  pub addrs_settle :
      (i : ℕ) (ovs : List NetworkOverlay) (s : Run W) (vrf ip : String)
      → (reconcile_addrs routes firewall r rt i ovs s).errs ≡ []
      → addrs (reconcile_addrs routes firewall r rt i ovs s).world vrf ip
        ≡ after_overlays r.node_name ovs vrf ip (addrs s.world vrf ip)
  unfolding reconcile_addrs
  addrs_settle i [] s vrf ip h = refl
  addrs_settle i (ov ∷ ovs) s vrf ip h =
      addrs_settle (suc i) ovs (reconcile_overlay_addrs routes firewall r rt i ov s) vrf ip h
      ∙ ap (after_overlays r.node_name ovs vrf ip)
          (overlay_addrs_settle i ov s vrf ip (addrs_clean routes firewall r rt (suc i) ovs _ h))
