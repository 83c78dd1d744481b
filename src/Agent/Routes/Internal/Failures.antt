-- ===== src/Agent/Routes/Internal/Failures.antt =====
-- What holds of a routes reconciliation of an internal node whatever fails in it.
use pontifex.Base.{true, List, [], ◌≡◌, refl, ap, ◌∙◌, inl, inr, is_some, comparable_string}
use pontifex.GoMap.{has, Runtime}
use pontifex.Effects.{Result, ok, err, Run, finish}
use pontifex.Effects.Converge.{Result-cases, converge_kept}
use pontifex.Api.{NetworkOverlay}
use pontifex.Agent.Firewall.{Firewall}
use pontifex.Agent.Routes.{Routes}
use pontifex.Agent.Routes.Wanted.{want_bridges, BridgeKey, bridge_key, comparable_bridge_key}
use pontifex.Agent.Routes.Internal.{
  InternalReconciler, reconcile_vrfs, reconcile_rules, reconcile_bridges, reconcile,
}
use pontifex.Agent.Routes.Internal.Contract.{View, Honours}
use pontifex.Agent.Routes.Internal.Convergence.{vrfs_keep_bridges, rules_keep}
use pontifex.Agent.Routes.Internal.Stages.{middle, middle_keeps, start, after_vrfs, after_rules}

world-finish : {W : Type 0} (r : Result (Unit {0})) (s : Run W) → (finish r s).1 ≡ s.world
world-finish (ok u) s = refl
world-finish (err x) s = refl

module _ {W : Type 0} (routes : Routes W) (firewall : Firewall W) (view : View W)
    (honest : Honours routes firewall view) (r : InternalReconciler) (rt : Runtime)
    (ovs : List NetworkOverlay) where
  bridges_kept :
      (s : Run W) (k : BridgeKey)
      → is_some (view.bridges s.world k) ≡ true
      → has k (want_bridges r.node_name ovs []) ≡ true
      → view.bridges (reconcile_bridges routes firewall r rt ovs s).1.world k
        ≡ view.bridges s.world k
  unfolding reconcile_bridges
  bridges_kept =
      converge_kept bridge_key bridge_key rt 3 (want_bridges r.node_name ovs [])
        firewall.list_bridges _ _ _ _ _ view.bridges (λ b. b) honest.lists_bridges
        honest.removes_bridge honest.ensures_bridge

  -- Whatever `Reconcile` returns, a bridge that is there, and whose overlay and virtual address are
  -- still desired, is the one that was there.
  pub bridge_untouched :
      (w : W) (k : BridgeKey)
      → is_some (view.bridges w k) ≡ true
      → has k (want_bridges r.node_name ovs []) ≡ true
      → view.bridges (reconcile routes firewall r rt ovs w).1 k ≡ view.bridges w k
  unfolding reconcile
  bridge_untouched w k there wanted =
      let s0 = start routes firewall r rt ovs w in
      let s1 = after_vrfs routes firewall r rt ovs w in
      let s2 = after_rules routes firewall r rt ovs w in
      let s3 = middle routes firewall r rt ovs s2 in
      let one = ap (λ f. f k) (vrfs_keep_bridges routes firewall view honest r rt ovs s0) in
      let two =
        ap (λ f. f k)
          (rules_keep routes firewall view honest r rt ovs s1 view.bridges
            honest.rule_calls-bridges)
        ∙ one in
      let three =
        ap (λ f. f k)
          (middle_keeps routes firewall r rt view.bridges honest.route_calls-bridges ovs s2)
        ∙ two in
      elim (Result-cases (reconcile_vrfs routes firewall r rt ovs s0).0) [
        | inr (x, p) ↦ rw p one
        | inl (u, p) ↦ elim (Result-cases (reconcile_rules routes firewall r rt ovs s1).0) [
          | inr (x, q) ↦ rw (p, q) two
          | inl (v, q) ↦
              rw (p, q)
                (ap (λ h. view.bridges h k)
                    (world-finish (reconcile_bridges routes firewall r rt ovs s3).0
                      (reconcile_bridges routes firewall r rt ovs s3).1)
                  ∙ bridges_kept s3 k (ap is_some three ∙ there) wanted
                  ∙ three)
        ]
      ]
