-- ===== src/Agent/Routes/Internal/Convergence.antt =====
-- What a routes reconciliation of an internal node makes of a host that honours its contract.
use pontifex.Base.{ℕ, String, List, [], ◌≡◌, sym, ap, ◌∙◌, comparable_string, comparable_number}
use pontifex.GoMap.{get, Runtime}
use pontifex.Effects.{ok, Run}
use pontifex.Effects.Settles.{settled}
use pontifex.Effects.Converge.{converge_keeps, converge_clean, converge_settles}
use pontifex.Api.{NetworkOverlay}
use pontifex.Agent.Firewall.{Firewall}
use pontifex.Agent.Routes.{Vrf, Rule, Routes}
use pontifex.Agent.Routes.Internal.{
  InternalReconciler, reconcile_vrfs, reconcile_rules, reconcile_bridges, reconcile,
}
use pontifex.Agent.Routes.Wanted.{
  want_vrfs, want_rules, want_bridges, BridgeKey, bridge_key, comparable_bridge_key,
}
use pontifex.Agent.Routes.Wanted.Desired.{
  want_vrfs-IsIndexed, want_rules-IsIndexed, want_bridges-IsIndexed,
}
use pontifex.Agent.Routes.Internal.Contract.{View, Honours, RuleCallsKeep, BridgeCallsKeep}
use pontifex.Agent.Routes.Internal.Stages.{
  middle, middle_clean, middle_keeps, start, after_vrfs, after_rules, steps_of_clean,
}

module _ {W : Type 0} (routes : Routes W) (firewall : Firewall W) (view : View W)
    (honest : Honours routes firewall view) (r : InternalReconciler) (rt : Runtime)
    (ovs : List NetworkOverlay) (s : Run W) where
  module _ (done : (reconcile_vrfs routes firewall r rt ovs s).0 ≡ ok tt)
      (clean : (reconcile_vrfs routes firewall r rt ovs s).1.errs ≡ []) where
    vrfs_settle :
        (k : String)
        → view.vrfs (reconcile_vrfs routes firewall r rt ovs s).1.world k
          ≡ settled (λ v. v) (view.vrfs s.world k) (get k (want_vrfs ovs []))
    unfolding reconcile_vrfs
    vrfs_settle =
        converge_settles Vrf.name Vrf.name rt 0 (want_vrfs ovs []) routes.list_vrfs _ _ _ _ _
          view.vrfs (λ v. v) (want_vrfs-IsIndexed ovs [] (tt, tt)) honest.lists_vrfs
          honest.removes_vrf honest.ensures_vrf s done clean

    vrfs_clean : s.errs ≡ []
    unfolding reconcile_vrfs
    vrfs_clean =
        converge_clean Vrf.name Vrf.name rt 0 (want_vrfs ovs []) routes.list_vrfs _ _ _ _ _
          view.vrfs (λ v. v) (want_vrfs-IsIndexed ovs [] (tt, tt)) honest.lists_vrfs
          honest.removes_vrf honest.ensures_vrf s done clean

  module _ (done : (reconcile_rules routes firewall r rt ovs s).0 ≡ ok tt)
      (clean : (reconcile_rules routes firewall r rt ovs s).1.errs ≡ []) where
    rules_settle :
        (k : ℕ)
        → view.rules (reconcile_rules routes firewall r rt ovs s).1.world k
          ≡ settled (λ v. v) (view.rules s.world k) (get k (want_rules ovs []))
    unfolding reconcile_rules
    rules_settle =
        converge_settles Rule.table_id Rule.table_id rt 1 (want_rules ovs []) routes.list_rules _ _
          _ _ _ view.rules (λ v. v) (want_rules-IsIndexed ovs [] (tt, tt)) honest.lists_rules
          honest.removes_rule honest.ensures_rule s done clean

    rules_clean : s.errs ≡ []
    unfolding reconcile_rules
    rules_clean =
        converge_clean Rule.table_id Rule.table_id rt 1 (want_rules ovs []) routes.list_rules _ _ _
          _ _ view.rules (λ v. v) (want_rules-IsIndexed ovs [] (tt, tt)) honest.lists_rules
          honest.removes_rule honest.ensures_rule s done clean

  module _ (done : (reconcile_bridges routes firewall r rt ovs s).0 ≡ ok tt)
      (clean : (reconcile_bridges routes firewall r rt ovs s).1.errs ≡ []) where
    bridges_settle :
        (k : BridgeKey)
        → view.bridges (reconcile_bridges routes firewall r rt ovs s).1.world k
          ≡ settled (λ v. v) (view.bridges s.world k) (get k (want_bridges r.node_name ovs []))
    unfolding reconcile_bridges
    bridges_settle =
        converge_settles bridge_key bridge_key rt 3 (want_bridges r.node_name ovs [])
          firewall.list_bridges _ _ _ _ _ view.bridges (λ v. v)
          (want_bridges-IsIndexed r.node_name ovs [] (tt, tt)) honest.lists_bridges
          honest.removes_bridge honest.ensures_bridge s done clean

    pub bridges_clean : s.errs ≡ []
    unfolding reconcile_bridges
    bridges_clean =
        converge_clean bridge_key bridge_key rt 3 (want_bridges r.node_name ovs [])
          firewall.list_bridges _ _ _ _ _ view.bridges (λ v. v)
          (want_bridges-IsIndexed r.node_name ovs [] (tt, tt)) honest.lists_bridges
          honest.removes_bridge honest.ensures_bridge s done clean

  -- What a step does not deal with, it keeps.
  vrfs_keep_rules :
      view.rules (reconcile_vrfs routes firewall r rt ovs s).1.world ≡ view.rules s.world
  unfolding reconcile_vrfs
  vrfs_keep_rules =
      converge_keeps Vrf.name Vrf.name rt 0 (want_vrfs ovs []) routes.list_vrfs _ _ _ _ _ view.rules
        (λ w. ap view.rules (honest.lists_vrfs.unchanged w))
        (λ v. honest.vrf_calls-rules.remove v.name)
        (λ v. honest.vrf_calls-rules.ensure v.name v.table_id) s

  pub vrfs_keep_bridges :
      view.bridges (reconcile_vrfs routes firewall r rt ovs s).1.world ≡ view.bridges s.world
  unfolding reconcile_vrfs
  vrfs_keep_bridges =
      converge_keeps Vrf.name Vrf.name rt 0 (want_vrfs ovs []) routes.list_vrfs _ _ _ _ _
        view.bridges (λ w. ap view.bridges (honest.lists_vrfs.unchanged w))
        (λ v. honest.vrf_calls-bridges.remove v.name)
        (λ v. honest.vrf_calls-bridges.ensure v.name v.table_id) s

  module _ {B : Type 0} (f : W → B) where
    pub rules_keep :
        RuleCallsKeep routes f → f (reconcile_rules routes firewall r rt ovs s).1.world ≡ f s.world
    unfolding reconcile_rules
    rules_keep keeps =
        converge_keeps Rule.table_id Rule.table_id rt 1 (want_rules ovs []) routes.list_rules _ _ _
          _ _ f (λ w. ap f (honest.lists_rules.unchanged w)) keeps.remove keeps.ensure s

    pub bridges_keep :
        BridgeCallsKeep firewall f
        → f (reconcile_bridges routes firewall r rt ovs s).1.world ≡ f s.world
    unfolding reconcile_bridges
    bridges_keep keeps =
        converge_keeps bridge_key bridge_key rt 3 (want_bridges r.node_name ovs [])
          firewall.list_bridges _ _ _ _ _ f (λ w. ap f (honest.lists_bridges.unchanged w))
          (λ b. keeps.remove b.overlay_name b.virtual_ip)
          (λ b. keeps.ensure b.overlay_name b.virtual_ip b.pod_ip) s

module _ {W : Type 0} (routes : Routes W) (firewall : Firewall W) (view : View W)
    (honest : Honours routes firewall view) (r : InternalReconciler) (rt : Runtime)
    (ovs : List NetworkOverlay) (w w' : W) where
  -- When `Reconcile` returns nil, every VRF name, rule table and bridge of the host has settled: what
  -- is not desired is gone, what was missing is as desired, and what was there under a desired key
  -- is as it was.
  pub routes_settle :
      reconcile routes firewall r rt ovs w ≡ ([], w')
      → ((n : String)
          → view.vrfs w' n ≡ settled (λ v. v) (view.vrfs w n) (get n (want_vrfs ovs [])))
        × ((t : ℕ)
            → view.rules w' t ≡ settled (λ u. u) (view.rules w t) (get t (want_rules ovs [])))
        × ((b : BridgeKey)
            → view.bridges w' b
              ≡ settled (λ v. v) (view.bridges w b) (get b (want_bridges r.node_name ovs [])))
  routes_settle h =
      let (vd, ud, bd, clean, e) = steps_of_clean routes firewall r rt ovs w w' h in
      let s1 = after_vrfs routes firewall r rt ovs w in
      let s2 = after_rules routes firewall r rt ovs w in
      let s3 = middle routes firewall r rt ovs s2 in
      let c3 = bridges_clean routes firewall view honest r rt ovs s3 bd clean in
      let c2 = middle_clean routes firewall r rt ovs s2 c3 in
      let c1 = rules_clean routes firewall view honest r rt ovs s1 ud c2 in
      (
        λ n.
            ap (λ v. view.vrfs v n) (sym e)
            ∙ ap (λ f. f n)
                (bridges_keep routes firewall view honest r rt ovs s3 view.vrfs
                    honest.bridge_calls-vrfs
                  ∙ middle_keeps routes firewall r rt view.vrfs honest.route_calls-vrfs ovs s2
                  ∙ rules_keep routes firewall view honest r rt ovs s1 view.vrfs
                      honest.rule_calls-vrfs)
            ∙ vrfs_settle routes firewall view honest r rt ovs (start routes firewall r rt ovs w) vd
                c1 n,
        λ t.
            ap (λ v. view.rules v t) (sym e)
            ∙ ap (λ f. f t)
                (bridges_keep routes firewall view honest r rt ovs s3 view.rules
                    honest.bridge_calls-rules
                  ∙ middle_keeps routes firewall r rt view.rules honest.route_calls-rules ovs s2)
            ∙ rules_settle routes firewall view honest r rt ovs s1 ud c2 t
            ∙ ap (λ o. settled (λ u. u) (o t) (get t (want_rules ovs [])))
                (vrfs_keep_rules routes firewall view honest r rt ovs
                  (start routes firewall r rt ovs w)),
        λ b.
            ap (λ v. view.bridges v b) (sym e)
            ∙ bridges_settle routes firewall view honest r rt ovs s3 bd clean b
            ∙ ap (λ o. settled (λ v. v) (o b) (get b (want_bridges r.node_name ovs [])))
                (middle_keeps routes firewall r rt view.bridges honest.route_calls-bridges ovs s2
                  ∙ rules_keep routes firewall view honest r rt ovs s1 view.bridges
                      honest.rule_calls-bridges
                  ∙ vrfs_keep_bridges routes firewall view honest r rt ovs
                      (start routes firewall r rt ovs w)),
      )
