-- ===== src/Agent/Bgp/Gateway/Convergence.antt =====
-- What a reconciliation of a gateway makes of a daemon that honours its contract.
use pontifex.Base.{String, List, [], ◌≡◌, refl, sym, ap, ◌∙◌, comparable_string}
use pontifex.GoMap.{get, Runtime}
use pontifex.Effects.{ok}
use pontifex.Effects.Settles.{
  settled, settles, settled_removals, settled_additions, remove_orphans_clean, remove_orphans_keeps,
  install_missing_clean, install_missing_keeps, pair_eq,
}
use pontifex.Api.{NetworkOverlay}
use pontifex.Agent.Bgp.{Neighbor, Policy, Server}
use pontifex.Agent.Bgp.Contract.{View, Honours}
use pontifex.Agent.Bgp.Gateway.{
  GatewayReconciler, build_desired_neighbors, build_desired_policies, reconcile,
}
use pontifex.Agent.Bgp.Gateway.Desired.{
  build_desired_neighbors-IsIndexed, build_desired_policies-IsIndexed,
}
use pontifex.Agent.Bgp.Gateway.Stages.{
  neighbors_dropped, policies_dropped, policies_added, neighbors_added, reconcile-eq-stages,
  listings_of_clean,
}

module _ {W : Type 0} (server : Server W) (view : View W) (honest : Honours server view)
    (r : GatewayReconciler) (rt : Runtime) (overlays : List NetworkOverlay) (ns : List Neighbor)
    (ps : List Policy) (w : W) (ns_listed : (server.list_neighbors w).0 ≡ ok ns)
    (ps_listed : (server.list_policies w).0 ≡ ok ps)
    (clean : (neighbors_added server r rt overlays ns ps w).errs ≡ []) where
  policies_added_clean : (policies_added server r rt overlays ns ps w).errs ≡ []
  policies_added_clean = install_missing_clean _ _ _ _ _ _ clean

  policies_dropped_clean : (policies_dropped server r rt overlays ns ps w).errs ≡ []
  policies_dropped_clean = install_missing_clean _ _ _ _ _ _ policies_added_clean

  neighbors_dropped_clean : (neighbors_dropped server r rt overlays ns ps w).errs ≡ []
  neighbors_dropped_clean = remove_orphans_clean _ _ _ _ _ _ policies_dropped_clean

  neighbors_settled :
      (a : String)
      → view.neighbors (neighbors_added server r rt overlays ns ps w).world a
        ≡ settled (λ n. n) (view.neighbors w a) (get a (build_desired_neighbors r overlays))
  neighbors_settled a =
      settles view.neighbors Neighbor.address Neighbor.address rt 1 ns
        (build_desired_neighbors r overlays) (build_desired_neighbors-IsIndexed r overlays)
        server.list_neighbors honest.lists_neighbors w ns_listed _ _ (λ n. n) _ _
        honest.removes_neighbor honest.adds_neighbor _ _ (λ k. refl)
        (λ k.
          ap (λ v. v k)
            (install_missing_keeps _ _ _ _ _ (policies_dropped server r rt overlays ns ps w)
                view.neighbors honest.add_policy-neighbors
              ∙ remove_orphans_keeps _ _ _ _ _ (neighbors_dropped server r rt overlays ns ps w)
                  view.neighbors (λ p. honest.remove_policy-neighbors p.name)))
        neighbors_dropped_clean clean a

  policies_settled :
      (a : String)
      → view.policies (neighbors_added server r rt overlays ns ps w).world a
        ≡ settled (λ p. p) (view.policies w a) (get a (build_desired_policies r overlays))
  policies_settled a =
      ap (λ v. v a)
        (install_missing_keeps _ _ _ _ _ (policies_added server r rt overlays ns ps w) view.policies
          honest.add_neighbor-policies)
      ∙ settles view.policies Policy.name Policy.name rt 0 ps (build_desired_policies r overlays)
          (build_desired_policies-IsIndexed r overlays) server.list_policies honest.lists_policies w
          ps_listed _ _ (λ p. p) _ _ honest.removes_policy honest.adds_policy _ _
          (λ k.
            ap (λ v. v k)
              (remove_orphans_keeps Neighbor.address ns _ _ _ (record { errs = []; world = w })
                view.policies (λ n. honest.remove_neighbor-policies n.address)))
          (λ k. refl) policies_dropped_clean policies_added_clean a

-- When a gateway's `Reconcile` returns nil, every neighbor address and every policy name of the
-- daemon has settled: what is not desired is gone, what was missing is as desired, and what was
-- there under a desired key is as it was.
pub gateway_settles :
    {W : Type 0} (server : Server W) (view : View W)
    → Honours server view
    → (r : GatewayReconciler) (rt : Runtime) (overlays : List NetworkOverlay) (w w' : W)
    → reconcile server r rt overlays w ≡ ([], w')
    → (k : String)
    → (view.neighbors w' k
        ≡ settled (λ n. n) (view.neighbors w k) (get k (build_desired_neighbors r overlays)))
      × (view.policies w' k
          ≡ settled (λ p. p) (view.policies w k) (get k (build_desired_policies r overlays)))
gateway_settles server view honest r rt overlays w w' h k =
    let ((ns, a), (ps, b)) = listings_of_clean server r rt overlays w w' h in
    let u = honest.lists_neighbors.unchanged w in
    let b' : (server.list_policies w).0 ≡ ok ps = rw u at b in
    let run =
      sym (
        reconcile-eq-stages server r rt overlays ns ps w (pair_eq a u)
          (pair_eq b' (honest.lists_policies.unchanged w)))
      ∙ h in
    let clean = ap (λ p. p.0) run in
    let e = sym (ap (λ p. p.1) run) in
    (
      ap (λ v. view.neighbors v k) e
          ∙ neighbors_settled server view honest r rt overlays ns ps w a b' clean k,
      ap (λ v. view.policies v k) e
          ∙ policies_settled server view honest r rt overlays ns ps w a b' clean k,
    )

-- When a gateway's `Reconcile` has returned nil, running it again on the same snapshot, with
-- whatever order of its loops over maps, returns nil and leaves the host as it is, if its two
-- listings succeed.
pub gateway_idempotent :
    {W : Type 0} (server : Server W) (view : View W)
    → Honours server view
    → (r : GatewayReconciler) (rt rt' : Runtime) (overlays : List NetworkOverlay) (w w' : W)
      (ns : List Neighbor) (ps : List Policy)
    → reconcile server r rt overlays w ≡ ([], w')
    → (server.list_neighbors w').0 ≡ ok ns
    → (server.list_policies w').0 ≡ ok ps
    → reconcile server r rt' overlays w' ≡ ([], w')
gateway_idempotent server view honest r rt rt' overlays w w' ns ps h a b =
    let done = gateway_settles server view honest r rt overlays w w' h in
    reconcile-eq-stages server r rt' overlays ns ps w'
      (pair_eq a (honest.lists_neighbors.unchanged w'))
      (pair_eq b (honest.lists_policies.unchanged w'))
    ∙ ap (λ s. (s.errs, s.world))
        (settled_additions view.neighbors Neighbor.address Neighbor.address rt' 1 ns
            (build_desired_neighbors r overlays) (build_desired_neighbors-IsIndexed r overlays)
            server.list_neighbors honest.lists_neighbors w' a (λ n. n) (view.neighbors w)
            (λ k. (done k).0) _ _ _
          ∙ settled_additions view.policies Policy.name Policy.name rt' 0 ps
              (build_desired_policies r overlays) (build_desired_policies-IsIndexed r overlays)
              server.list_policies honest.lists_policies w' b (λ p. p) (view.policies w)
              (λ k. (done k).1) _ _ _
          ∙ settled_removals view.policies Policy.name Policy.name rt' 0 ps
              (build_desired_policies r overlays) (build_desired_policies-IsIndexed r overlays)
              server.list_policies honest.lists_policies w' b (λ p. p) (view.policies w)
              (λ k. (done k).1) _ _ _
          ∙ settled_removals view.neighbors Neighbor.address Neighbor.address rt' 1 ns
              (build_desired_neighbors r overlays) (build_desired_neighbors-IsIndexed r overlays)
              server.list_neighbors honest.lists_neighbors w' a (λ n. n) (view.neighbors w)
              (λ k. (done k).0) _ _ _)
