-- ===== src/Agent/Bgp/Internal/Idempotence.antt =====
-- A second reconciliation of an internal node.
use pontifex.Base.{List, [], ◌≡◌, ap, ◌∙◌, comparable_string}
use pontifex.GoMap.{Runtime}
use pontifex.Effects.{ok}
use pontifex.Effects.Settles.{pair_eq, settled_removals, settled_additions}
use pontifex.Api.{NetworkOverlay}
use pontifex.Agent.Bgp.{Neighbor, Policy, Route, Server}
use pontifex.Agent.Bgp.Contract.{View, Honours, own_route}
use pontifex.Agent.Bgp.Internal.{
  InternalReconciler, build_desired_neighbors, build_desired_policies, build_desired_advertisements,
  reconcile,
}
use pontifex.Agent.Bgp.Internal.Desired.{
  build_desired_neighbors-IsIndexed, build_desired_policies-IsIndexed,
  build_desired_advertisements-IsIndexed,
}
use pontifex.Agent.Bgp.Internal.Stages.{reconcile-eq-stages}
use pontifex.Agent.Bgp.Internal.Convergence.{reconcile_settles}

-- When `Reconcile` has returned nil, running it again on the same snapshot, with whatever order of
-- its loops over maps, returns nil and leaves the host as it is, if its listings succeed.
pub reconcile_idempotent :
    {W : Type 0} (server : Server W) (view : View W)
    → Honours server view
    → (r : InternalReconciler) (rt rt' : Runtime) (overlays : List NetworkOverlay) (w w' : W)
      (ns : List Neighbor) (ps : List Policy) (rs : List Route)
    → reconcile server r rt overlays w ≡ ([], w')
    → (server.list_neighbors w').0 ≡ ok ns
    → (server.list_policies w').0 ≡ ok ps
    → (server.list_advertised w').0 ≡ ok rs
    → reconcile server r rt' overlays w' ≡ ([], w')
reconcile_idempotent server view honest r rt rt' overlays w w' ns ps rs h a b c =
    let done = reconcile_settles server view honest r rt overlays w w' h in
    reconcile-eq-stages server r rt' overlays ns ps rs w'
      (pair_eq a (honest.lists_neighbors.unchanged w'))
      (pair_eq b (honest.lists_policies.unchanged w'))
      (pair_eq c (honest.lists_advertised.unchanged w'))
    ∙ ap (λ s. (s.errs, s.world))
        (settled_additions view.advertised Route.prefix Route.prefix rt' 2 rs
            (build_desired_advertisements r overlays)
            (build_desired_advertisements-IsIndexed r overlays) server.list_advertised
            honest.lists_advertised w' c own_route (view.advertised w) (λ k. (done k).2) _ _ _
          ∙ settled_additions view.neighbors Neighbor.address Neighbor.address rt' 1 ns
              (build_desired_neighbors r overlays) (build_desired_neighbors-IsIndexed r overlays)
              server.list_neighbors honest.lists_neighbors w' a (λ n. n) (view.neighbors w)
              (λ k. (done k).0) _ _ _
          ∙ settled_additions view.policies Policy.name Policy.name rt' 0 ps
              (build_desired_policies overlays) (build_desired_policies-IsIndexed overlays)
              server.list_policies honest.lists_policies w' b (λ p. p) (view.policies w)
              (λ k. (done k).1) _ _ _
          ∙ settled_removals view.advertised Route.prefix Route.prefix rt' 2 rs
              (build_desired_advertisements r overlays)
              (build_desired_advertisements-IsIndexed r overlays) server.list_advertised
              honest.lists_advertised w' c own_route (view.advertised w) (λ k. (done k).2) _ _ _
          ∙ settled_removals view.policies Policy.name Policy.name rt' 0 ps
              (build_desired_policies overlays) (build_desired_policies-IsIndexed overlays)
              server.list_policies honest.lists_policies w' b (λ p. p) (view.policies w)
              (λ k. (done k).1) _ _ _
          ∙ settled_removals view.neighbors Neighbor.address Neighbor.address rt' 1 ns
              (build_desired_neighbors r overlays) (build_desired_neighbors-IsIndexed r overlays)
              server.list_neighbors honest.lists_neighbors w' a (λ n. n) (view.neighbors w)
              (λ k. (done k).0) _ _ _)
