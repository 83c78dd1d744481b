-- ===== src/Agent/Bgp/Internal/Succeeds.antt =====
-- A reconciliation of an internal node on a daemon that does what it is told.
use pontifex.Base.{String, List, [], ◌≡◌, refl, comparable_string}
use pontifex.GoMap.{get, Runtime}
use pontifex.Effects.Settles.{settled, pair_eq}
use pontifex.Effects.Succeeds.{
  then-Succeeds, query-Succeeds, reconciled-nil, dropped, installed, installed_last,
}
use pontifex.Api.{NetworkOverlay}
use pontifex.Agent.Bgp.{Neighbor, Policy, Route, Server}
use pontifex.Agent.Bgp.Contract.{View, Honours, own_route, AllWork}
use pontifex.Agent.Bgp.Internal.{
  InternalReconciler, build_desired_neighbors, build_desired_policies, build_desired_advertisements,
  reconcile,
}
use pontifex.Agent.Bgp.Internal.Convergence.{reconcile_settles}

module _ {W : Type 0} (server : Server W) (works : AllWork server) (r : InternalReconciler)
    (rt : Runtime) (overlays : List NetworkOverlay) where
  pub reconcile_nil : (w : W) → (reconcile server r rt overlays w).0 ≡ []
  unfolding reconcile
  reconcile_nil w =
      reconciled-nil _
        (then-Succeeds (query-Succeeds _ server.list_neighbors works.list_neighbors) λ ns.
          then-Succeeds (query-Succeeds _ server.list_policies works.list_policies) λ ps.
            then-Succeeds (query-Succeeds _ server.list_advertised works.list_advertised) λ rs.
              dropped Neighbor.address ns _ _ _ (λ n. works.remove_neighbor n.address)
                (dropped Policy.name ps _ _ _ (λ p. works.remove_policy p.name)
                  (dropped Route.prefix rs _ _ _ (λ ad. works.withdraw ad.prefix)
                    (installed Policy.name _ _ _ _ works.add_policy (
                      installed Neighbor.address _ _ _ _ works.add_neighbor (
                        installed_last Route.prefix _ _ _ _
                          (λ ad. works.advertise ad.prefix ad.communities)))))))
        w

module _ {W : Type 0} (server : Server W) (view : View W) (honest : Honours server view)
    (works : AllWork server) (r : InternalReconciler) (rt : Runtime)
    (overlays : List NetworkOverlay) (w : W) where
  -- On a daemon that honours its contract and on which every call succeeds, a reconciliation of an
  -- internal node returns nil, and so every neighbor, policy and advertised prefix has settled.
  pub reconcile_converges :
      (reconcile server r rt overlays w).0 ≡ []
      × ((k : String)
          → let w' = (reconcile server r rt overlays w).1 in
            (view.neighbors w' k
              ≡ settled (λ n. n) (view.neighbors w k) (get k (build_desired_neighbors r overlays)))
            × (view.policies w' k
                ≡ settled (λ p. p) (view.policies w k) (get k (build_desired_policies overlays)))
            × (view.advertised w' k
                ≡ settled own_route
                    (view.advertised w k)
                    (get k (build_desired_advertisements r overlays))))
  reconcile_converges =
      let nil = reconcile_nil server works r rt overlays w in
      (nil, reconcile_settles server view honest r rt overlays w _ (pair_eq nil refl))
