-- ===== src/Agent/Bgp/Gateway/Succeeds.antt =====
-- A reconciliation of a gateway on a daemon that does what it is told.
use pontifex.Base.{String, List, [], ◌≡◌, refl, comparable_string}
use pontifex.GoMap.{get, Runtime}
use pontifex.Effects.Settles.{settled, pair_eq}
use pontifex.Effects.Succeeds.{
  then-Succeeds, query-Succeeds, reconciled-nil, dropped, installed, installed_last,
}
use pontifex.Api.{NetworkOverlay}
use pontifex.Agent.Bgp.{Neighbor, Policy, Server}
use pontifex.Agent.Bgp.Contract.{View, Honours, AllWork}
use pontifex.Agent.Bgp.Gateway.{
  GatewayReconciler, build_desired_neighbors, build_desired_policies, reconcile,
}
use pontifex.Agent.Bgp.Gateway.Convergence.{gateway_settles}

module _ {W : Type 0} (server : Server W) (works : AllWork server) (r : GatewayReconciler)
    (rt : Runtime) (overlays : List NetworkOverlay) (w : W) where
  reconcile_nil : (reconcile server r rt overlays w).0 ≡ []
  unfolding reconcile
  reconcile_nil =
      reconciled-nil _
        (then-Succeeds (query-Succeeds _ server.list_neighbors works.list_neighbors) λ ns.
          then-Succeeds (query-Succeeds _ server.list_policies works.list_policies) λ ps.
            dropped Neighbor.address ns _ _ _ (λ n. works.remove_neighbor n.address)
              (dropped Policy.name ps _ _ _ (λ p. works.remove_policy p.name)
                (installed Policy.name _ _ _ _ works.add_policy
                  (installed_last Neighbor.address _ _ _ _ works.add_neighbor))))
        w

  -- On a daemon that honours its contract and on which every call succeeds, a reconciliation of a
  -- gateway returns nil, and so every neighbor and policy has settled.
  pub gateway_converges :
      (view : View W)
      → Honours server view
      → ((reconcile server r rt overlays w).0 ≡ [])
        × ((k : String)
            → let w' = (reconcile server r rt overlays w).1 in
              (view.neighbors w' k
                ≡ settled
                    (λ n. n)
                    (view.neighbors w k)
                    (get k (build_desired_neighbors r overlays)))
              × (view.policies w' k
                  ≡ settled
                      (λ p. p)
                      (view.policies w k)
                      (get k (build_desired_policies r overlays))))
  gateway_converges view honest = (
    reconcile_nil,
    gateway_settles server view honest r rt overlays w _ (pair_eq reconcile_nil refl),
  )
