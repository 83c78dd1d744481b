-- ===== src/Agent/Bgp/Gateway/Stages.antt =====
-- The four loops of a gateway's `Reconcile` one after the other, once its listings have succeeded.
use pontifex.Base.{◌<>◌, List, [], ◌≡◌, arith, comparable_string}
use pontifex.GoMap.{index_by, Runtime, values}
use pontifex.Effects.{ok, Run}
use pontifex.Effects.Settles.{remove_orphans, install_missing}
use pontifex.Api.{NetworkOverlay}
use pontifex.Agent.Bgp.{Neighbor, Policy, Server}
use pontifex.Agent.Bgp.Gateway.{
  GatewayReconciler, build_desired_neighbors, build_desired_policies, reconcile,
}

module _ {W : Type 0} (server : Server W) (r : GatewayReconciler) (rt : Runtime)
    (overlays : List NetworkOverlay) (ns : List Neighbor) (ps : List Policy) (w : W) where
  abbrev pub neighbors_dropped : Run W
  neighbors_dropped =
      remove_orphans Neighbor.address ns (build_desired_neighbors r overlays)
        (λ n. "remove neighbor " <> n.address) (λ n. server.remove_neighbor n.address)
        (record { errs = []; world = w })

  abbrev pub policies_dropped : Run W
  policies_dropped =
      remove_orphans Policy.name ps (build_desired_policies r overlays)
        (λ p. "remove policy " <> p.name) (λ p. server.remove_policy p.name) neighbors_dropped

  abbrev pub policies_added : Run W
  policies_added =
      install_missing Policy.name (index_by Policy.name ps [])
        (values rt 0 (build_desired_policies r overlays)) (λ p. "add policy " <> p.name)
        (λ p. server.add_policy p) policies_dropped

  abbrev pub neighbors_added : Run W
  neighbors_added =
      install_missing Neighbor.address (index_by Neighbor.address ns [])
        (values rt 1 (build_desired_neighbors r overlays)) (λ n. "add neighbor " <> n.address)
        (λ n. server.add_neighbor n) policies_added

  pub reconcile-eq-stages :
      server.list_neighbors w ≡ (ok ns, w)
      → server.list_policies w ≡ (ok ps, w)
      → reconcile server r rt overlays w ≡ (neighbors_added.errs, neighbors_added.world)
  unfolding reconcile
  reconcile-eq-stages a b = rw (a, b)

module _ {W : Type 0} (server : Server W) (r : GatewayReconciler) (rt : Runtime)
    (overlays : List NetworkOverlay) (w w' : W) where
  -- A reconciliation without an error has had its two listings.
  pub listings_of_clean :
      reconcile server r rt overlays w ≡ ([], w')
      → ((ns : List Neighbor) × ((server.list_neighbors w).0 ≡ ok ns))
        × ((ps : List Policy) × ((server.list_policies (server.list_neighbors w).1).0 ≡ ok ps))
  unfolding reconcile
  listings_of_clean h = ground arith
