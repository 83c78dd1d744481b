-- ===== src/Agent/Bgp/Internal/Stages.antt =====
-- The six loops of `Reconcile` one after the other, once its three listings have succeeded.
use pontifex.Base.{◌<>◌, List, [], ◌≡◌, ◌⊎◌, inl, inr, refl, arith, comparable_string}
use pontifex.GoMap.{index_by, Runtime, values}
use pontifex.Effects.{Result, ok, err, Run}
use pontifex.Effects.Settles.{remove_orphans, install_missing}
use pontifex.Api.{NetworkOverlay}
use pontifex.Agent.Bgp.{Neighbor, Policy, Route, Server}
use pontifex.Agent.Bgp.Internal.{
  InternalReconciler, build_desired_neighbors, build_desired_policies, build_desired_advertisements,
  reconcile,
}

module _ {W : Type 0} (server : Server W) (r : InternalReconciler) (rt : Runtime)
    (overlays : List NetworkOverlay) (ns : List Neighbor) (ps : List Policy) (rs : List Route)
    (w : W) where
  abbrev pub neighbors_dropped : Run W
  neighbors_dropped =
      remove_orphans Neighbor.address ns (build_desired_neighbors r overlays)
        (λ n. "remove neighbor " <> n.address) (λ n. server.remove_neighbor n.address)
        (record { errs = []; world = w })

  abbrev pub policies_dropped : Run W
  policies_dropped =
      remove_orphans Policy.name ps (build_desired_policies overlays)
        (λ p. "remove policy " <> p.name) (λ p. server.remove_policy p.name) neighbors_dropped

  abbrev pub routes_withdrawn : Run W
  routes_withdrawn =
      remove_orphans Route.prefix rs (build_desired_advertisements r overlays)
        (λ rt. "withdraw " <> rt.prefix) (λ rt. server.withdraw rt.prefix) policies_dropped

  abbrev pub policies_added : Run W
  policies_added =
      install_missing Policy.name (index_by Policy.name ps [])
        (values rt 0 (build_desired_policies overlays)) (λ p. "add policy " <> p.name)
        (λ p. server.add_policy p) routes_withdrawn

  abbrev pub neighbors_added : Run W
  neighbors_added =
      install_missing Neighbor.address (index_by Neighbor.address ns [])
        (values rt 1 (build_desired_neighbors r overlays)) (λ n. "add neighbor " <> n.address)
        (λ n. server.add_neighbor n) policies_added

  abbrev pub routes_advertised : Run W
  routes_advertised =
      install_missing Route.prefix (index_by Route.prefix rs [])
        (values rt 2 (build_desired_advertisements r overlays)) (λ ad. "advertise " <> ad.prefix)
        (λ ad. server.advertise ad.prefix ad.communities) neighbors_added

  pub reconcile-eq-stages :
      server.list_neighbors w ≡ (ok ns, w)
      → server.list_policies w ≡ (ok ps, w)
      → server.list_advertised w ≡ (ok rs, w)
      → reconcile server r rt overlays w ≡ (routes_advertised.errs, routes_advertised.world)
  unfolding reconcile
  reconcile-eq-stages a b c = rw (a, b, c)

module _ {W : Type 0} (server : Server W) (r : InternalReconciler) (rt : Runtime)
    (overlays : List NetworkOverlay) (w w' : W) where
  -- A reconciliation without an error has had its three listings.
  pub listings_of_clean :
      reconcile server r rt overlays w ≡ ([], w')
      → ((ns : List Neighbor) × ((server.list_neighbors w).0 ≡ ok ns))
        × ((ps : List Policy) × ((server.list_policies (server.list_neighbors w).1).0 ≡ ok ps))
        × ((rs : List Route) × ((server.list_advertised
                (server.list_policies (server.list_neighbors w).1).1).0
              ≡ ok rs))
  unfolding reconcile
  listings_of_clean h = ground arith

module _ {W : Type 0} (server : Server W) (r : InternalReconciler) (rt : Runtime)
    (overlays : List NetworkOverlay) (w : W) where
  -- Either a listing failed and nothing was called after it, or the loops have run.
  pub reconcile-outcome :
      (qs : Result (List Neighbor)) (bs : Result (List Policy)) (cs : Result (List Route))
      → server.list_neighbors w ≡ (qs, w)
      → server.list_policies w ≡ (bs, w)
      → server.list_advertised w ≡ (cs, w)
      → ((reconcile server r rt overlays w).1 ≡ w)
        ⊎ ((ns : List Neighbor) × (ps : List Policy) × (rs : List Route) × (qs ≡ ok ns)
            × (bs ≡ ok ps)
            × (cs ≡ ok rs)
            × ((reconcile server r rt overlays w).1
                ≡ (routes_advertised server r rt overlays ns ps rs w).world))
  unfolding reconcile
  reconcile-outcome (err x) bs cs a b c = inl (rw a)
  reconcile-outcome (ok ns) (err x) cs a b c = inl (rw (a, b))
  reconcile-outcome (ok ns) (ok ps) (err x) a b c = inl (rw (a, b, c))
  reconcile-outcome (ok ns) (ok ps) (ok rs) a b c = inr (ns, ps, rs, refl, refl, refl, rw (a, b, c))
