-- ===== src/Agent/Bgp/Internal/Failures.antt =====
-- What holds of a reconciliation of an internal node whatever fails in it.
use pontifex.Base.{
  String, true, List, [], ◌≡◌, refl, ap, ◌∙◌, arith, inl, inr, comparable_string, is_some,
}
use pontifex.GoMap.{has, Runtime}
use pontifex.GoMap.Ranges.{has-index_by}
use pontifex.Effects.Settles.{
  pair_eq, remove_orphans_kept, remove_orphans_keeps, install_missing_kept, install_missing_keeps,
}
use pontifex.Api.{NetworkOverlay}
use pontifex.Agent.Bgp.{Neighbor, Server}
use pontifex.Agent.Bgp.Contract.{View, Honours}
use pontifex.Agent.Bgp.Internal.{InternalReconciler, build_desired_neighbors, reconcile}
use pontifex.Agent.Bgp.Internal.Stages.{
  neighbors_dropped, policies_dropped, routes_withdrawn, policies_added, neighbors_added,
  reconcile-outcome,
}

module _ {W : Type 0} (server : Server W) (view : View W) (honest : Honours server view)
    (r : InternalReconciler) (rt : Runtime) (overlays : List NetworkOverlay) (w : W) where
  -- A session with a gateway that is still desired is never reset: whatever `Reconcile` returns, the
  -- neighbor at a desired address that the daemon had is the neighbor that it has.
  pub neighbor_untouched :
      (a : String)
      → is_some (view.neighbors w a) ≡ true
      → has a (build_desired_neighbors r overlays) ≡ true
      → view.neighbors (reconcile server r rt overlays w).1 a ≡ view.neighbors w a
  unfolding has
  neighbor_untouched a there wanted =
      elim (reconcile-outcome server r rt overlays w _ _ _
        (pair_eq refl (honest.lists_neighbors.unchanged w))
        (pair_eq refl (honest.lists_policies.unchanged w))
        (pair_eq refl (honest.lists_advertised.unchanged w))) [
          | inl same ↦ rw same
          | inr (ns, ps, rs, n, _, _, e) ↦
              ap (λ v. view.neighbors v a) e
              ∙ ap (λ v. v a)
                  (install_missing_keeps _ _ _ _ _ (neighbors_added server r rt overlays ns ps rs w)
                    view.neighbors (λ ad. honest.advertise-neighbors ad.prefix ad.communities))
              ∙ install_missing_kept view.neighbors Neighbor.address _ _ _ _ _
                  (policies_added server r rt overlays ns ps rs w) honest.adds_neighbor a
                  (ground (
                    arith,
                    has-index_by Neighbor.address a ns [],
                    honest.lists_neighbors.complete w ns a n,
                  ))
              ∙ ap (λ v. v a)
                  (install_missing_keeps _ _ _ _ _
                      (routes_withdrawn server r rt overlays ns ps rs w) view.neighbors
                      honest.add_policy-neighbors
                    ∙ remove_orphans_keeps _ _ _ _ _
                        (policies_dropped server r rt overlays ns ps rs w) view.neighbors
                        (λ rt. honest.withdraw-neighbors rt.prefix)
                    ∙ remove_orphans_keeps _ _ _ _ _
                        (neighbors_dropped server r rt overlays ns ps rs w) view.neighbors
                        (λ p. honest.remove_policy-neighbors p.name))
              ∙ remove_orphans_kept view.neighbors Neighbor.address ns _ _ _ _
                  honest.removes_neighbor a wanted
        ]
