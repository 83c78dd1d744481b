-- ===== src/Agent/Bgp/Internal/Convergence.antt =====
-- What a reconciliation of an internal node makes of a daemon that honours its contract.
use pontifex.Base.{String, List, [], ◌≡◌, refl, sym, ap, ◌∙◌, comparable_string}
use pontifex.GoMap.{get, Runtime}
use pontifex.Effects.{ok}
use pontifex.Effects.Settles.{
  pair_eq, settled, settles, remove_orphans_clean, remove_orphans_keeps, install_missing_clean,
  install_missing_keeps,
}
use pontifex.Api.{NetworkOverlay}
use pontifex.Agent.Bgp.{Neighbor, Policy, Route, Server}
use pontifex.Agent.Bgp.Contract.{View, Honours, own_route}
use pontifex.Agent.Bgp.Internal.{
  InternalReconciler, build_desired_neighbors, build_desired_policies, build_desired_advertisements,
  reconcile,
}
use pontifex.Agent.Bgp.Internal.Desired.{
  build_desired_neighbors-IsIndexed, build_desired_policies-IsIndexed,
  build_desired_advertisements-IsIndexed,
}
use pontifex.Agent.Bgp.Internal.Stages.{
  neighbors_dropped, policies_dropped, routes_withdrawn, policies_added, neighbors_added,
  routes_advertised, reconcile-eq-stages, listings_of_clean,
}

module _ {W : Type 0} (server : Server W) (view : View W) (honest : Honours server view)
    (r : InternalReconciler) (rt : Runtime) (overlays : List NetworkOverlay) (ns : List Neighbor)
    (ps : List Policy) (rs : List Route) (w : W) (ns_listed : (server.list_neighbors w).0 ≡ ok ns)
    (ps_listed : (server.list_policies w).0 ≡ ok ps)
    (rs_listed : (server.list_advertised w).0 ≡ ok rs)
    (clean : (routes_advertised server r rt overlays ns ps rs w).errs ≡ []) where
  neighbors_added_clean : (neighbors_added server r rt overlays ns ps rs w).errs ≡ []
  neighbors_added_clean = install_missing_clean _ _ _ _ _ _ clean

  policies_added_clean : (policies_added server r rt overlays ns ps rs w).errs ≡ []
  policies_added_clean = install_missing_clean _ _ _ _ _ _ neighbors_added_clean

  routes_withdrawn_clean : (routes_withdrawn server r rt overlays ns ps rs w).errs ≡ []
  routes_withdrawn_clean = install_missing_clean _ _ _ _ _ _ policies_added_clean

  policies_dropped_clean : (policies_dropped server r rt overlays ns ps rs w).errs ≡ []
  policies_dropped_clean = remove_orphans_clean _ _ _ _ _ _ routes_withdrawn_clean

  neighbors_dropped_clean : (neighbors_dropped server r rt overlays ns ps rs w).errs ≡ []
  neighbors_dropped_clean = remove_orphans_clean _ _ _ _ _ _ policies_dropped_clean

  neighbors_settled :
      (a : String)
      → view.neighbors (routes_advertised server r rt overlays ns ps rs w).world a
        ≡ settled (λ n. n) (view.neighbors w a) (get a (build_desired_neighbors r overlays))
  neighbors_settled a =
      ap (λ v. v a)
        (install_missing_keeps _ _ _ _ _ (neighbors_added server r rt overlays ns ps rs w)
          view.neighbors (λ ad w. honest.advertise-neighbors ad.prefix ad.communities w))
      ∙ settles view.neighbors Neighbor.address Neighbor.address rt 1 ns
          (build_desired_neighbors r overlays) (build_desired_neighbors-IsIndexed r overlays)
          server.list_neighbors honest.lists_neighbors w ns_listed _ _ (λ n. n) _ _
          honest.removes_neighbor honest.adds_neighbor _ _ (λ k. refl)
          (λ k.
            ap (λ v. v k)
              (install_missing_keeps _ _ _ _ _ (routes_withdrawn server r rt overlays ns ps rs w)
                  view.neighbors honest.add_policy-neighbors
                ∙ remove_orphans_keeps _ _ _ _ _ (policies_dropped server r rt overlays ns ps rs w)
                    view.neighbors (λ rt. honest.withdraw-neighbors rt.prefix)
                ∙ remove_orphans_keeps _ _ _ _ _ (neighbors_dropped server r rt overlays ns ps rs w)
                    view.neighbors (λ p. honest.remove_policy-neighbors p.name)))
          neighbors_dropped_clean neighbors_added_clean a

  policies_settled :
      (a : String)
      → view.policies (routes_advertised server r rt overlays ns ps rs w).world a
        ≡ settled (λ p. p) (view.policies w a) (get a (build_desired_policies overlays))
  policies_settled a =
      ap (λ v. v a)
        (install_missing_keeps _ _ _ _ _ (neighbors_added server r rt overlays ns ps rs w)
            view.policies (λ ad w. honest.advertise-policies ad.prefix ad.communities w)
          ∙ install_missing_keeps _ _ _ _ _ (policies_added server r rt overlays ns ps rs w)
              view.policies honest.add_neighbor-policies)
      ∙ settles view.policies Policy.name Policy.name rt 0 ps (build_desired_policies overlays)
          (build_desired_policies-IsIndexed overlays) server.list_policies honest.lists_policies w
          ps_listed _ _ (λ p. p) _ _ honest.removes_policy honest.adds_policy _ _
          (λ k.
            ap (λ v. v k)
              (remove_orphans_keeps Neighbor.address ns _ _ _ (record { errs = []; world = w })
                view.policies (λ n. honest.remove_neighbor-policies n.address)))
          (λ k.
            ap (λ v. v k)
              (remove_orphans_keeps _ _ _ _ _ (policies_dropped server r rt overlays ns ps rs w)
                view.policies (λ rt. honest.withdraw-policies rt.prefix)))
          policies_dropped_clean policies_added_clean a

  advertised_settled :
      (a : String)
      → view.advertised (routes_advertised server r rt overlays ns ps rs w).world a
        ≡ settled own_route (view.advertised w a) (get a (build_desired_advertisements r overlays))
  advertised_settled a =
      settles view.advertised Route.prefix Route.prefix rt 2 rs
        (build_desired_advertisements r overlays)
        (build_desired_advertisements-IsIndexed r overlays) server.list_advertised
        honest.lists_advertised w rs_listed _ _ own_route _ _ honest.withdraws honest.advertises _ _
        (λ k.
          ap (λ v. v k)
            (remove_orphans_keeps _ _ _ _ _ (neighbors_dropped server r rt overlays ns ps rs w)
                view.advertised (λ p. honest.remove_policy-advertised p.name)
              ∙ remove_orphans_keeps Neighbor.address ns _ _ _ (record { errs = []; world = w })
                  view.advertised (λ n. honest.remove_neighbor-advertised n.address)))
        (λ k.
          ap (λ v. v k)
            (install_missing_keeps _ _ _ _ _ (policies_added server r rt overlays ns ps rs w)
                view.advertised honest.add_neighbor-advertised
              ∙ install_missing_keeps _ _ _ _ _ (routes_withdrawn server r rt overlays ns ps rs w)
                  view.advertised honest.add_policy-advertised))
        routes_withdrawn_clean clean a

module _ {W : Type 0} (server : Server W) (view : View W) (honest : Honours server view)
    (r : InternalReconciler) (rt : Runtime) (overlays : List NetworkOverlay) (w w' : W) where
  -- The listings of a clean reconciliation, all made on the host it began with, and its loops.
  abbrev Outcome : Type 0
  Outcome =
      (ns : List Neighbor) × (ps : List Policy) × (rs : List Route) × ((server.list_neighbors w).0
        ≡ ok ns)
      × ((server.list_policies w).0 ≡ ok ps)
      × ((server.list_advertised w).0 ≡ ok rs)
      × ((routes_advertised server r rt overlays ns ps rs w).errs ≡ [])
      × ((routes_advertised server r rt overlays ns ps rs w).world ≡ w')

  pub clean-Outcome : reconcile server r rt overlays w ≡ ([], w') → Outcome
  clean-Outcome h =
      let ((ns, a), (ps, b), (rs, c)) = listings_of_clean server r rt overlays w w' h in
      let u = honest.lists_neighbors.unchanged w in
      let u' = honest.lists_policies.unchanged w in
      let b' : (server.list_policies w).0 ≡ ok ps = rw u at b in
      let c' : (server.list_advertised w).0 ≡ ok rs = rw (u, u') at c in
      let run =
        sym (
          reconcile-eq-stages server r rt overlays ns ps rs w (pair_eq a u) (pair_eq b' u')
            (pair_eq c' (honest.lists_advertised.unchanged w)))
        ∙ h in
      (ns, ps, rs, a, b', c', ap (λ p. p.0) run, ap (λ p. p.1) run)

  -- When `Reconcile` returns nil, every neighbor address, policy name and prefix of the daemon has
  -- settled: what is not desired is gone, what was missing is as desired, and what was there under
  -- a desired key is as it was.
  pub reconcile_settles :
      reconcile server r rt overlays w ≡ ([], w')
      → (k : String)
      → (view.neighbors w' k
          ≡ settled (λ n. n) (view.neighbors w k) (get k (build_desired_neighbors r overlays)))
        × (view.policies w' k
            ≡ settled (λ p. p) (view.policies w k) (get k (build_desired_policies overlays)))
        × (view.advertised w' k
            ≡ settled own_route
                (view.advertised w k)
                (get k (build_desired_advertisements r overlays)))
  reconcile_settles h k =
      let (ns, ps, rs, a, b, c, clean, e) = clean-Outcome h in
      (
        ap (λ v. view.neighbors v k) (sym e)
            ∙ neighbors_settled server view honest r rt overlays ns ps rs w a b c clean k,
        ap (λ v. view.policies v k) (sym e)
            ∙ policies_settled server view honest r rt overlays ns ps rs w a b c clean k,
        ap (λ v. view.advertised v k) (sym e)
            ∙ advertised_settled server view honest r rt overlays ns ps rs w a b c clean k,
      )
