-- ===== src/Agent/Routes/Gateway/Content.antt =====
-- Which learned routes a gateway puts into the global table.
use pontifex.Base.{
  String, Bool, not, ◌&&◌, ◌||◌, List, [], ◌∷◌, ◌≡◌, refl, ap, ◌∙◌, any, arith, ◌==◌,
  comparable_string, if◌then◌else◌,
}
use pontifex.GoMap.{GoSet, has, Runtime, values}
use pontifex.GoMap.Laws.{has-put}
use pontifex.Api.{NetworkOverlay}
use pontifex.Agent.Bgp as Bgp
use pontifex.Agent.Routes.{Route, Routes}
use pontifex.Agent.Routes.Gateway.{
  GatewayReconciler, active_communities, route_matches_communities, global_route,
  build_desired_routes, reconcile, wrapped,
}

-- `c` is the community of an overlay.
abbrev pub is_active : List NetworkOverlay → String → Bool
is_active overlays c = not (c == "") && any (λ ov. ov.status.community == c) overlays

-- The routes with a community of some overlay, in order.
abbrev pub active_routes : List NetworkOverlay → List Bgp.Route → List Route
active_routes overlays [] = []
active_routes overlays (rt ∷ rts) =
    let rest = active_routes overlays rts in
    if any (is_active overlays) rt.communities then global_route rt ∷ rest else rest

has-active_communities :
    (c : String) (ovs : List NetworkOverlay) (m : GoSet String)
    → has c (active_communities ovs m) ≡ (has c m || is_active ovs c)
unfolding active_communities
has-active_communities c [] m = ground arith
has-active_communities c (ov ∷ ovs) m =
    has-active_communities c ovs _
    ∙ ground (
      arith,
      has-put ov.status.community c tt m,
      comparable_string.equal_iff ov.status.community c,
      comparable_string.equal_iff ov.status.community "",
      comparable_string.equal_iff c "",
    )

route_matches_communities_lem :
    (ovs : List NetworkOverlay) (cs : List String)
    → route_matches_communities cs (active_communities ovs []) ≡ any (is_active ovs) cs
unfolding route_matches_communities has
route_matches_communities_lem ovs [] = refl
route_matches_communities_lem ovs (c ∷ cs) =
    ground (arith, has-active_communities c ovs [], route_matches_communities_lem ovs cs)

build_desired_routes_lem :
    (ovs : List NetworkOverlay) (rts : List Bgp.Route)
    → build_desired_routes (active_communities ovs []) rts ≡ active_routes ovs rts
unfolding build_desired_routes
build_desired_routes_lem ovs [] = refl
build_desired_routes_lem ovs (rt ∷ rts) =
    rw (route_matches_communities_lem ovs rt.communities, build_desired_routes)
      (ap (λ rest. if any (is_active ovs) rt.communities then global_route rt ∷ rest else rest)
        (build_desired_routes_lem ovs rts))

-- A gateway's routes reconciliation is one `SyncRoutes` of the global table with exactly the
-- learned routes that carry the community of an overlay, with its error wrapped.
pub gateway_syncs :
    {W : Type 0} (routes : Routes W) (r : GatewayReconciler) (rt : Runtime)
    (overlays : List NetworkOverlay) (w : W)
    → reconcile routes r rt overlays w ≡ (
      wrapped "sync global routes"
          (routes.sync_routes 0 (active_routes overlays (values rt 0 r.learned)) w).0,
      (routes.sync_routes 0 (active_routes overlays (values rt 0 r.learned)) w).1,
    )
unfolding reconcile
gateway_syncs routes r rt overlays w =
    ap
      (λ rs.
        (wrapped "sync global routes" (routes.sync_routes 0 rs w).0, (routes.sync_routes 0 rs w).1))
      (build_desired_routes_lem overlays (values rt 0 r.learned))
