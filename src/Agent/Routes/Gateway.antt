-- ===== src/Agent/Routes/Gateway.antt =====
-- apps/agent/internal/reconcilers/routes/gateway.go: the routes reconciler of a gateway. Its only
-- loop over a map is the one over the learned routes.
pub mod Content
use pontifex.Base.{
  String, Bool, true, false, List, [], ◌∷◌, Option, none, some, ◌==◌, comparable_string,
  if◌then◌else◌,
}
use pontifex.GoMap.{GoMap, GoSet, has, insert, Runtime, values}
use pontifex.Effects.{Error, wrap, Call}
use pontifex.Api.{NetworkOverlay}
use pontifex.Agent.Bgp as Bgp
use pontifex.Agent.Routes.{Route, Routes}

pub record GatewayReconciler : Type 0 where
  pub learned : GoMap String Bgp.Route

-- `activeCommunities`
unfoldable pub active_communities : List NetworkOverlay → GoSet String → GoSet String
active_communities [] m = m
active_communities (ov ∷ ovs) m =
    active_communities ovs (if ov.status.community == "" then m else insert ov.status.community m)

-- The loop of `routeMatchesCommunities` over a route's communities.
unfoldable pub route_matches_communities : List String → GoSet String → Bool
route_matches_communities [] active = false
route_matches_communities (c ∷ cs) active =
    let rest = route_matches_communities cs active in if has c active then true else rest

abbrev pub global_route : Bgp.Route → Route
global_route rt = record { table_id = 0; dst = rt.prefix; gw = rt.next_hop; dev = "" }

-- `buildDesiredRoutes`, over the learned routes in the order of the loop.
unfoldable pub build_desired_routes : GoSet String → List Bgp.Route → List Route
build_desired_routes active [] = []
build_desired_routes active (rt ∷ rts) =
    let rest = build_desired_routes active rts in
    if route_matches_communities rt.communities active then global_route rt ∷ rest else rest

abbrev pub wrapped : String → Option Error → Option Error
wrapped text none = none
wrapped text (some x) = some (wrap text x)

-- `Reconcile`
unfoldable pub reconcile :
    {W : Type 0} → Routes W → GatewayReconciler → Runtime → List NetworkOverlay → Call W
unfolding build_desired_routes active_communities
reconcile routes r rt overlays w =
    let desired = build_desired_routes (active_communities overlays []) (values rt 0 r.learned) in
    let (e, w') = routes.sync_routes 0 desired w in (wrapped "sync global routes" e, w')
