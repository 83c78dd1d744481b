-- ===== src/Agent/Manager/Wiring.antt =====
-- What the two managers' `Run` puts together: apps/agent/internal/controllers/gateway/manager.go and
-- internalnode/manager.go.
use pontifex.Base.{
  ℕ, zero, suc, String, true, false, List, [], ◌∷◌, Option, none, some, ◌==◌, comparable_string,
  if◌then◌else◌,
}
use pontifex.GoChan.{Chan, make_chan}
use pontifex.GoMap.{Runtime}
use pontifex.Effects.{Error}
use pontifex.Api.{NetworkOverlay}
use pontifex.Config.{GatewayConfig, InternalNodeConfig}
use pontifex.Agent.Bgp as Bgp
use pontifex.Agent.Bgp.Internal as BgpInternal
use pontifex.Agent.Bgp.Gateway as BgpGateway
use pontifex.Agent.Cluster.{new_observer, new_mediator, subscribe}
use pontifex.Agent.Firewall.{Firewall}
use pontifex.Agent.Routes.{Routes}
use pontifex.Agent.Routes.Gateway as RoutesGateway
use pontifex.Agent.Routes.Internal as RoutesInternal
use pontifex.Agent.Routes.Learned.{apply_event}
use pontifex.Agent.RoutesUpdater.{RoutesReconciler, started}
use pontifex.Agent.RoutesUpdater.Learns.{internal_routes}
use pontifex.Agent.Manager.{Reconciler, System}

-- The channel of a subscriber; a place that nobody has is a nil channel, on which all block.
abbrev pub channel : ℕ → List (Chan (List NetworkOverlay)) → Chan (List NetworkOverlay)
channel n [] = make_chan 0
channel zero (c ∷ cs) = c
channel (suc n) (c ∷ cs) = channel n cs

-- The goroutines with their channels, before the first move: the updater subscribes to the server
-- and to the mediator, then the BGP loop subscribes to the mediator.
unfoldable pub wired :
    {R W D : Type 0} → Bgp.Server D → RoutesReconciler R W → R → W → D → System R W D
unfolding subscribe
wired server rr r w d =
    let med = new_mediator new_observer in
    let (for_updater, med') = subscribe med in
    let (for_bgp, med'') = subscribe med' in
    record {
      cancelled = false;
      bgp_snapshots = channel for_bgp med''.subscribers;
      updater_snapshots = channel for_updater med''.subscribers;
      bgp_events = server.subscribe d;
      mediator_runs = true;
      bgp_loop_runs = true;
      updater_runs = true;
      manager_runs = true;
      daemon = d;
      bgp_logged = [];
      updater = started rr r w;
    }

-- `NewGatewayReconciler` and `NewInternalReconciler` of reconcilers/bgp.
abbrev pub gateway_bgp : {D : Type 0} → Bgp.Server D → GatewayConfig → Runtime → Reconciler D
gateway_bgp server cfg rt = record {
  reconcile =
      BgpGateway.reconcile server
        (record { asn = cfg.asn; router_id = cfg.router_id; is_secondary = cfg.is_secondary }) rt;
}

abbrev pub internal_bgp : {D : Type 0} → Bgp.Server D → InternalNodeConfig → Runtime → Reconciler D
internal_bgp server cfg rt = record {
  reconcile =
      BgpInternal.reconcile server
        (record { asn = cfg.asn; router_id = cfg.router_id; node_name = cfg.node_name }) rt;
}

abbrev pub error_list : Option Error → List Error
error_list none = []
error_list (some x) = x ∷ []

-- The routes reconciler of a gateway, as the updater drives it.
abbrev pub gateway_routes :
    {W : Type 0} → Routes W → Runtime → RoutesReconciler RoutesGateway.GatewayReconciler W
gateway_routes routes rt = record {
  apply_event = λ ev r. record r { learned = apply_event ev r.learned };
  reconcile = λ r overlays w.
      let (e, w') = RoutesGateway.reconcile routes r rt overlays w in (error_list e, w');
}

-- `switch m.cfg.Firewall`, of what `NewNFTables` and `NewIPTables` give.
unfoldable pub choose_firewall : {W : Type 0} → Firewall W → Firewall W → String → Firewall W
choose_firewall nftables iptables name = if name == "nftables" then nftables else iptables

-- The routes reconciler of an internal node, as the updater drives it.
abbrev pub node_routes :
    {W : Type 0}
    → Routes W
    → Firewall W
    → Firewall W
    → InternalNodeConfig
    → Runtime
    → RoutesReconciler RoutesInternal.InternalReconciler W
node_routes routes nftables iptables cfg rt =
    internal_routes routes (choose_firewall nftables iptables cfg.firewall) rt

-- `Run` of the two managers, up to its `<-ctx.Done()`.
abbrev pub gateway_system :
    {W D : Type 0}
    → Bgp.Server D
    → Routes W
    → Runtime
    → W
    → D
    → System RoutesGateway.GatewayReconciler W D
gateway_system server routes rt w d =
    wired server (gateway_routes routes rt) (record { learned = [] }) w d

abbrev pub internal_system :
    {W D : Type 0}
    → Bgp.Server D
    → RoutesReconciler RoutesInternal.InternalReconciler W
    → InternalNodeConfig
    → W
    → D
    → System RoutesInternal.InternalReconciler W D
internal_system server rr cfg w d =
    wired server rr (record { node_name = cfg.node_name; learned = [] }) w d
