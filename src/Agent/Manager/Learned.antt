-- ===== src/Agent/Manager/Learned.antt =====
-- What an internal node's agent has learned of the routes that its BGP daemon has announced.
use pontifex.Base.{String, true, List, [], ◌++◌, none, ◌≡◌, refl, ap, sym, ◌∙◌, comparable_string}
use mathlib.Core.List.{append-nil}
use pontifex.GoMap.{get, Runtime}
use pontifex.Config.{InternalNodeConfig}
use pontifex.Agent.Bgp.{Server}
use pontifex.Agent.Firewall.{Firewall}
use pontifex.Agent.Routes.{Routes}
use pontifex.Agent.Routes.Internal.{InternalReconciler}
use pontifex.Agent.Routes.Learned.{last_announced}
use pontifex.Agent.RoutesUpdater.Latest.{events_of}
use pontifex.Agent.RoutesUpdater.Learns.{run_learns}
use pontifex.Agent.Manager.{System, Move, Runs}
use pontifex.Agent.Manager.Interleaved.{gathered, updater_gets, loops_apart}
use pontifex.Agent.Manager.Delivered.{sent_events, got_events, nothing_lost}
use pontifex.Agent.Manager.Handled.{events_of-gathered, Runs-handled}
use pontifex.Agent.Manager.Wiring.{
  wired, choose_firewall, internal_system, internal_bgp, node_routes,
}

module _ {W D : Type 0} (server : Server D) (routes : Routes W) (nftables iptables : Firewall W)
    (cfg : InternalNodeConfig) (rt : Runtime) (w : W) (d : D) where
  -- However an internal node's agent is scheduled: when its updater still runs and has received all
  -- route events, it has learned for each prefix what the last event on it says, of those that were
  -- in the channel when the server handed it out and those sent since.
  pub agent_learns :
      {ms : List Move} {t : System InternalReconciler W D} (p : String)
      → Runs
          (internal_bgp server cfg rt)
          (node_routes routes nftables iptables cfg rt)
          (internal_system server (node_routes routes nftables iptables cfg rt) cfg w d)
          ms
          t
      → t.updater_runs ≡ true
      → t.bgp_events.buffer ≡ []
      → get p t.updater.reconciler.learned
        ≡ last_announced p ((server.subscribe d).buffer ++ gathered sent_events ms) none
  unfolding wired get
  agent_learns {ms} {t} p r runs empty =
      let rr = node_routes routes nftables iptables cfg rt in
      let s = internal_system server rr cfg w d in
      ap (λ u. get p u.reconciler.learned) (loops_apart _ rr refl r).1
      ∙ run_learns routes (choose_firewall nftables iptables cfg.firewall) rt
          (gathered updater_gets ms) s.updater p
      ∙ ap (λ evs. last_announced p evs none)
          (ap events_of (Runs-handled _ rr r runs).1
            ∙ events_of-gathered ms
            ∙ sym (append-nil (gathered got_events ms))
            ∙ ap (λ b. gathered got_events ms ++ b) (sym empty)
            ∙ sym (nothing_lost _ rr r).2)
