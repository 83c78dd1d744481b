-- ===== src/Examples/Managers.antt =====
-- The agent of an internal node, through a snapshot for each loop and a learned route.
use pontifex.Base.{true, List, [], ◌∷◌, ◌++◌, some, ◌≡◌, refl, comparable_string}
use pontifex.GoChan.{ready, taken, has_room, sent}
use pontifex.GoMap.{get}
use pontifex.Config.{InternalNodeConfig}
use pontifex.Agent.Bgp as Bgp
use pontifex.Agent.Bgp.{RouteEvent, route_added}
use pontifex.Agent.Cluster.{subscribe}
use pontifex.Agent.Routes.Internal.{InternalReconciler}
use pontifex.Agent.RoutesUpdater.{RoutesReconciler, Input, snapshot, bgp_event, run}
use pontifex.Agent.Manager.{
  Reconciler, System, Move, send_bgp, send_updater, send_event, bgp_turn, updater_turn, bgp_round,
  received, updater_round, sends_bgp, sends_updater, sends_event, takes_bgp, takes_updater, Runs,
  stay, next, offers_snapshot, offers_event,
}
use pontifex.Agent.Manager.Interleaved.{reconcile_all, loops_apart}
use pontifex.Agent.Manager.Handled.{all_handled}
use pontifex.Agent.RoutesUpdater.Latest.{handled, events_of, snapshots_of}
use pontifex.Api.{NetworkOverlay}
use pontifex.Agent.Manager.Learned.{agent_learns}
use pontifex.Agent.Manager.Progress.{Within, drains}
use pontifex.Agent.Manager.Wiring.{wired, internal_system, internal_bgp, node_routes}
use pontifex.Examples.Daemon.{Daemon, memory}
use pontifex.Examples.Host.{Host, empty_host, tables, bridges}
use pontifex.Examples.Memory.{first_written}
use pontifex.Examples.Snapshot as Snapshot

abbrev pub cfg : InternalNodeConfig
cfg = record {
  node_name = "n1";
  firewall = "auto";
  log_level = "info";
  asn = 65000;
  router_id = "10.0.0.2";
}

abbrev bgp : Reconciler Daemon
bgp = internal_bgp memory cfg first_written

abbrev routes : RoutesReconciler InternalReconciler Host
routes = node_routes tables bridges bridges cfg first_written

abbrev route : Bgp.Route
route = record { prefix = "10.1.0.9/32"; next_hop = "10.0.0.1"; communities = "65000:1" ∷ [] }

abbrev added : RouteEvent
added = record { type = route_added; route = route }

abbrev pub idle : Daemon
idle = record { neighbors = []; policies = []; advertised = [] }

abbrev Agent : Type 0
Agent = System InternalReconciler Host Daemon

abbrev begin : Agent
begin = internal_system memory routes cfg empty_host idle

abbrev offered : Agent
offered = record begin { bgp_snapshots = sent Snapshot.snapshot begin.bgp_snapshots }

abbrev told : Agent
told = record offered { updater_snapshots = sent Snapshot.snapshot offered.updater_snapshots }

abbrev announced : Agent
announced = record told { bgp_events = sent added told.bgp_events }

abbrev learning : Agent
learning =
    updater_round bgp routes (bgp_event added) (received bgp routes (bgp_event added) announced)

abbrev peering : Agent
peering =
    bgp_round bgp routes Snapshot.snapshot
      (record learning { bgp_snapshots = taken learning.bgp_snapshots })

abbrev settled : Agent
settled =
    updater_round bgp routes (snapshot Snapshot.snapshot)
      (received bgp routes (snapshot Snapshot.snapshot) peering)

abbrev moves : List Move
moves =
    send_bgp Snapshot.snapshot
    ∷ send_updater Snapshot.snapshot
    ∷ send_event added
    ∷ updater_turn (bgp_event added)
    ∷ bgp_turn Snapshot.snapshot
    ∷ updater_turn (snapshot Snapshot.snapshot)
    ∷ []

one_day : Runs bgp routes begin moves settled
unfolding wired subscribe ready taken has_room bgp_round received updater_round
one_day = next (sends_bgp refl) (
    next (sends_updater refl) (
      next (sends_event refl) (
        next (takes_updater refl (offers_event refl))
          (next (takes_bgp refl refl) (next (takes_updater refl (offers_snapshot refl)) stay)))))

loops_apart_example :
    (settled.daemon ≡ reconcile_all bgp routes (Snapshot.snapshot ∷ []) idle)
    × (settled.updater
        ≡ run routes (bgp_event added ∷ snapshot Snapshot.snapshot ∷ []) begin.updater)
unfolding wired
loops_apart_example = loops_apart bgp routes refl one_day

all_handled_example :
    ((rounds : List (List NetworkOverlay)) × (Snapshot.snapshot ∷ [] ≡ rounds ++ [])
      × (settled.daemon ≡ reconcile_all bgp routes rounds idle))
    × ((inputs : List Input) × (handled inputs ≡ inputs)
        × (Snapshot.snapshot ∷ [] ≡ snapshots_of inputs ++ [])
        × (added ∷ [] ≡ events_of inputs ++ [])
        × (settled.updater ≡ run routes inputs begin.updater))
unfolding wired subscribe ready taken has_room bgp_round received updater_round
all_handled_example = all_handled bgp routes refl refl one_day

agent_learns_example : get "10.1.0.9/32" settled.updater.reconciler.learned ≡ some route
unfolding wired subscribe ready taken has_room bgp_round received updater_round
agent_learns_example =
    agent_learns memory tables bridges bridges cfg first_written empty_host idle "10.1.0.9/32"
      one_day refl refl

drains_example : Within bgp routes 3 announced λ t.
    (t.bgp_snapshots.buffer ≡ [])
    × (t.updater_snapshots.buffer ≡ [])
    × (t.bgp_events.buffer ≡ [])
    × (t.bgp_loop_runs ≡ true)
    × (t.updater_runs ≡ true)
unfolding wired subscribe
drains_example = drains bgp routes announced refl refl
