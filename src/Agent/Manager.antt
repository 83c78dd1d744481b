-- ===== src/Agent/Manager.antt =====
-- apps/agent/internal/controllers: `Run` of the gateway manager and of the internal-node manager.
-- Both start the mediator, a loop over the BGP reconciler and the loop of RoutesUpdater, and wait for
-- the context; they differ in the reconcilers (Manager.Wiring). A round of a loop is one step: the
-- loops share no state, each has its own channels and its own library. Who sends on the channels is
-- left open.
pub mod Interleaved
pub mod Delivered
pub mod Handled
pub mod Wiring
pub mod Progress
pub mod Learned
use pontifex.Base.{Bool, true, false, List, [], ◌∷◌, ◌≡◌}
use pontifex.GoChan.{Chan, Ready, value, drained, waiting, ready, taken, has_room, sent, close}
use pontifex.Effects.{Error}
use pontifex.Api.{NetworkOverlay}
use pontifex.Agent.Bgp.{RouteEvent}
use pontifex.Agent.RoutesUpdater.{
  RoutesReconciler, Input, snapshot, bgp_event, snapshots_closed, bgp_events_closed, context_done,
  State, run,
}

-- `Reconciler` of reconcilers/bgp/interface.go and of reconcilers/routes/interface.go.
pub record Reconciler (D : Type 0) : Type 0 where
  pub reconcile : List NetworkOverlay → D → List Error × D

-- Which inputs end the loop of RoutesUpdater.
abbrev pub goes_on : Input → Bool
goes_on (snapshot _) = true
goes_on (bgp_event _) = true
goes_on snapshots_closed = false
goes_on bgp_events_closed = false
goes_on context_done = false

-- The goroutines, of which each runs or has returned, with the channels between them. `daemon` is
-- the state of the BGP server, `bgp_logged` the errors of each reconciliation of the BGP loop.
pub record System (R W D : Type 0) : Type 0 where
  pub cancelled : Bool
  pub bgp_snapshots : Chan (List NetworkOverlay)
  pub updater_snapshots : Chan (List NetworkOverlay)
  pub bgp_events : Chan RouteEvent
  pub mediator_runs : Bool
  pub bgp_loop_runs : Bool
  pub updater_runs : Bool
  pub manager_runs : Bool
  pub daemon : D
  pub bgp_logged : List (List Error)
  pub updater : State R W

-- What can happen next: a send or a close by the code behind a channel, the end of the context, or
-- a turn of a goroutine with what it has received.
pub data Move : Type 0 where
  send_bgp : List NetworkOverlay → Move
  send_updater : List NetworkOverlay → Move
  send_event : RouteEvent → Move
  close_bgp close_updater close_events : Move
  cancel : Move
  bgp_turn : List NetworkOverlay → Move
  bgp_spin bgp_returns : Move
  updater_turn : Input → Move
  mediator_returns manager_returns : Move

module _ {R W D : Type 0} (bgp : Reconciler D) (rr : RoutesReconciler R W) where
  -- `bgpReconciler.Reconcile(ctx, snap)`, whose errors are logged.
  unfoldable pub bgp_round : List NetworkOverlay → System R W D → System R W D
  bgp_round snap s =
      let (errs, d) = bgp.reconcile snap s.daemon in
      record s { daemon = d; bgp_logged = errs ∷ s.bgp_logged }

  -- Which cases of the updater's `select` can be taken.
  pub data Offers (s : System R W D) : Input → Type 0 where
    offers_snapshot :
        {ovs : List NetworkOverlay}
        → ready s.updater_snapshots ≡ value ovs
        → Offers s (snapshot ovs)
    offers_closed : ready s.updater_snapshots ≡ drained → Offers s snapshots_closed
    offers_event : {ev : RouteEvent} → ready s.bgp_events ≡ value ev → Offers s (bgp_event ev)
    offers_events_closed : ready s.bgp_events ≡ drained → Offers s bgp_events_closed
    offers_done : s.cancelled ≡ true → Offers s context_done

  -- The updater's channels after it has received this input.
  unfoldable pub received : Input → System R W D → System R W D
  received (snapshot _) s = record s { updater_snapshots = taken s.updater_snapshots }
  received (bgp_event _) s = record s { bgp_events = taken s.bgp_events }
  received snapshots_closed s = s
  received bgp_events_closed s = s
  received context_done s = s

  unfoldable pub updater_round : Input → System R W D → System R W D
  updater_round i s = record s { updater = run rr (i ∷ []) s.updater; updater_runs = goes_on i }

  pub data Step (s : System R W D) : Move → System R W D → Type 0 where
    sends_bgp :
        {ovs : List NetworkOverlay}
        → has_room s.bgp_snapshots ≡ true
        → Step s (send_bgp ovs) (record s { bgp_snapshots = sent ovs s.bgp_snapshots })
    sends_updater :
        {ovs : List NetworkOverlay}
        → has_room s.updater_snapshots ≡ true
        → Step s (send_updater ovs) (record s { updater_snapshots = sent ovs s.updater_snapshots })
    sends_event :
        {ev : RouteEvent}
        → has_room s.bgp_events ≡ true
        → Step s (send_event ev) (record s { bgp_events = sent ev s.bgp_events })
    closes_bgp : Step s close_bgp (record s { bgp_snapshots = close s.bgp_snapshots })
    closes_updater :
        Step s close_updater (record s { updater_snapshots = close s.updater_snapshots })
    closes_events : Step s close_events (record s { bgp_events = close s.bgp_events })
    cancels : Step s cancel (record s { cancelled = true })
    -- `case snap := <-bgpSnapshots`; a closed channel gives nil each time.
    takes_bgp :
        {ovs : List NetworkOverlay}
        → s.bgp_loop_runs ≡ true
        → ready s.bgp_snapshots ≡ value ovs
        → Step s (bgp_turn ovs) (bgp_round ovs (record s { bgp_snapshots = taken s.bgp_snapshots }))
    spins_bgp :
        s.bgp_loop_runs ≡ true → ready s.bgp_snapshots ≡ drained → Step s bgp_spin (bgp_round [] s)
    stops_bgp :
        s.bgp_loop_runs ≡ true
        → s.cancelled ≡ true
        → Step s bgp_returns (record s { bgp_loop_runs = false })
    takes_updater :
        {i : Input}
        → s.updater_runs ≡ true
        → Offers s i
        → Step s (updater_turn i) (updater_round i (received i s))
    stops_mediator :
        s.mediator_runs ≡ true
        → s.cancelled ≡ true
        → Step s mediator_returns (record s { mediator_runs = false })
    stops_manager :
        s.manager_runs ≡ true
        → s.cancelled ≡ true
        → Step s manager_returns (record s { manager_runs = false })

  -- A run of the agent: its moves, the first one first.
  pub data Runs : System R W D → List Move → System R W D → Type 0 where
    stay : {s : System R W D} → Runs s [] s
    next :
        {m : Move} {ms : List Move} {s t u : System R W D}
        → Step s m t
        → Runs t ms u
        → Runs s (m ∷ ms) u
