-- ===== src/Agent/Manager/Handled.antt =====
-- Every message that a loop receives is handled, once and in order.
use pontifex.Base.{
  false, arith, true, List, [], ◌∷◌, ◌++◌, ◌≡◌, refl, ap, sym, ◌∙◌, comparable_string,
}
use pontifex.Agent.RoutesUpdater.{RoutesReconciler, Input, snapshot, bgp_event, run}
use pontifex.Agent.RoutesUpdater.Latest.{handled, events_of, snapshots_of}
use pontifex.Agent.Manager.{
  Reconciler, System, Move, updater_turn, bgp_round, received, updater_round, Step, sends_bgp,
  sends_updater, sends_event, closes_bgp, closes_updater, closes_events, cancels, takes_bgp,
  spins_bgp, stops_bgp, takes_updater, stops_mediator, stops_manager, Runs, stay, next,
  offers_snapshot, offers_closed, offers_event, offers_events_closed, offers_done,
}
use pontifex.Agent.Manager.Interleaved.{
  gathered, updater_gets, bgp_gets, reconcile_all, loops_apart,
}
use pontifex.Agent.Manager.Delivered.{
  sent_bgp, sent_updater, sent_events, got_bgp, got_updater, got_events, nothing_lost,
}
use pontifex.Api.{NetworkOverlay}
use pontifex.GoChan.{ready, taken}

pub events_of-gathered :
    (ms : List Move) → events_of (gathered updater_gets ms) ≡ gathered got_events ms
events_of-gathered [] = refl
events_of-gathered (updater_turn (bgp_event ev) ∷ ms) = ap (λ evs. ev ∷ evs) (events_of-gathered ms)
events_of-gathered (updater_turn _ ∷ ms) = events_of-gathered ms
events_of-gathered (_ ∷ ms) = events_of-gathered ms

snapshots_of-gathered :
    (ms : List Move) → snapshots_of (gathered updater_gets ms) ≡ gathered got_updater ms
snapshots_of-gathered [] = refl
snapshots_of-gathered (updater_turn (snapshot ovs) ∷ ms) =
    ap (λ xs. ovs ∷ xs) (snapshots_of-gathered ms)
snapshots_of-gathered (updater_turn _ ∷ ms) = snapshots_of-gathered ms
snapshots_of-gathered (_ ∷ ms) = snapshots_of-gathered ms

module _ {R W D : Type 0} (bgp : Reconciler D) (rr : RoutesReconciler R W) where
  -- While the updater runs after a move, it ran before it, and the move has not ended its loop.
  Step-handled :
      {m : Move} {s t : System R W D}
      → Step bgp rr s m t
      → t.updater_runs ≡ true
      → (s.updater_runs ≡ true)
        × ((is : List Input) → handled (updater_gets m ++ is) ≡ updater_gets m ++ handled is)
  unfolding bgp_round received updater_round
  Step-handled (sends_bgp _) h = (h, λ is. refl)
  Step-handled (sends_updater _) h = (h, λ is. refl)
  Step-handled (sends_event _) h = (h, λ is. refl)
  Step-handled closes_bgp h = (h, λ is. refl)
  Step-handled closes_updater h = (h, λ is. refl)
  Step-handled closes_events h = (h, λ is. refl)
  Step-handled cancels h = (h, λ is. refl)
  Step-handled (takes_bgp _ _) h = (h, λ is. refl)
  Step-handled (spins_bgp _ _) h = (h, λ is. refl)
  Step-handled (stops_bgp _ _) h = (h, λ is. refl)
  Step-handled (takes_updater k (offers_snapshot _)) h = (k, λ is. refl)
  Step-handled (takes_updater k (offers_closed _)) h = cc
  Step-handled (takes_updater k (offers_event _)) h = (k, λ is. refl)
  Step-handled (takes_updater k (offers_events_closed _)) h = cc
  Step-handled (takes_updater k (offers_done _)) h = cc
  Step-handled (stops_mediator _ _) h = (h, λ is. refl)
  Step-handled (stops_manager _ _) h = (h, λ is. refl)

  pub Runs-handled :
      {ms : List Move} {s t : System R W D}
      → Runs bgp rr s ms t
      → t.updater_runs ≡ true
      → (s.updater_runs ≡ true) × (handled (gathered updater_gets ms) ≡ gathered updater_gets ms)
  Runs-handled stay h = (h, refl)
  Runs-handled (next {m} {ms} step r) h =
      let (runs, rest) = Runs-handled r h in
      let (k, first) = Step-handled step runs in
      (k, first (gathered updater_gets ms) ∙ ap (λ is. updater_gets m ++ is) rest)

  -- The BGP loop gets nil only from a closed channel, which stays closed.
  Step-open :
      {m : Move} {s t : System R W D}
      → Step bgp rr s m t
      → t.bgp_snapshots.closed ≡ false
      → (s.bgp_snapshots.closed ≡ false) × (bgp_gets m ≡ got_bgp m)
  unfolding bgp_round received updater_round ready taken
  Step-open (sends_bgp _) h = (h, refl)
  Step-open (sends_updater _) h = (h, refl)
  Step-open (sends_event _) h = (h, refl)
  Step-open closes_bgp h = cc
  Step-open closes_updater h = (h, refl)
  Step-open closes_events h = (h, refl)
  Step-open cancels h = (h, refl)
  Step-open {s} (takes_bgp _ k) h = (ground (arith, h, k), refl)
  Step-open {s} (spins_bgp _ k) h = absurd (ground (arith, h, k))
  Step-open (stops_bgp _ _) h = (h, refl)
  Step-open (takes_updater _ (offers_snapshot _)) h = (h, refl)
  Step-open (takes_updater _ (offers_closed _)) h = (h, refl)
  Step-open (takes_updater _ (offers_event _)) h = (h, refl)
  Step-open (takes_updater _ (offers_events_closed _)) h = (h, refl)
  Step-open (takes_updater _ (offers_done _)) h = (h, refl)
  Step-open (stops_mediator _ _) h = (h, refl)
  Step-open (stops_manager _ _) h = (h, refl)

  Runs-open :
      {ms : List Move} {s t : System R W D}
      → Runs bgp rr s ms t
      → t.bgp_snapshots.closed ≡ false
      → (s.bgp_snapshots.closed ≡ false) × (gathered bgp_gets ms ≡ gathered got_bgp ms)
  Runs-open stay h = (h, refl)
  Runs-open (next {m} {ms} step r) h =
      let (never, rest) = Runs-open r h in
      let (k, first) = Step-open step never in
      (k, ap (λ xs. xs ++ gathered bgp_gets ms) first ∙ ap (λ xs. got_bgp m ++ xs) rest)

  -- However an agent is scheduled, while its updater runs and nobody has closed the channel of the
  -- BGP loop: the snapshots that were in that channel or were sent on it since are those that the
  -- daemon has been reconciled with, one after the other, and then those still in the channel; and
  -- the updater's loop has been run on an order of inputs whose snapshots and events are, each in
  -- their order, those that were in the updater's channels or were sent on them since, but for
  -- those still in the channels.
  pub all_handled :
      {ms : List Move} {s t : System R W D}
      → t.updater_runs ≡ true
      → t.bgp_snapshots.closed ≡ false
      → Runs bgp rr s ms t
      → ((rounds : List (List NetworkOverlay)) × (s.bgp_snapshots.buffer ++ gathered sent_bgp ms
            ≡ rounds ++ t.bgp_snapshots.buffer)
          × (t.daemon ≡ reconcile_all bgp rr rounds s.daemon))
        × ((inputs : List Input) × (handled inputs ≡ inputs)
            × (s.updater_snapshots.buffer ++ gathered sent_updater ms
                ≡ snapshots_of inputs ++ t.updater_snapshots.buffer)
            × (s.bgp_events.buffer ++ gathered sent_events ms
                ≡ events_of inputs ++ t.bgp_events.buffer)
            × (t.updater ≡ run rr inputs s.updater))
  all_handled {ms} {s} {t} runs never r =
      let (began, all) = Runs-handled r runs in
      let (daemon, updater) = loops_apart bgp rr began r in
      let (snapshots, for_updater, events) = nothing_lost bgp rr r in
      (
        (
          gathered got_bgp ms,
          snapshots,
          daemon ∙ ap (λ rounds. reconcile_all bgp rr rounds s.daemon) (Runs-open r never).1,
        ),
        (
          gathered updater_gets ms,
          all,
          for_updater
              ∙ ap (λ xs. xs ++ t.updater_snapshots.buffer) (sym (snapshots_of-gathered ms)),
          events ∙ ap (λ xs. xs ++ t.bgp_events.buffer) (sym (events_of-gathered ms)),
          updater,
        ),
      )
