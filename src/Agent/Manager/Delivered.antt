-- ===== src/Agent/Manager/Delivered.antt =====
-- The channels lose nothing, repeat nothing and keep the order.
use mathlib.Core.List.{append-nil, append_assoc}
use pontifex.Base.{List, [], ◌∷◌, ◌++◌, ◌≡◌, refl, ap, sym, ◌∙◌, arith}
use pontifex.GoChan.{Chan, value, ready, taken}
use pontifex.Api.{NetworkOverlay}
use pontifex.Agent.Bgp.{RouteEvent}
use pontifex.Agent.RoutesUpdater.{RoutesReconciler, snapshot, bgp_event}
use pontifex.Agent.Manager.{
  Reconciler, System, Move, send_bgp, send_updater, send_event, bgp_turn, updater_turn, bgp_round,
  received, updater_round, Step, sends_bgp, sends_updater, sends_event, closes_bgp, closes_updater,
  closes_events, cancels, takes_bgp, spins_bgp, stops_bgp, takes_updater, stops_mediator,
  stops_manager, Runs, stay, next, offers_snapshot, offers_closed, offers_event,
  offers_events_closed, offers_done,
}
use pontifex.Agent.Manager.Interleaved.{gathered}

-- What a move sends on each channel.
abbrev pub sent_bgp : Move → List (List NetworkOverlay)
sent_bgp (send_bgp ovs) = ovs ∷ []
sent_bgp _ = []

abbrev pub sent_updater : Move → List (List NetworkOverlay)
sent_updater (send_updater ovs) = ovs ∷ []
sent_updater _ = []

abbrev pub sent_events : Move → List RouteEvent
sent_events (send_event ev) = ev ∷ []
sent_events _ = []

-- What a move receives from each channel.
abbrev pub got_bgp : Move → List (List NetworkOverlay)
got_bgp (bgp_turn ovs) = ovs ∷ []
got_bgp _ = []

abbrev pub got_updater : Move → List (List NetworkOverlay)
got_updater (updater_turn (snapshot ovs)) = ovs ∷ []
got_updater _ = []

abbrev pub got_events : Move → List RouteEvent
got_events (updater_turn (bgp_event ev)) = ev ∷ []
got_events _ = []

buffer-ready :
    {A : Type 0} {x : A} (c : Chan A) → ready c ≡ value x → c.buffer ≡ x ∷ (taken c).buffer
unfolding ready taken
buffer-ready c h = ground (arith, h)

abbrev Balance : {A : Type 0} → List A → List A → List A → List A → Type 0
Balance before sent got after = before ++ sent ≡ got ++ after

untouched : {A : Type 0} (xs : List A) → Balance xs [] [] xs
untouched xs = append-nil xs

one_taken :
    {A : Type 0} {x : A} (c : Chan A)
    → ready c ≡ value x
    → Balance c.buffer [] (x ∷ []) (taken c).buffer
one_taken c h = append-nil c.buffer ∙ buffer-ready c h

module _ {R W D : Type 0} (bgp : Reconciler D) (rr : RoutesReconciler R W) where
  Step-Balance :
      {m : Move} {s t : System R W D}
      → Step bgp rr s m t
      → Balance s.bgp_snapshots.buffer (sent_bgp m) (got_bgp m) t.bgp_snapshots.buffer
        × Balance s.updater_snapshots.buffer
            (sent_updater m)
            (got_updater m)
            t.updater_snapshots.buffer
        × Balance s.bgp_events.buffer (sent_events m) (got_events m) t.bgp_events.buffer
  unfolding bgp_round received updater_round
  Step-Balance (sends_bgp _) = (refl, untouched _, untouched _)
  Step-Balance (sends_updater _) = (untouched _, refl, untouched _)
  Step-Balance (sends_event _) = (untouched _, untouched _, refl)
  Step-Balance closes_bgp = (untouched _, untouched _, untouched _)
  Step-Balance closes_updater = (untouched _, untouched _, untouched _)
  Step-Balance closes_events = (untouched _, untouched _, untouched _)
  Step-Balance cancels = (untouched _, untouched _, untouched _)
  Step-Balance (takes_bgp _ h) = (one_taken _ h, untouched _, untouched _)
  Step-Balance (spins_bgp _ _) = (untouched _, untouched _, untouched _)
  Step-Balance (stops_bgp _ _) = (untouched _, untouched _, untouched _)
  Step-Balance (takes_updater _ (offers_snapshot h)) = (untouched _, one_taken _ h, untouched _)
  Step-Balance (takes_updater _ (offers_closed _)) = (untouched _, untouched _, untouched _)
  Step-Balance (takes_updater _ (offers_event h)) = (untouched _, untouched _, one_taken _ h)
  Step-Balance (takes_updater _ (offers_events_closed _)) = (untouched _, untouched _, untouched _)
  Step-Balance (takes_updater _ (offers_done _)) = (untouched _, untouched _, untouched _)
  Step-Balance (stops_mediator _ _) = (untouched _, untouched _, untouched _)
  Step-Balance (stops_manager _ _) = (untouched _, untouched _, untouched _)

  -- A channel that each step balances is balanced by a run.
  Runs-Balance :
      {A : Type 0} (buffer : System R W D → List A) (sends gets : Move → List A)
      → ((m : Move) (s t : System R W D)
          → Step bgp rr s m t
          → Balance (buffer s) (sends m) (gets m) (buffer t))
      → {ms : List Move} {s t : System R W D} → Runs bgp rr s ms t
      → Balance (buffer s) (gathered sends ms) (gathered gets ms) (buffer t)
  Runs-Balance buffer sends gets each stay = append-nil _
  Runs-Balance buffer sends gets each (next {m} {ms} {s} {t} {u} step r) =
      sym (append_assoc (buffer s) (sends m) (gathered sends ms))
      ∙ ap (λ xs. xs ++ gathered sends ms) (each m s t step)
      ∙ append_assoc (gets m) (buffer t) (gathered sends ms)
      ∙ ap (λ xs. gets m ++ xs) (Runs-Balance buffer sends gets each r)
      ∙ sym (append_assoc (gets m) (gathered gets ms) (buffer u))

  -- However an agent is scheduled, what was in each of its three channels and what was sent since
  -- is, in this order, what was received since and what is in it: nothing is lost or repeated, and
  -- each loop receives in the order of the sends.
  pub nothing_lost :
      {ms : List Move} {s t : System R W D}
      → Runs bgp rr s ms t
      → (s.bgp_snapshots.buffer ++ gathered sent_bgp ms
          ≡ gathered got_bgp ms ++ t.bgp_snapshots.buffer)
        × (s.updater_snapshots.buffer ++ gathered sent_updater ms
            ≡ gathered got_updater ms ++ t.updater_snapshots.buffer)
        × (s.bgp_events.buffer ++ gathered sent_events ms
            ≡ gathered got_events ms ++ t.bgp_events.buffer)
  nothing_lost r = (
    Runs-Balance (λ s. s.bgp_snapshots.buffer) sent_bgp got_bgp
        (λ m s t step. (Step-Balance step).0) r,
    Runs-Balance (λ s. s.updater_snapshots.buffer) sent_updater got_updater
        (λ m s t step. (Step-Balance step).1) r,
    Runs-Balance (λ s. s.bgp_events.buffer) sent_events got_events
        (λ m s t step. (Step-Balance step).2) r,
  )
