-- ===== src/Agent/RoutesUpdater/Latest.antt =====
-- What the loop has gathered, and what it has reconciled, when it stops.
use pontifex.Base.{◌+◌, List, [], ◌∷◌, ◌++◌, ap, subst, ◌≡◌, refl, arith, length, comparable_string}
use pontifex.Effects.{Error}
use pontifex.Api.{NetworkOverlay}
use pontifex.Agent.Bgp.{RouteEvent}
use pontifex.Agent.RoutesUpdater.{
  RoutesReconciler, Input, snapshot, bgp_event, snapshots_closed, bgp_events_closed, context_done,
  State, run, reconcile_latest,
}

-- The inputs before the one that ends the loop.
abbrev pub handled : List Input → List Input
handled [] = []
handled (snapshot ovs ∷ inputs) = snapshot ovs ∷ handled inputs
handled (bgp_event ev ∷ inputs) = bgp_event ev ∷ handled inputs
handled (snapshots_closed ∷ inputs) = []
handled (bgp_events_closed ∷ inputs) = []
handled (context_done ∷ inputs) = []

-- The BGP events of inputs, their snapshots, and the last of these.
abbrev pub events_of : List Input → List RouteEvent
events_of [] = []
events_of (bgp_event ev ∷ inputs) = ev ∷ events_of inputs
events_of (_ ∷ inputs) = events_of inputs

abbrev pub snapshots_of : List Input → List (List NetworkOverlay)
snapshots_of [] = []
snapshots_of (snapshot ovs ∷ inputs) = ovs ∷ snapshots_of inputs
snapshots_of (_ ∷ inputs) = snapshots_of inputs

abbrev pub last_snapshot : List Input → List NetworkOverlay → List NetworkOverlay
last_snapshot [] old = old
last_snapshot (snapshot ovs ∷ inputs) old = last_snapshot inputs ovs
last_snapshot (_ ∷ inputs) old = last_snapshot inputs old

module _ {R W : Type 0} (rr : RoutesReconciler R W) where
  abbrev pub fold_events : List RouteEvent → R → R
  fold_events [] r = r
  fold_events (ev ∷ evs) r = fold_events evs (rr.apply_event ev r)

  -- Every input before the end has had one reconciliation, the reconciler has seen the BGP events
  -- in their order, and the snapshot is the last one.
  pub run_gathers :
      (inputs : List Input) (s : State R W)
      → ((run rr inputs s).latest ≡ last_snapshot (handled inputs) s.latest)
        × ((run rr inputs s).reconciler ≡ fold_events (events_of (handled inputs)) s.reconciler)
        × (length (run rr inputs s).logged ≡ length (handled inputs) + length s.logged)
  unfolding run reconcile_latest
  run_gathers [] s = (refl, refl, omega arith)
  run_gathers (snapshot ovs ∷ inputs) s =
      let (a, b, c) = run_gathers inputs (reconcile_latest rr (record s { latest = ovs })) in
      (a, b, omega (arith, c))
  run_gathers (bgp_event ev ∷ inputs) s =
      let (a, b, c) =
        run_gathers inputs
          (reconcile_latest rr (record s { reconciler = rr.apply_event ev s.reconciler })) in
      (a, b, omega (arith, c))
  run_gathers (snapshots_closed ∷ inputs) s = (refl, refl, omega arith)
  run_gathers (bgp_events_closed ∷ inputs) s = (refl, refl, omega arith)
  run_gathers (context_done ∷ inputs) s = (refl, refl, omega arith)

  -- A loop that ends at once has changed nothing.
  run-none : (inputs : List Input) (s : State R W) → handled inputs ≡ [] → run rr inputs s ≡ s
  unfolding run
  run-none [] s h = refl
  run-none (snapshot ovs ∷ inputs) s h = cc
  run-none (bgp_event ev ∷ inputs) s h = cc
  run-none (snapshots_closed ∷ inputs) s h = refl
  run-none (bgp_events_closed ∷ inputs) s h = refl
  run-none (context_done ∷ inputs) s h = refl

  -- What the reconciliation of a round is called with, after the inputs `is`, the last of which is
  -- that of the round, from the state `s`.
  abbrev pub round_of : List Input → State R W → W → List Error × W
  round_of is s = rr.reconcile (fold_events (events_of is) s.reconciler) (last_snapshot is s.latest)

  -- The state `t` is that after `is`, but for one more round, that of the input `i`.
  abbrev pub IsRound : List Input → Input → State R W → State R W → Type 0
  IsRound is i s t =
      let before = run rr is s in
      let (errs, w) = round_of (is ++ i ∷ []) s before.world in
      (t.world ≡ w) × (t.logged ≡ errs ∷ before.logged)

  -- Each input that the loop handles has one round: when the last one is `i`, after the inputs `is`,
  -- the host and the newest logged errors are what a reconciliation with the last snapshot of all
  -- these inputs, and with the reconciler that has applied all their BGP events in order, makes of the
  -- host that the loop leaves after `is`; the older logged errors are those of `is`.
  pub run-IsRound :
      (inputs is : List Input) (i : Input) (s : State R W)
      → handled inputs ≡ is ++ i ∷ []
      → IsRound is i s (run rr inputs s)
  unfolding run reconcile_latest
  run-IsRound [] [] i s h = cc
  run-IsRound [] (j ∷ is) i s h = cc
  run-IsRound (snapshot ovs ∷ inputs) [] i s h =
      subst (λ j. IsRound [] j s (run rr (snapshot ovs ∷ inputs) s)) {x = snapshot ovs}
        (ground (arith, h))
        (let s' = (record s { latest = ovs }) in
          let e = run-none inputs (reconcile_latest rr s') (ground (arith, h)) in
          (ap State.world e, ap State.logged e))
  run-IsRound (snapshot ovs ∷ inputs) (j ∷ is) i s h =
      subst (λ k. IsRound (k ∷ is) i s (run rr (snapshot ovs ∷ inputs) s)) {x = snapshot ovs}
        (ground (arith, h))
        (run-IsRound inputs is i (reconcile_latest rr (record s { latest = ovs }))
          (ground (arith, h)))
  run-IsRound (bgp_event ev ∷ inputs) [] i s h =
      subst (λ j. IsRound [] j s (run rr (bgp_event ev ∷ inputs) s)) {x = bgp_event ev}
        (ground (arith, h))
        (let s' = (record s { reconciler = rr.apply_event ev s.reconciler }) in
          let e = run-none inputs (reconcile_latest rr s') (ground (arith, h)) in
          (ap State.world e, ap State.logged e))
  run-IsRound (bgp_event ev ∷ inputs) (j ∷ is) i s h =
      subst (λ k. IsRound (k ∷ is) i s (run rr (bgp_event ev ∷ inputs) s)) {x = bgp_event ev}
        (ground (arith, h))
        (run-IsRound inputs is i
          (reconcile_latest rr (record s { reconciler = rr.apply_event ev s.reconciler }))
          (ground (arith, h)))
  run-IsRound (snapshots_closed ∷ inputs) [] i s h = cc
  run-IsRound (snapshots_closed ∷ inputs) (j ∷ is) i s h = cc
  run-IsRound (bgp_events_closed ∷ inputs) [] i s h = cc
  run-IsRound (bgp_events_closed ∷ inputs) (j ∷ is) i s h = cc
  run-IsRound (context_done ∷ inputs) [] i s h = cc
  run-IsRound (context_done ∷ inputs) (j ∷ is) i s h = cc
