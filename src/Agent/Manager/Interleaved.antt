-- ===== src/Agent/Manager/Interleaved.antt =====
-- Whatever the schedule, each loop does what it does alone.
use pontifex.Base.{true, List, [], ◌∷◌, ◌++◌, ◌≡◌, refl, ◌∙◌, if◌then◌else◌, arith}
use pontifex.Api.{NetworkOverlay}
use pontifex.Agent.RoutesUpdater.{RoutesReconciler, Input, State, run, reconcile_latest}
use pontifex.Agent.Manager.{
  Reconciler, System, Move, bgp_turn, bgp_spin, updater_turn, bgp_round, received, updater_round,
  Step, sends_bgp, sends_updater, sends_event, closes_bgp, closes_updater, closes_events, cancels,
  takes_bgp, spins_bgp, stops_bgp, takes_updater, stops_mediator, stops_manager, Runs, stay, next,
  offers_snapshot, offers_closed, offers_event, offers_events_closed, offers_done,
}

-- What a move gives to the updater, and to the BGP loop: nil from a closed channel.
abbrev pub updater_gets : Move → List Input
updater_gets (updater_turn i) = i ∷ []
updater_gets _ = []

abbrev pub bgp_gets : Move → List (List NetworkOverlay)
bgp_gets (bgp_turn ovs) = ovs ∷ []
bgp_gets bgp_spin = [] ∷ []
bgp_gets _ = []

abbrev pub gathered : {A : Type 0} → (Move → List A) → List Move → List A
gathered gets [] = []
gathered gets (m ∷ ms) = gets m ++ gathered gets ms

module _ {R W D : Type 0} (bgp : Reconciler D) (rr : RoutesReconciler R W) where
  -- One reconciliation after the other.
  abbrev pub reconcile_all : List (List NetworkOverlay) → D → D
  reconcile_all [] d = d
  reconcile_all (ovs ∷ rest) d = reconcile_all rest (bgp.reconcile ovs d).1

  -- The updater's loop alone, unless it has returned.
  abbrev alone : List Input → System R W D → State R W
  alone is s = if s.updater_runs then run rr is s.updater else s.updater

  Step-alone :
      {m : Move} {s t : System R W D} (is : List Input)
      → Step bgp rr s m t
      → alone is t ≡ alone (updater_gets m ++ is) s
  unfolding bgp_round updater_round received run reconcile_latest
  Step-alone is (sends_bgp _) = refl
  Step-alone is (sends_updater _) = refl
  Step-alone is (sends_event _) = refl
  Step-alone is closes_bgp = refl
  Step-alone is closes_updater = refl
  Step-alone is closes_events = refl
  Step-alone is cancels = refl
  Step-alone is (takes_bgp _ _) = refl
  Step-alone is (spins_bgp _ _) = refl
  Step-alone is (stops_bgp _ _) = refl
  Step-alone is (takes_updater k (offers_snapshot _)) = rw k refl
  Step-alone is (takes_updater k (offers_closed _)) = rw k refl
  Step-alone is (takes_updater k (offers_event _)) = rw k refl
  Step-alone is (takes_updater k (offers_events_closed _)) = rw k refl
  Step-alone is (takes_updater k (offers_done _)) = rw k refl
  Step-alone is (stops_mediator _ _) = refl
  Step-alone is (stops_manager _ _) = refl

  Step-reconcile_all :
      {m : Move} {s t : System R W D} (rest : List (List NetworkOverlay))
      → Step bgp rr s m t
      → reconcile_all rest t.daemon ≡ reconcile_all (bgp_gets m ++ rest) s.daemon
  unfolding bgp_round updater_round received
  Step-reconcile_all rest (sends_bgp _) = refl
  Step-reconcile_all rest (sends_updater _) = refl
  Step-reconcile_all rest (sends_event _) = refl
  Step-reconcile_all rest closes_bgp = refl
  Step-reconcile_all rest closes_updater = refl
  Step-reconcile_all rest closes_events = refl
  Step-reconcile_all rest cancels = refl
  Step-reconcile_all rest (takes_bgp _ _) = refl
  Step-reconcile_all rest (spins_bgp _ _) = refl
  Step-reconcile_all rest (stops_bgp _ _) = refl
  Step-reconcile_all rest (takes_updater k (offers_snapshot _)) = refl
  Step-reconcile_all rest (takes_updater k (offers_closed _)) = refl
  Step-reconcile_all rest (takes_updater k (offers_event _)) = refl
  Step-reconcile_all rest (takes_updater k (offers_events_closed _)) = refl
  Step-reconcile_all rest (takes_updater k (offers_done _)) = refl
  Step-reconcile_all rest (stops_mediator _ _) = refl
  Step-reconcile_all rest (stops_manager _ _) = refl

  Runs-alone :
      {ms : List Move} {s t : System R W D}
      → Runs bgp rr s ms t
      → alone [] t ≡ alone (gathered updater_gets ms) s
  Runs-alone stay = refl
  Runs-alone (next {ms} step r) = Runs-alone r ∙ Step-alone (gathered updater_gets ms) step

  Runs-reconcile_all :
      {ms : List Move} {s t : System R W D}
      → Runs bgp rr s ms t
      → t.daemon ≡ reconcile_all (gathered bgp_gets ms) s.daemon
  Runs-reconcile_all stay = refl
  Runs-reconcile_all (next {ms} step r) =
      Runs-reconcile_all r ∙ Step-reconcile_all (gathered bgp_gets ms) step

  -- However the goroutines of an agent are scheduled: if the updater has not returned at the start,
  -- the BGP daemon ends as one reconciliation after the other with what the BGP loop has received
  -- leaves it, and the routes reconciler and its host as the updater's loop alone leaves them on what
  -- it has received.
  pub loops_apart :
      {ms : List Move} {s t : System R W D}
      → s.updater_runs ≡ true
      → Runs bgp rr s ms t
      → (t.daemon ≡ reconcile_all (gathered bgp_gets ms) s.daemon)
        × (t.updater ≡ run rr (gathered updater_gets ms) s.updater)
  unfolding run
  loops_apart h r = (Runs-reconcile_all r, ground (arith, h, Runs-alone r))
