-- ===== src/Agent/RoutesUpdater/Learns.antt =====
-- The loop over the routes reconciler of an internal node.
use pontifex.Base.{String, List, [], ◌∷◌, ◌≡◌, refl, ap, ◌∙◌, comparable_string}
use pontifex.GoMap.{get, Runtime}
use pontifex.Agent.Bgp.{RouteEvent}
use pontifex.Agent.Firewall.{Firewall}
use pontifex.Agent.Routes.{Routes}
use pontifex.Agent.Routes.Learned.{apply_event, apply_events, last_announced, get-apply_events}
use pontifex.Agent.Routes.Internal.{InternalReconciler, reconcile}
use pontifex.Agent.RoutesUpdater.{RoutesReconciler, Input, State, run}
use pontifex.Agent.RoutesUpdater.Latest.{handled, events_of, fold_events, run_gathers}

module _ {W : Type 0} (routes : Routes W) (firewall : Firewall W) (rt : Runtime) where
  abbrev pub internal_routes : RoutesReconciler InternalReconciler W
  internal_routes = record {
    apply_event = λ ev r. record r { learned = apply_event ev r.learned };
    reconcile = λ r overlays. reconcile routes firewall r rt overlays;
  }

  learned-fold_events :
      (evs : List RouteEvent) (r : InternalReconciler)
      → (fold_events internal_routes evs r).learned ≡ apply_events evs r.learned
  learned-fold_events [] r = refl
  learned-fold_events (ev ∷ evs) r = learned-fold_events evs _

  -- When the loop stops, the internal node has learned for each prefix what the last BGP event on it
  -- said, among the events before the end, and has forgotten a withdrawn prefix.
  pub run_learns :
      (inputs : List Input) (s : State InternalReconciler W) (p : String)
      → get p (run internal_routes inputs s).reconciler.learned
        ≡ last_announced p (events_of (handled inputs)) (get p s.reconciler.learned)
  run_learns inputs s p =
      ap (λ r. get p r.learned) (run_gathers internal_routes inputs s).1
      ∙ ap (get p) (learned-fold_events (events_of (handled inputs)) s.reconciler)
      ∙ get-apply_events p (events_of (handled inputs)) s.reconciler.learned
