-- ===== src/Agent/RoutesUpdater.antt =====
-- apps/agent/internal/bgp/routes_updater.go: the loop that drives a routes reconciler. What the
-- `select` statement finds ready, one round after the other, is a list of inputs.
pub mod Latest
pub mod Learns
use pontifex.Base.{List, [], ◌∷◌}
use pontifex.Effects.{Error}
use pontifex.Api.{NetworkOverlay}
use pontifex.Agent.Bgp.{RouteEvent}

-- `RoutesReconciler`, a reconciler with the state `R` on a host `W`.
pub record RoutesReconciler (R W : Type 0) : Type 0 where
  pub apply_event : RouteEvent → R → R
  pub reconcile : R → List NetworkOverlay → W → List Error × W

pub data Input : Type 0 where
  snapshot : List NetworkOverlay → Input
  bgp_event : RouteEvent → Input
  snapshots_closed bgp_events_closed context_done : Input

-- The variables of `Run`, with the reconciler and the host. `logged` collects the errors of each
-- reconciliation.
pub record State (R W : Type 0) : Type 0 where
  pub latest : List NetworkOverlay
  pub reconciler : R
  pub world : W
  pub logged : List (List Error)

module _ {R W : Type 0} (rr : RoutesReconciler R W) where
  unfoldable pub reconcile_latest : State R W → State R W
  reconcile_latest s =
      let (errs, w) = rr.reconcile s.reconciler s.latest s.world in
      record s { world = w; logged = errs ∷ s.logged }

  -- `Run`, whose result is always nil: the state when it returns, or when no input is left.
  unfoldable pub run : List Input → State R W → State R W
  unfolding reconcile_latest
  run [] s = s
  run (snapshot overlays ∷ inputs) s =
      run inputs (reconcile_latest (record s { latest = overlays }))
  run (bgp_event ev ∷ inputs) s =
      run inputs (reconcile_latest (record s { reconciler = rr.apply_event ev s.reconciler }))
  run (snapshots_closed ∷ inputs) s = s
  run (bgp_events_closed ∷ inputs) s = s
  run (context_done ∷ inputs) s = s

  -- `var latest []v1alpha1.NetworkOverlay` is nil at first.
  abbrev pub started : R → W → State R W
  started r w = record { latest = []; reconciler = r; world = w; logged = [] }
