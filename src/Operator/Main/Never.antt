-- ===== src/Operator/Main/Never.antt =====
-- What the stubs of the operator make of a reconciliation.
use pontifex.Base.{String, false, [], some, ◌≡◌, refl, ap, ◌∙◌, comparable_string}
use pontifex.GoMap.{Runtime}
use pontifex.Effects.{Error, ok}
use pontifex.Effects.Keeps.{Fails, then-Fails, Fails-first}
use pontifex.Api.{NetworkOverlay}
use pontifex.Config.{OperatorConfig}
use pontifex.Operator.Cluster.{Client}
use pontifex.Operator.Controller.{
  Services, ensure_finalizer, ensure_gateways, ensure_community, ensure_keys, ensure_agents,
  ensure_live, reconcile, as_error,
}
use pontifex.Operator.Controller.Live.{reconcile-live}
use pontifex.Operator.Main.{with_stubs}
use pontifex.Operator.Workloads.{Deployments}

module _ {S W : Type 0} (client : Client S W) (services : Services W) (deployments : Deployments W)
    (cfg : OperatorConfig) (rt : Runtime) where
  ensure_keys-Fails :
      (ov : NetworkOverlay) → Fails (ensure_keys client (with_stubs services) deployments cfg rt ov)
  unfolding ensure_keys
  ensure_keys-Fails ov = record { fails = λ s. (_, refl) }

  ensure_live-Fails :
      (ov : NetworkOverlay) → Fails (ensure_live client (with_stubs services) deployments cfg rt ov)
  unfolding ensure_live
  ensure_live-Fails ov =
      then-Fails (ensure_finalizer client (with_stubs services) deployments cfg rt ov) _
        λ finalized.
          then-Fails (ensure_gateways client (with_stubs services) deployments cfg rt finalized) _
            λ gated.
              then-Fails (ensure_community client (with_stubs services) deployments cfg rt gated) _
                λ placed.
                  Fails-first (ensure_agents client (with_stubs services) deployments cfg rt)
                    (ensure_keys-Fails placed)

  -- With the operator's stubs, the reconciliation of an overlay that is there and is not being
  -- deleted returns an error, whatever the rest of the cluster does.
  pub never_done :
      (name : String) (w : W) (ov : NetworkOverlay)
      → (services.get_overlay name w).0 ≡ ok ov
      → ov.deleting ≡ false
      → (x : Error) × ((reconcile client (with_stubs services) deployments cfg rt name w).0
          ≡ some x)
  never_done name w ov got live =
      let stubs = with_stubs services in
      let (x, e) =
        (ensure_live-Fails ov).fails
          (record { errs = []; world = (services.get_overlay name w).1 }) in
      (
        x,
        ap (λ p. p.0) (reconcile-live client stubs deployments cfg rt name w ov got live)
            ∙ ap as_error e,
      )
