-- ===== src/Operator/Controller/Live.antt =====
-- Reconciling an overlay that is there and is not being deleted.
use pontifex.Base.{String, false, none, some, ◌≡◌, ap, ◌∙◌, if◌then◌else◌}
use pontifex.GoMap.{Runtime}
use pontifex.Effects.{ok, err, called}
use pontifex.Api.{NetworkOverlay}
use pontifex.Config.{OperatorConfig}
use pontifex.Operator.Cluster.{Client}
use pontifex.Operator.Controller.{
  Services, handle_deletion, ensure_live, reconcile_overlay, reconcile, as_error,
}
use pontifex.Operator.Workloads.{Deployments}

module _ {S W : Type 0} (client : Client S W) (services : Services W) (deployments : Deployments W)
    (cfg : OperatorConfig) (rt : Runtime) where
  reconcile_overlay-live :
      (ov : NetworkOverlay)
      → ov.deleting ≡ false
      → reconcile_overlay client services deployments cfg rt ov
        ≡ ensure_live client services deployments cfg rt ov
  unfolding reconcile_overlay
  reconcile_overlay-live ov live =
      ap
        (λ b.
          if b
          then handle_deletion client services deployments cfg rt ov
          else ensure_live client services deployments cfg rt ov)
        live

  pub reconcile-live :
      (name : String) (w : W) (ov : NetworkOverlay)
      → (services.get_overlay name w).0 ≡ ok ov
      → ov.deleting ≡ false
      → let out =
          called
            (ensure_live client services deployments cfg rt ov)
            (services.get_overlay name w).1 in
        reconcile client services deployments cfg rt name w ≡ (as_error out.0, out.1)
  unfolding reconcile
  reconcile-live name w ov got live =
      let w' = (services.get_overlay name w).1 in
      ap
        (λ r. elim r [
          | err x ↦ if deployments.is_not_found x then (none, w') else (some x, w')
          | ok found ↦
              let out = called (reconcile_overlay client services deployments cfg rt found) w' in
              (as_error out.0, out.1)
        ])
        got
      ∙ ap (λ m. let out = called m w' in (as_error out.0, out.1)) (reconcile_overlay-live ov live)
