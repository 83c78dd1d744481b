-- ===== src/Operator/Controller/Contract.antt =====
-- What the reconciliation of an overlay relies on.
use pontifex.Base.{String, Option, some, ◌≡◌}
use pontifex.Effects.{ok}
use pontifex.Effects.Keeps.{KeepsQuery, KeepsCall}
use pontifex.Api.{NetworkOverlay}
use pontifex.Operator.Cluster.{Client}
use pontifex.Operator.Kept.{CallsKeep}
use pontifex.Operator.Workloads.{Deployments}
use pontifex.Operator.Controller.{Services}

-- A cluster that stores the overlay `name` where `stored` finds it. A patch of the object changes
-- its metadata, one of its status the status, and both answer with what is stored then; no other
-- call changes it.
pub record Honours {S W : Type 0} (client : Client S W) (services : Services W)
    (deployments : Deployments W) (name : String) (stored : W → Option NetworkOverlay)
    : Type 0 where
  pub kept : CallsKeep stored client deployments
  pub gets :
      (w : W) (ov : NetworkOverlay)
      → (services.get_overlay name w).0 ≡ ok ov
      → stored (services.get_overlay name w).1 ≡ some ov
  pub patches :
      (w : W) (old new ov : NetworkOverlay)
      → stored w ≡ some old
      → (services.patch old new w).0 ≡ ok ov
      → (ov ≡ record old { finalizers = new.finalizers })
        × (stored (services.patch old new w).1 ≡ some ov)
  pub patches_status :
      (w : W) (old new ov : NetworkOverlay)
      → stored w ≡ some old
      → (services.patch_status old new w).0 ≡ ok ov
      → (ov ≡ record old { status = new.status })
        × (stored (services.patch_status old new w).1 ≡ some ov)
  pub keys : (ov : NetworkOverlay) → KeepsQuery stored (services.ensure_key_pair ov)
  pub rbac : (namespace : String) → KeepsCall stored (services.ensure_rbac namespace)
