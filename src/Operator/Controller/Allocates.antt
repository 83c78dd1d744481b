-- ===== src/Operator/Controller/Allocates.antt =====
-- The step of a reconciliation that gives an overlay its community.
use pontifex.Base.{◌<◌, String, false, List, ◌≡◌, refl, length, comparable_string}
use pontifex.Effects.{ok, Run, ask}
use pontifex.Api.{NetworkOverlay}
use pontifex.Operator.Cluster.{Client}
use pontifex.Operator.Community.{allocate_community, pool_size}
use pontifex.Operator.Community.Fresh.{taken, first_free_least}
use pontifex.Operator.Community.Pool.{first_free_total}
use pontifex.Operator.Workloads.{Deployments}
use pontifex.Config.{OperatorConfig}
use pontifex.Operator.Controller.{Services, ensure_community, with_community}
use pontifex.GoMap.{Runtime}

module _ {S W : Type 0} (client : Client S W) (services : Services W) (deployments : Deployments W)
    (cfg : OperatorConfig) (rt : Runtime) where
  -- An overlay without a community gets one that no other listed overlay has, in one patch of its
  -- status, if fewer overlays are listed than the pool has communities.
  pub ensure_community_fresh :
      (ov : NetworkOverlay) (s : Run W) (all : List NetworkOverlay)
      → ov.status.community ≡ ""
      → (client.list_overlays s.world).0 ≡ ok all
      → length all < pool_size
      → (c : String) × (taken ov.name c all ≡ false)
        × (ensure_community client services deployments cfg rt ov s
            ≡ ask
                (services.patch_status ov (with_community c ov))
                (record s { world = (client.list_overlays s.world).1 }))
  unfolding ensure_community allocate_community
  ensure_community_fresh ov s all blank l few =
      let (c, free) = first_free_total cfg.asn ov.name all few in
      let (n, e, _, _, unused, _) = first_free_least cfg.asn ov.name all c free in
      (c, unused, rw (blank, l, free, allocate_community) refl)
