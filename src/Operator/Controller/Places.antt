-- ===== src/Operator/Controller/Places.antt =====
-- The step of a reconciliation that gives the stored overlay its community.
use pontifex.Base.{
  String, List, Option, some, ◌≡◌, refl, sym, ap, ◌∙◌, ◌⊎◌, inl, inr, ◌==◌, arith,
  comparable_string, Bool-cases, Option-cases, ℕ, ◌≢◌,
}
use pontifex.GoMap.{Runtime}
use pontifex.Effects.{ok, Run, Action, ask, query, ◌>>=◌}
use pontifex.Effects.Converge.{Result-cases, err-ne-ok, ok-inj}
use pontifex.Effects.Keeps.{then-ok}
use pontifex.Api.{NetworkOverlay}
use pontifex.Config.{OperatorConfig}
use pontifex.Operator.Cluster.{Client}
use pontifex.Operator.Community.{allocate_community, first_free}
use pontifex.Operator.Workloads.{Deployments}
use pontifex.Operator.Controller.{Services, with_community, ensure_community}
use pontifex.Operator.Controller.Contract.{Honours}
use pontifex.Operator.Controller.Steps.{wrap_err-ok}

module _ {S W : Type 0} (client : Client S W) (services : Services W) (deployments : Deployments W)
    (cfg : OperatorConfig) (rt : Runtime) (name : String) (stored : W → Option NetworkOverlay)
    (honest : Honours client services deployments name stored) where
  -- The community that the overlay has, or the one that is allocated.
  abbrev pub Placed : NetworkOverlay → String → Type 0
  Placed ov c =
      ((ov.status.community ≢ "") × (c ≡ ov.status.community))
      ⊎ ((ov.status.community ≡ "")
          × ((w : W) × (all : List NetworkOverlay) × ((client.list_overlays w).0 ≡ ok all)
              × (first_free cfg.asn ov.name all ≡ some c)))

  allocated_of :
      (asn : ℕ) (current : String) (w : W) (c : String)
      → (allocate_community client.list_overlays asn current w).0 ≡ ok c
      → (all : List NetworkOverlay) × ((client.list_overlays w).0 ≡ ok all)
        × (first_free asn current all ≡ some c)
  unfolding allocate_community
  allocated_of asn current w c h = elim (Result-cases (client.list_overlays w).0) [
    | inr (x, l) ↦ absurd (err-ne-ok (rw (l, allocate_community) at h))
    | inl (all, l) ↦ elim (Option-cases (first_free asn current all)) [
      | inl f ↦ absurd (err-ne-ok (rw (l, f, allocate_community) at h))
      | inr (c', f) ↦ (all, l, f ∙ ap some (ok-inj (rw (l, f, allocate_community) at h)))
    ]
  ]

  pub ensure_community_step :
      (ov new : NetworkOverlay) (s : Run W)
      → stored s.world ≡ some ov
      → (ensure_community client services deployments cfg rt ov s).0 ≡ ok new
      → (c : String) × (new ≡ with_community c ov)
        × Placed ov c
        × (stored (ensure_community client services deployments cfg rt ov s).1.world ≡ some new)
  unfolding ensure_community allocate_community
  ensure_community_step ov new s at_first h = elim (Bool-cases (ov.status.community == "")) [
    | inr p ↦
        let e : ensure_community client services deployments cfg rt ov s ≡ (ok ov, s) =
          rw (p, ensure_community) refl in
        let is : ov ≡ new = ok-inj (sym (ap (λ r. r.0) e) ∙ h) in
        (
          ov.status.community,
          sym is,
          inl (
            λ blank. ground (arith, p, blank, comparable_string.equal_iff ov.status.community ""),
            refl,
          ),
          ap (λ r. stored r.1.world) e ∙ at_first ∙ ap some is,
        )
    | inl p ↦
        let q = allocate_community client.list_overlays cfg.asn ov.name in
        let changed : String → NetworkOverlay = λ c. with_community c ov in
        let k : String → Action W NetworkOverlay =
          λ c. ask (services.patch_status ov (changed c)) in
        let begun : ensure_community client services deployments cfg rt ov s
            ≡ (query "allocate community" q >>= k) s =
          rw (p, ensure_community) refl in
        let (c, l, e, h') =
          then-ok (query "allocate community" q) k s new (sym (ap (λ r. r.0) begun) ∙ h) in
        let (is, now) =
          honest.patches_status (q s.world).1 ov (changed c) new
            (honest.kept.overlays s.world ∙ at_first) h' in
        let (all, listed, free) = allocated_of cfg.asn ov.name s.world c (wrap_err-ok _ _ c l) in
        (
          c,
          is,
          inr (
            ground (arith, p, comparable_string.equal_iff ov.status.community ""),
            (s.world, all, listed, free),
          ),
          ap (λ r. stored r.1.world) (begun ∙ e) ∙ now,
        )
  ]
