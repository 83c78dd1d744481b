-- ===== src/Operator/Controller/Deletes.antt =====
-- The deletion of an overlay.
use pontifex.Base.{
  String, Bool, true, false, not, ◌&&◌, List, [], ◌∷◌, Option, ◌≡◌, refl, ap, ◌∙◌, ◌⊎◌, inl, inr,
  any, arith, ◌==◌, comparable_string, is_some,
}
use pontifex.GoMap.{Runtime, index_by}
use pontifex.Effects.{Result, ok, err, Error, Run, wrap}
use pontifex.Effects.Converge.{Result-cases}
use pontifex.Effects.Keeps.{KeepsQuery}
use pontifex.Api.{NetworkOverlay}
use pontifex.Operator.Cluster.{Node, Client}
use pontifex.Operator.Kept.{CallsKeep, ensure_internal_deployments-Keeps}
use pontifex.Operator.Workloads.{Deployment, Deployments, ensure_internal_deployments}
use pontifex.Operator.Workloads.Deployed as Deployed
use pontifex.Operator.Workloads.Deployed.{agents_deployed}
use pontifex.Operator.Workloads.Targets.{is_internal, serves_edge, has-target_nodes}
use pontifex.Config.{OperatorConfig}
use pontifex.Operator.Controller.{
  Services, contains_finalizer, remove_finalizer, others_than, handle_deletion, finalizer_name,
  without_finalizer,
}

-- A cluster that stores the finalizers of the overlay. A patch that succeeds writes them, whether or
-- not the object is gone then, and touches no Deployment; no other call changes them.
pub record Stores {S W : Type 0} (client : Client S W) (services : Services W)
    (deployments : Deployments W) (view : W → String → Option Deployment)
    (finalizers : W → List String) : Type 0 where
  pub kept : CallsKeep finalizers client deployments
  pub patched :
      (old new ov : NetworkOverlay) (w : W)
      → (services.patch old new w).0 ≡ ok ov
      → finalizers (services.patch old new w).1 ≡ new.finalizers
  pub deployments_kept : (old new : NetworkOverlay) → KeepsQuery view (services.patch old new)

any-others_than :
    (name : String) (test : NetworkOverlay → Bool) (all : List NetworkOverlay)
    → any test (others_than name all) ≡ any (λ o. not (o.name == name) && test o) all
any-others_than name test [] = refl
any-others_than name test (o ∷ os) = ground (arith, any-others_than name test os)

removed : (fs : List String) → any (λ f. f == finalizer_name) (without_finalizer fs) ≡ false
removed [] = refl
removed (f ∷ fs) = ground (arith, removed fs)

module _ {S W : Type 0} (client : Client S W) (services : Services W) (deployments : Deployments W)
    (cfg : OperatorConfig) (rt : Runtime) (view : W → String → Option Deployment)
    (honest : Deployed.Honours client deployments cfg.namespace cfg.agent_image view)
    (finalizers : W → List String)
    (stores : Stores client services deployments view finalizers) where
  -- The internal agents are those that the other overlays need: on the nodes, which are no gateways, of
  -- a ready edge of a listed overlay of another name than `ov`; the gateways are those listed at `v`.
  abbrev pub TornDown : NetworkOverlay → List NetworkOverlay → W → W → Type 0
  TornDown ov all v w =
      (nodes : List Node) × ((client.list_nodes_with_label cfg.gateway_node_label v).0 ≡ ok nodes)
      × ((k : String)
          → is_some (view w k) ≡ (
              is_internal (index_by Node.name nodes []) k
              && any (λ o. not (o.name == ov.name) && serves_edge k o.status.edges) all))

  abbrev teardown : NetworkOverlay → List NetworkOverlay → W → Result (Unit {0}) × Run W
  teardown ov all w =
      ensure_internal_deployments client deployments rt cfg.namespace cfg.agent_image
        cfg.gateway_node_label (others_than ov.name all) (record { errs = []; world = w })

  teardown-TornDown :
      (ov : NetworkOverlay) (all : List NetworkOverlay) (w : W)
      → (teardown ov all w).0 ≡ ok tt
      → TornDown ov all w (teardown ov all w).1.world
  teardown-TornDown ov all w h =
      let (nodes, l, exact) =
        agents_deployed client deployments cfg.namespace cfg.agent_image cfg.gateway_node_label view
          honest rt (others_than ov.name all) (record { errs = []; world = w }) h in
      (
        nodes,
        l,
        λ k.
            exact k
            ∙ has-target_nodes (index_by Node.name nodes []) k (others_than ov.name all)
            ∙ ap (λ b. is_internal (index_by Node.name nodes []) k && b)
                (any-others_than ov.name (λ o. serves_edge k o.status.edges) all),
      )

  -- Why a deletion ends before the patch: the overlays cannot be listed, or the teardown fails.
  abbrev pub Refused : NetworkOverlay → W → Error → Type 0
  Refused ov w x =
      ((client.list_overlays w).0 ≡ err x)
      ⊎ ((all : List NetworkOverlay) × (y : Error) × ((client.list_overlays w).0 ≡ ok all)
          × ((teardown ov all (client.list_overlays w).1).0 ≡ err y)
          × (x ≡ wrap "teardown internal deployments" y))

  -- How a deletion ends: with an error and the stored finalizers as they were, or with the listed
  -- overlays torn down, and then with an error or without the finalizer.
  abbrev pub Ends : NetworkOverlay → W → Result (Unit {0}) × Run W → Type 0
  Ends ov w out =
      ((x : Error) × (out.0 ≡ err x) × Refused ov w x × (finalizers out.1.world ≡ finalizers w))
      ⊎ ((all : List NetworkOverlay) × ((client.list_overlays w).0 ≡ ok all)
          × TornDown ov all (client.list_overlays w).1 out.1.world
          × (((x : Error) × (v : W) × ((services.patch ov (remove_finalizer ov) v).0 ≡ err x)
                × (out.0 ≡ err x))
              ⊎ ((out.0 ≡ ok tt)
                  × (any (λ f. f == finalizer_name) (finalizers out.1.world) ≡ false))))

  -- The finalizer of an overlay goes last. Whatever the deletion of an overlay that has it meets, it
  -- ends in one of three ways: with the error of the listing or the teardown, and the stored
  -- finalizers are as they were; with the error of the patch, and the internal agents are exactly those that the listed overlays of other names need; or
  -- with nil, and the agents are those and the finalizer is not stored any more.
  pub finalizer_last :
      (ov : NetworkOverlay) (w : W)
      → contains_finalizer ov ≡ true
      → Ends ov w
          (handle_deletion client services deployments cfg rt ov (record { errs = []; world = w }))
  unfolding handle_deletion
  finalizer_last ov w has_it = elim (Result-cases (client.list_overlays w).0) [
    | inr (x, l) ↦ rw (has_it, l, handle_deletion) (inl (x, refl, inl refl, stores.kept.overlays w))
    | inl (all, l) ↦
        let w1 = (client.list_overlays w).1 in
        let down = teardown ov all w1 in
        elim (Result-cases down.0) [
          | inr (x, t) ↦
              rw (has_it, l, t, handle_deletion)
                (inl (
                  wrap "teardown internal deployments" x,
                  refl,
                  inr (all, x, refl, t, refl),
                  (ensure_internal_deployments-Keeps finalizers client deployments stores.kept rt
                          cfg.namespace cfg.agent_image cfg.gateway_node_label
                          (others_than ov.name all)).keeps
                        _
                      ∙ stores.kept.overlays w,
                ))
          | inl (u, t) ↦
              let new = remove_finalizer ov in
              let w2 = down.1.world in
              let (nodes, listed, exact) = teardown-TornDown ov all w1 t in
              let still = stores.deployments_kept ov new w2 in
              let done : TornDown ov all w1 (services.patch ov new w2).1 =
                (nodes, listed, λ k. ap (λ f. is_some (f k)) still ∙ exact k) in
              elim (Result-cases (services.patch ov new w2).0) [
                | inl (o, p) ↦
                    rw (has_it, l, t, p, handle_deletion)
                      (inr (
                        all,
                        refl,
                        done,
                        inr (
                          refl,
                          ap (any (λ f. f == finalizer_name)) (stores.patched ov new o w2 p)
                              ∙ removed ov.finalizers,
                        ),
                      ))
                | inr (x, p) ↦
                    rw (has_it, l, t, p, handle_deletion)
                      (inr (all, refl, done, inl (x, w2, p, refl)))
              ]
        ]
  ]
