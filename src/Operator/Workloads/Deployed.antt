-- ===== src/Operator/Workloads/Deployed.antt =====
-- The internal agents of a cluster after `EnsureInternalDeployments`.
use pontifex.Base.{
  String, ◌<>◌, true, false, not, ◌&&◌, ◌||◌, List, [], ◌∷◌, map, Option, none, ◌≡◌, refl, sym, ◌∙◌,
  any, arith, ◌==◌, comparable_string, Bool-cases, Option-cases, inl, inr, is_some, if◌then◌else◌,
}
use pontifex.GoMap.{GoSet, has, index_by, Runtime, keys, entries}
use pontifex.GoMap.Ranges.{has_key, has-perm}
use pontifex.Effects.{ok, Run}
use pontifex.Effects.Converge.{Result-cases, err-ne-ok}
use pontifex.Api.{NetworkOverlay}
use pontifex.Operator.Cluster.{Node, Client}
use pontifex.Operator.Workloads.{
  Deployment, Deployments, node_of, internal_deployment, delete_deployment, delete_orphans,
  ensure_targets, ensure_internal_deployments, target_nodes,
}

module _ {S W : Type 0} (client : Client S W) (deployments : Deployments W)
    (namespace image : String) (view : W → String → Option Deployment) where
  -- What the operator relies on of the cluster: its Deployments of internal agents are keyed by the
  -- node of their label, a deletion that succeeds or finds nothing leaves none, and
  -- `CreateOrUpdate` of a node's Deployment that succeeds leaves one.
  pub record Honours : Type 0 where
    pub unchanged :
        (component : String) (w : W) → view (deployments.list namespace component w).1 ≡ view w
    pub complete :
        (w : W) (ds : List Deployment) (n : String)
        → (deployments.list namespace "pontifex-internal" w).0 ≡ ok ds
        → has_key node_of n ds ≡ is_some (view w n)
    pub gone :
        (d : Deployment) (w : W)
        → (delete_deployment client deployments d w).0 ≡ none
        → view (delete_deployment client deployments d w).1 (node_of d) ≡ none
    pub delete_others :
        (d : Deployment) (w : W) (n : String)
        → (node_of d == n) ≡ false
        → view (delete_deployment client deployments d w).1 n ≡ view w n
    pub there :
        (n : String) (w : W)
        → (deployments.create_or_update
            ("pontifex-internal-" <> n)
            namespace
            (internal_deployment image n)
            w).0
          ≡ none
        → is_some (
            view
              (deployments.create_or_update
                ("pontifex-internal-" <> n)
                namespace
                (internal_deployment image n)
                w).1
              n)
          ≡ true
    pub create_others :
        (n : String) (w : W) (k : String)
        → (n == k) ≡ false
        → view
            (deployments.create_or_update
              ("pontifex-internal-" <> n)
              namespace
              (internal_deployment image n)
              w).1
            k
          ≡ view w k

  module _ (honest : Honours) (k : String) where
    view_after_deletions :
        (targets : GoSet String) (ds : List Deployment) (s : Run W)
        → (delete_orphans client deployments targets ds s).0 ≡ ok tt
        → view (delete_orphans client deployments targets ds s).1.world k
          ≡ (if has_key node_of k ds && not (has k targets) then none else view s.world k)
    unfolding delete_orphans has_key
    view_after_deletions targets [] s h = refl
    view_after_deletions targets (d ∷ ds) s h = elim (Bool-cases (has (node_of d) targets)) [
      | inl p ↦
          rw (p, delete_orphans)
            (view_after_deletions targets ds s (rw (p, delete_orphans) at h)
              ∙ ground (arith, comparable_string.equal_iff (node_of d) k))
      | inr p ↦ elim (Option-cases (delete_deployment client deployments d s.world).0) [
        | inr (x, e) ↦ absurd (err-ne-ok (rw (p, e, delete_orphans) at h))
        | inl e ↦
            rw (p, e, delete_orphans)
              (view_after_deletions targets ds _ (rw (p, e, delete_orphans) at h)
                ∙ ground (
                  arith,
                  comparable_string.equal_iff (node_of d) k,
                  honest.gone d s.world e,
                  honest.delete_others d s.world k,
                ))
      ]
    ]

    view_after_creations :
        (names : List String) (s : Run W)
        → (ensure_targets client deployments namespace image names s).0 ≡ ok tt
        → is_some (view (ensure_targets client deployments namespace image names s).1.world k)
          ≡ (any (λ n. n == k) names || is_some (view s.world k))
    unfolding ensure_targets
    view_after_creations [] s h = refl
    view_after_creations (n ∷ names) s h =
        elim (Option-cases
          (deployments.create_or_update ("pontifex-internal-" <> n) namespace
            (internal_deployment image n) s.world).0) [
              | inr (x, e) ↦ absurd (err-ne-ok (rw (e, ensure_targets) at h))
              | inl e ↦
                  rw (e, ensure_targets)
                    (view_after_creations names _ (rw (e, ensure_targets) at h)
                      ∙ ground (
                        arith,
                        comparable_string.equal_iff n k,
                        honest.there n s.world e,
                        honest.create_others n s.world k,
                      ))
            ]

any-names : (k : String) (es : GoSet String) → any (λ n. n == k) (map (λ e. e.0) es) ≡ has k es
unfolding has
any-names k [] = refl
any-names k ((n, u) ∷ es) = ground (arith, any-names k es)

any-keys :
    (k : String) (rt : Runtime) (m : GoSet String) → any (λ n. n == k) (keys rt 0 m) ≡ has k m
unfolding keys entries
any-keys k rt m =
    any-names k (entries rt 0 m) ∙ sym (has-perm k (rt.range-perm (String × Unit {0}) 0 m))

module _ {S W : Type 0} (client : Client S W) (deployments : Deployments W)
    (namespace image label : String) (view : W → String → Option Deployment)
    (honest : Honours client deployments namespace image view) (rt : Runtime)
    (overlays : List NetworkOverlay) (s : Run W) where
  -- When `EnsureInternalDeployments` returns nil, the nodes with a Deployment of an internal agent are
  -- exactly the target nodes, for the gateways that the cluster has listed.
  pub agents_deployed :
      (ensure_internal_deployments client deployments rt namespace image label overlays s).0 ≡ ok tt
      → (nodes : List Node) × ((client.list_nodes_with_label label s.world).0 ≡ ok nodes)
        × ((k : String)
            → is_some (
                view
                  (ensure_internal_deployments client deployments rt namespace image label overlays
                    s).1.world
                  k)
              ≡ has k (target_nodes (index_by Node.name nodes []) overlays []))
  unfolding ensure_internal_deployments
  agents_deployed h = elim (Result-cases (client.list_nodes_with_label label s.world).0) [
    | inr (x, e) ↦ absurd (err-ne-ok (rw (e, ensure_internal_deployments) at h))
    | inl (nodes, e) ↦
        let w1 = (client.list_nodes_with_label label s.world).1 in
        let targets = target_nodes (index_by Node.name nodes []) overlays [] in
        elim (Result-cases (deployments.list namespace "pontifex-internal" w1).0) [
          | inr (x, l) ↦ absurd (err-ne-ok (rw (e, l, ensure_internal_deployments) at h))
          | inl (ds, l) ↦
              let s2 : Run W = record s {
                world = (deployments.list namespace "pontifex-internal" w1).1;
              } in
              elim (Result-cases (delete_orphans client deployments targets ds s2).0) [
                | inr (x, d) ↦ absurd (err-ne-ok (rw (e, l, d, ensure_internal_deployments) at h))
                | inl (u, d) ↦ (
                  nodes,
                  e,
                  λ k.
                      rw (e, l, d, ensure_internal_deployments)
                        (view_after_creations client deployments namespace image view honest k
                            (keys rt 0 targets) _ (rw (e, l, d, ensure_internal_deployments) at h)
                          ∙ ground (
                            arith,
                            any-keys k rt targets,
                            view_after_deletions client deployments namespace image view honest k
                                targets ds s2 d,
                            honest.complete w1 ds k l,
                            honest.unchanged "pontifex-internal" w1,
                          )),
                )
              ]
        ]
  ]
