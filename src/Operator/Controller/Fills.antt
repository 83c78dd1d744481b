-- ===== src/Operator/Controller/Fills.antt =====
-- The steps of a reconciliation that give the stored overlay its keys and its edges.
use pontifex.Base.{
  String, Bool, true, List, [], Option, some, ◌≡◌, refl, ap, ◌∙◌, inl, inr, if◌then◌else◌, ◌==◌,
  ◌&&◌, ==-self, comparable_string,
}
use pontifex.GoMap.{Runtime, index_by}
use pontifex.Effects.{ok, Run, pure, ask, query}
use pontifex.Effects.Keeps.{then-ok}
use pontifex.Api.{NetworkOverlay, EdgeStatus, SecretReference}
use pontifex.Config.{OperatorConfig}
use pontifex.Operator.Cluster.{Client, Node}
use pontifex.Operator.Edges.{resolve_edges}
use pontifex.Operator.Edges.Resolved.{Matches, resolve_edges-Matches}
use pontifex.Operator.Kept.{resolve_edges-Keeps}
use pontifex.Operator.Workloads.{Deployments}
use pontifex.Operator.Controller.{
  Services, edge_equal, deep_equal, with_edges, with_keys, names_secret, ensure_keys, ensure_edges,
}
use pontifex.Operator.Controller.Contract.{Honours}
use pontifex.Operator.Controller.Equal.{split_and, same, equal_edges}
use pontifex.Operator.Controller.Steps.{status_step, wrap_err-ok}

module _ {S W : Type 0} (client : Client S W) (services : Services W) (deployments : Deployments W)
    (cfg : OperatorConfig) (rt : Runtime) (name : String) (stored : W → Option NetworkOverlay)
    (honest : Honours client services deployments name stored) where
  pub ensure_keys_step :
      (ov new : NetworkOverlay) (s : Run W)
      → stored s.world ≡ some ov
      → (ensure_keys client services deployments cfg rt ov s).0 ≡ ok new
      → (public_key secret : String) × (ref : Option SecretReference) × ((services.ensure_key_pair
            ov s.world).0
          ≡ ok (public_key, secret))
        × (names_secret secret ref ≡ true)
        × (new ≡ record ov {
          status = record ov.status { public_key = public_key; wg_secret_ref = ref };
        })
        × (stored (ensure_keys client services deployments cfg rt ov s).1.world ≡ some new)
  unfolding ensure_keys
  ensure_keys_step ov new s at_first h =
      let had : String × String → Bool =
        λ p. ov.status.public_key == p.0 && names_secret p.1 ov.status.wg_secret_ref in
      let changed : String × String → NetworkOverlay = λ p. with_keys p.0 p.1 cfg.namespace ov in
      let (p, l, e, h') =
        then-ok (query "ensure WG keypair" (services.ensure_key_pair ov))
          (λ p. if had p then pure ov else ask (services.patch_status ov (changed p))) s new h in
      let (which, now) =
        status_step client services deployments cfg rt name stored honest (had p) ov (changed p) new
          _ (honest.keys ov s.world ∙ at_first) refl h' in
      let kept = ap (λ r. stored r.1.world) e ∙ now in
      elim which [
        | inl (t, is) ↦
            let (key, named) = split_and _ _ t in
            (
              p.0,
              p.1,
              ov.status.wg_secret_ref,
              wrap_err-ok _ _ p l,
              named,
              is
                  ∙ ap (λ k. record ov { status = record ov.status { public_key = k } })
                      (same ov.status.public_key p.0 key),
              kept,
            )
        | inr (t, is) ↦ (
          p.0,
          p.1,
          some (record { name = p.1; namespace = cfg.namespace }),
          wrap_err-ok _ _ p l,
          ==-self p.1,
          is,
          kept,
        )
      ]

  pub ensure_edges_step :
      (ov new : NetworkOverlay) (s : Run W)
      → stored s.world ≡ some ov
      → (ensure_edges client services deployments cfg rt ov s).0 ≡ ok new
      → (nodes : List Node) × (edges : List EdgeStatus) × (new ≡ with_edges edges ov)
        × ((client.list_nodes_with_label cfg.gateway_node_label s.world).0 ≡ ok nodes)
        × Matches client (index_by Node.name nodes []) ov.spec.edges edges
        × (stored (ensure_edges client services deployments cfg rt ov s).1.world ≡ some new)
  unfolding ensure_edges
  ensure_edges_step ov new s at_first h =
      let label = cfg.gateway_node_label in
      let q = resolve_edges client label ov in
      let same_edges : List EdgeStatus → Bool =
        λ edges. deep_equal edge_equal ov.status.edges edges in
      let (edges, l, e, h') =
        then-ok (query "resolve edges" q)
          (λ edges.
            if same_edges edges
            then pure ov
            else ask (services.patch_status ov (with_edges edges ov)))
          s new h in
      let (which, now) =
        status_step client services deployments cfg rt name stored honest (same_edges edges) ov
          (with_edges edges ov) new _
          (resolve_edges-Keeps stored client deployments honest.kept label ov s.world ∙ at_first)
          refl h' in
      let (nodes, listed, found) =
        resolve_edges-Matches client label ov s.world edges (wrap_err-ok _ _ edges l) in
      (
        nodes,
        edges,
        elim which [
          | inl (p, is) ↦ is ∙ ap (λ es. with_edges es ov) (equal_edges ov.status.edges edges p)
          | inr (p, is) ↦ is
        ],
        listed,
        found,
        ap (λ r. stored r.1.world) e ∙ now,
      )
