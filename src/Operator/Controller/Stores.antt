-- ===== src/Operator/Controller/Stores.antt =====
-- What is stored when a reconciliation has succeeded.
use pontifex.Base.{
  String, false, List, Option, none, some, ◌≡◌, refl, sym, ap, ◌∙◌, [], comparable_string,
}
use pontifex.GoMap.{Runtime, index_by}
use pontifex.Effects.{Result, ok, err, Run, Action, ◌>>=◌, ◌>>◌, pure, ask, stop, wrapping}
use pontifex.Effects.Keeps.{then-ok}
use pontifex.Api.{NetworkOverlay, EdgeStatus}
use pontifex.Config.{OperatorConfig}
use pontifex.Operator.Cluster.{Client, Node}
use pontifex.Operator.Edges.Resolved.{Matches}
use pontifex.Operator.Kept.{ensure_gateway_deployments-Keeps, ensure_internal_deployments-Keeps}
use pontifex.Operator.Workloads.{Deployments, ensure_internal_deployments}
use pontifex.Operator.Workloads.Gateways.{ensure_gateway_deployments}
use pontifex.Operator.Controller.{
  Services, with_edges, ensure_finalizer, ensure_gateways, ensure_community, ensure_keys,
  ensure_edges, ensure_agents, ensure_live, reconcile, as_error,
}
use pontifex.Operator.Controller.Contract.{Honours}
use pontifex.Operator.Controller.Live.{reconcile-live}
use pontifex.Operator.Controller.Steps.{ensure_finalizer_step, ensure_gateways_step}
use pontifex.Operator.Controller.Places.{ensure_community_step}
use pontifex.Operator.Controller.Fills.{ensure_keys_step, ensure_edges_step}
use pontifex.Operator.Controller.Reconciled.{Reconciled, chain-Reconciled}

as_error-none : (r : Result (Unit {0})) → as_error r ≡ none → r ≡ ok tt
as_error-none (ok u) h = refl
as_error-none (err x) h = cc

module _ {S W : Type 0} (client : Client S W) (services : Services W) (deployments : Deployments W)
    (cfg : OperatorConfig) (rt : Runtime) (name : String) (stored : W → Option NetworkOverlay)
    (honest : Honours client services deployments name stored) where
  -- After the keys, only the edges are written.
  ensure_agents_step :
      (ov : NetworkOverlay) (s : Run W)
      → stored s.world ≡ some ov
      → (ensure_agents client services deployments cfg rt ov s).0 ≡ ok tt
      → (nodes : List Node) × (edges : List EdgeStatus) × ((w : W) × ((client.list_nodes_with_label
              cfg.gateway_node_label w).0
            ≡ ok nodes))
        × Matches client (index_by Node.name nodes []) ov.spec.edges edges
        × (stored (ensure_agents client services deployments cfg rt ov s).1.world
            ≡ some (with_edges edges ov))
  unfolding ensure_agents
  ensure_agents_step ov s at_first h =
      let gateways : List NetworkOverlay → Action W (Unit {0}) = λ all.
        wrapping "ensure gateway deployments" (
          ensure_gateway_deployments client deployments rt cfg.namespace cfg.agent_image
            cfg.gateway_node_label all) in
      let internals : List NetworkOverlay → Action W (Unit {0}) = λ all.
        wrapping "ensure internal deployments" (
          ensure_internal_deployments client deployments rt cfg.namespace cfg.agent_image
            cfg.gateway_node_label all) in
      let end : Action W (Unit {0}) =
        ensure_edges client services deployments cfg rt ov >>= λ _. pure tt in
      let (_, _, e1, h1) =
        then-ok (stop "ensure agent RBAC" (services.ensure_rbac cfg.namespace))
          (λ _. ask client.list_overlays >>= λ all. gateways all >> (internals all >> end)) s tt
          h in
      let (all, _, e2, h2) =
        then-ok (ask client.list_overlays) (λ all. gateways all >> (internals all >> end)) _ tt
          h1 in
      let (_, _, e3, h3) = then-ok (gateways all) (λ _. internals all >> end) _ tt h2 in
      let (_, _, e4, h4) = then-ok (internals all) (λ _. end) _ tt h3 in
      let (new, done, e5, _) =
        then-ok (ensure_edges client services deployments cfg rt ov) (λ _. pure tt) _ tt h4 in
      let image = cfg.agent_image in
      let label = cfg.gateway_node_label in
      let (nodes, edges, is, listed, found, now) =
        ensure_edges_step client services deployments cfg rt name stored honest ov new _
          ((ensure_internal_deployments-Keeps stored client deployments honest.kept rt cfg.namespace
                image label all).keeps
              _
            ∙ (ensure_gateway_deployments-Keeps stored client deployments honest.kept rt
                  cfg.namespace image label all).keeps
                _
            ∙ honest.kept.overlays _
            ∙ honest.rbac cfg.namespace s.world
            ∙ at_first)
          done in
      (
        nodes,
        edges,
        (_, listed),
        found,
        ap (λ r. stored r.1.world) (e1 ∙ e2 ∙ e3 ∙ e4 ∙ e5) ∙ now ∙ ap some is,
      )

  ensure_live_step :
      (found : NetworkOverlay) (s : Run W)
      → stored s.world ≡ some found
      → (ensure_live client services deployments cfg rt found s).0 ≡ ok tt
      → (final : NetworkOverlay) × (stored
            (ensure_live client services deployments cfg rt found s).1.world
          ≡ some final)
        × Reconciled client services deployments cfg rt name stored honest found final
  unfolding ensure_live
  ensure_live_step found s at_first h =
      let k3 : NetworkOverlay → Action W (Unit {0}) = λ placed.
        ensure_keys client services deployments cfg rt placed
        >>= ensure_agents client services deployments cfg rt in
      let k2 : NetworkOverlay → Action W (Unit {0}) =
        λ gated. ensure_community client services deployments cfg rt gated >>= k3 in
      let k1 : NetworkOverlay → Action W (Unit {0}) =
        λ finalized. ensure_gateways client services deployments cfg rt finalized >>= k2 in
      let (finalized, d1, e1, h1) =
        then-ok (ensure_finalizer client services deployments cfg rt found) k1 s tt h in
      let (gated, d2, e2, h2) =
        then-ok (ensure_gateways client services deployments cfg rt finalized) k2 _ tt h1 in
      let (placed, d3, e3, h3) =
        then-ok (ensure_community client services deployments cfg rt gated) k3 _ tt h2 in
      let (keyed, d4, e4, h4) =
        then-ok (ensure_keys client services deployments cfg rt placed)
          (ensure_agents client services deployments cfg rt) _ tt h3 in
      let (fs, is1, has_it, st1) =
        ensure_finalizer_step client services deployments cfg rt name stored honest found finalized
          s at_first d1 in
      let (nodes, listed, is2, st2) =
        ensure_gateways_step client services deployments cfg rt name stored honest finalized gated _
          st1 d2 in
      let (c, is3, place, st3) =
        ensure_community_step client services deployments cfg rt name stored honest gated placed _
          st2 d3 in
      let (key, secret, ref, made, named, is4, st4) =
        ensure_keys_step client services deployments cfg rt name stored honest placed keyed _ st3
          d4 in
      let (nodes', edges, listed', found_edges, st5) = ensure_agents_step keyed _ st4 h4 in
      (
        with_edges edges keyed,
        ap (λ r. stored r.1.world) (e1 ∙ e2 ∙ e3 ∙ e4) ∙ st5,
        chain-Reconciled client services deployments cfg rt name stored honest found finalized gated
            placed keyed fs is1 has_it nodes _ listed is2 c is3 place key secret ref _ made named
            is4 nodes' edges listed' found_edges,
      )

  -- In a cluster that stores the overlay: when `Reconcile` finds it, not being deleted, and returns
  -- nil, then what is stored has the overlay's name and spec, the finalizer, the gateways of the
  -- labelled nodes that the cluster listed, the community that the overlay had or else the first one
  -- that no other listed overlay had, a public key and a secret that the key generator gave, and a
  -- status for each edge that matches the pods.
  pub reconcile_stores :
      (found : NetworkOverlay) (w w' : W)
      → (services.get_overlay name w).0 ≡ ok found
      → found.deleting ≡ false
      → reconcile client services deployments cfg rt name w ≡ (none, w')
      → (final : NetworkOverlay) × (stored w' ≡ some final)
        × Reconciled client services deployments cfg rt name stored honest found final
  reconcile_stores found w w' got live h =
      let w1 = (services.get_overlay name w).1 in
      let e = reconcile-live client services deployments cfg rt name w found got live in
      let done = as_error-none _ (sym (ap (λ p. p.0) e) ∙ ap (λ p. p.0) h) in
      let (final, st, is) =
        ensure_live_step found (record { errs = []; world = w1 }) (honest.gets w found got) done in
      (final, ap stored (sym (ap (λ p. p.1) h) ∙ ap (λ p. p.1) e) ∙ st, is)
