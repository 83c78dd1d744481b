-- ===== src/Operator/Controller/Reconciled.antt =====
-- What a reconciliation that succeeds makes of an overlay.
use pontifex.Base.{String, true, List, Option, ◌≡◌, sym, ap, ◌∙◌, subst, [], comparable_string}
use pontifex.GoMap.{Runtime, index_by}
use pontifex.Effects.{ok}
use pontifex.Api.{NetworkOverlay, EdgeStatus, SecretReference}
use pontifex.Config.{OperatorConfig}
use pontifex.Operator.Cluster.{Client, Node}
use pontifex.Operator.Edges.Resolved.{Matches}
use pontifex.Operator.Gateways.{build_gateways}
use pontifex.Operator.Workloads.{Deployments}
use pontifex.Operator.Controller.{
  Services, contains_finalizer, with_gateways, with_community, with_edges, names_secret,
}
use pontifex.Operator.Controller.Contract.{Honours}
use pontifex.Operator.Controller.Places.{Placed}

module _ {S W : Type 0} (client : Client S W) (services : Services W) (deployments : Deployments W)
    (cfg : OperatorConfig) (rt : Runtime) (name : String) (stored : W → Option NetworkOverlay)
    (honest : Honours client services deployments name stored) where
  -- What a reconciliation makes of an overlay that it finds.
  pub record Reconciled (found final : NetworkOverlay) : Type 0 where
    pub same_name : final.name ≡ found.name
    pub same_spec : final.spec ≡ found.spec
    pub finalizer : contains_finalizer final ≡ true
    pub gateways :
        (nodes : List Node) × (w : W) × ((client.list_nodes_with_label cfg.gateway_node_label w).0
          ≡ ok nodes)
        × (final.status.gateways ≡ build_gateways nodes cfg.gateway_node_label)
    pub community :
        Placed client services deployments cfg rt name stored honest found final.status.community
    pub keys :
        (ov : NetworkOverlay) × (w : W) × (secret : String) × ((services.ensure_key_pair ov w).0
          ≡ ok (final.status.public_key, secret))
        × (names_secret secret final.status.wg_secret_ref ≡ true)
    pub edges :
        (nodes : List Node) × (w : W) × ((client.list_nodes_with_label cfg.gateway_node_label w).0
          ≡ ok nodes)
        × Matches client (index_by Node.name nodes []) found.spec.edges final.status.edges

  -- The four writes before the edges, one after the other.
  pub chain-Reconciled :
      (found finalized gated placed keyed : NetworkOverlay) (fs : List String)
      → finalized ≡ record found { finalizers = fs }
      → contains_finalizer finalized ≡ true
      → (nodes : List Node) (w : W)
      → (client.list_nodes_with_label cfg.gateway_node_label w).0 ≡ ok nodes
      → gated ≡ with_gateways (build_gateways nodes cfg.gateway_node_label) finalized
      → (c : String) → placed ≡ with_community c gated
      → Placed client services deployments cfg rt name stored honest gated c
      → (key secret : String) (ref : Option SecretReference) (w' : W)
      → (services.ensure_key_pair placed w').0 ≡ ok (key, secret)
      → names_secret secret ref ≡ true
      → keyed
        ≡ record placed { status = record placed.status { public_key = key; wg_secret_ref = ref } }
      → (nodes' : List Node) (edges : List EdgeStatus)
      → ((w : W) × ((client.list_nodes_with_label cfg.gateway_node_label w).0 ≡ ok nodes'))
      → Matches client (index_by Node.name nodes' []) keyed.spec.edges edges
      → Reconciled found (with_edges edges keyed)
  chain-Reconciled found finalized gated placed keyed fs is1 has_it nodes w listed is2 c is3 place
        key secret ref w' made named is4 nodes' edges listed' found_edges =
      record {
        same_name =
            ap NetworkOverlay.name is4
            ∙ ap NetworkOverlay.name is3
            ∙ ap NetworkOverlay.name is2
            ∙ ap NetworkOverlay.name is1;
        same_spec = spec_is;
        finalizer =
            ap contains_finalizer is4
            ∙ ap contains_finalizer is3
            ∙ ap contains_finalizer is2
            ∙ has_it;
        gateways = (
          nodes,
          w,
          listed,
          ap (λ o. o.status.gateways) is4
              ∙ ap (λ o. o.status.gateways) is3
              ∙ ap (λ o. o.status.gateways) is2,
        );
        community =
            subst (Placed client services deployments cfg rt name stored honest found)
              (sym (ap (λ o. o.status.community) is4 ∙ ap (λ o. o.status.community) is3))
              (subst (λ o. Placed client services deployments cfg rt name stored honest o c)
                (is2 ∙ ap (with_gateways _) is1) place);
        keys = (
          placed,
          w',
          secret,
          made ∙ ap (λ k. ok (k, secret)) (sym (ap (λ o. o.status.public_key) is4)),
          ap (λ o. names_secret secret o.status.wg_secret_ref) is4 ∙ named,
        );
        edges = (
          nodes',
          listed'.0,
          listed'.1,
          subst (λ sp. Matches client (index_by Node.name nodes' []) sp.edges edges) spec_is
              found_edges,
        );
      }
    where
      spec_is : keyed.spec ≡ found.spec
      spec_is =
          ap NetworkOverlay.spec is4
          ∙ ap NetworkOverlay.spec is3
          ∙ ap NetworkOverlay.spec is2
          ∙ ap NetworkOverlay.spec is1
