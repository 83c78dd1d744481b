-- ===== src/Operator/Controller/Preserved.antt =====
-- Each step of a reconciliation of an overlay keeps the communities of all overlays sound.
use pontifex.Base.{
  String, List, [], some, ◌≡◌, refl, sym, ap, ◌∙◌, inl, inr, ◌==◌, comparable_string, Bool-cases,
  Option-cases, subst,
}
use pontifex.GoMap.{Runtime}
use pontifex.Effects.{ok, Action, ask, wrapping}
use pontifex.Effects.Converge.{Result-cases}
use pontifex.Effects.Keeps.{Keeps, ask-Keeps, query-Keeps, stop-Keeps, wrapping-Keeps}
use pontifex.Effects.Preserves.{
  Preserves, then-Preserves, pure-Preserves, ask-Preserves, if-Preserves, keeps-Preserves,
}
use pontifex.Api.{NetworkOverlay}
use pontifex.Config.{OperatorConfig}
use pontifex.Operator.Cluster.{Client}
use pontifex.Operator.Community.{first_free, allocate_community}
use pontifex.Operator.Community.Fresh.{first_free_least}
use pontifex.Operator.Kept.{
  ensure_gateway_deployments-Keeps, ensure_internal_deployments-Keeps, resolve_edges-Keeps,
}
use pontifex.Operator.Edges.{resolve_edges}
use pontifex.Operator.Gateways.{build_gateways}
use pontifex.Operator.Workloads.{Deployments, ensure_internal_deployments}
use pontifex.Operator.Controller.{
  Services, ensure_finalizer, ensure_gateways, ensure_community, ensure_keys, ensure_edges,
  handle_deletion, ensure_agents, ensure_live, reconcile_overlay, reconcile, with_community,
  with_edges, with_keys, with_gateways, contains_finalizer, add_finalizer, remove_finalizer,
  others_than, deep_equal, edge_equal,
}
use pontifex.Operator.Controller.Unique.{Communities, Sound, fewer-Sound, placed-Sound, untaken}

module _ {S W : Type 0} (client : Client S W) (services : Services W) (deployments : Deployments W)
    (cfg : OperatorConfig) (rt : Runtime) (communities : W → String → String)
    (stores : Communities client services deployments communities) where
  abbrev AllSound : W → Type 0
  AllSound w = Sound cfg.asn (communities w)

  -- The patch that gives an overlay its community.
  place-Sound :
      (ov : NetworkOverlay) (all : List NetworkOverlay) (c : String) (w : W)
      → (client.list_overlays w).0 ≡ ok all
      → first_free cfg.asn ov.name all ≡ some c
      → AllSound w
      → AllSound (services.patch_status ov (with_community c ov) (client.list_overlays w).1).1
  place-Sound ov all c w listed free h =
      let (k, e, _, lt, unused, _) = first_free_least cfg.asn ov.name all c free in
      let same = stores.kept.overlays w in
      let w1 = (client.list_overlays w).1 in
      placed-Sound cfg.asn k ov.name (communities w)
        (communities (services.patch_status ov (with_community c ov) w1).1) lt
        (λ n some' other is.
          untaken ov.name c n (communities w n) all other unused (stores.lists w all n listed some')
            (is ∙ sym e))
        (λ n. elim (stores.patches_status ov (with_community c ov) w1 n) [
          | inl kept ↦ inl (kept ∙ ap (λ f. f n) same)
          | inr (own, is) ↦ inr (own, is ∙ e)
        ])
        h

  ensure_community-Preserves :
      (ov : NetworkOverlay)
      → Preserves AllSound (ensure_community client services deployments cfg rt ov)
  unfolding ensure_community allocate_community
  ensure_community-Preserves ov = record {
    preserves = λ s h. elim (Bool-cases (ov.status.community == "")) [
      | inr p ↦ rw (p, ensure_community) h
      | inl p ↦
          let same = subst (Sound cfg.asn) (sym (stores.kept.overlays s.world)) h in
          elim (Result-cases (client.list_overlays s.world).0) [
            | inr (x, l) ↦ rw (p, l, ensure_community, allocate_community) same
            | inl (all, l) ↦ elim (Option-cases (first_free cfg.asn ov.name all)) [
              | inl f ↦ rw (p, l, f, ensure_community, allocate_community) same
              | inr (c, f) ↦
                  rw (p, l, f, ensure_community, allocate_community)
                    (place-Sound ov all c s.world l f h)
            ]
          ]
    ];
  }

  patch_status-Preserves :
      (old new : NetworkOverlay)
      → old.status.community ≡ new.status.community
      → Preserves AllSound (ask (services.patch_status old new))
  patch_status-Preserves old new e =
      ask-Preserves AllSound (services.patch_status old new)
        λ w h. subst (Sound cfg.asn) (sym (stores.same_status old new w e)) h

  patch-Preserves : (old new : NetworkOverlay) → Preserves AllSound (ask (services.patch old new))
  patch-Preserves old new = ask-Preserves AllSound (services.patch old new) λ w h.
      fewer-Sound cfg.asn (communities w) (communities (services.patch old new w).1)
        (stores.patches old new w) h

  kept : {A : Type 0} {m : Action W A} → Keeps communities m → Preserves AllSound m
  kept h = keeps-Preserves communities (Sound cfg.asn) h

  internal-Preserves :
      (text : String) (all : List NetworkOverlay)
      → Preserves AllSound (
          wrapping text (
            ensure_internal_deployments client deployments rt cfg.namespace cfg.agent_image
              cfg.gateway_node_label all))
  internal-Preserves text all = kept (
      wrapping-Keeps communities text (
        ensure_internal_deployments-Keeps communities client deployments stores.kept rt
          cfg.namespace cfg.agent_image cfg.gateway_node_label all))

  ensure_edges-Preserves :
      (ov : NetworkOverlay)
      → Preserves AllSound (ensure_edges client services deployments cfg rt ov)
  unfolding ensure_edges
  ensure_edges-Preserves ov =
      then-Preserves AllSound
        (kept (
          query-Keeps communities "resolve edges" (resolve_edges client cfg.gateway_node_label ov) (
            resolve_edges-Keeps communities client deployments stores.kept cfg.gateway_node_label
              ov)))
        λ edges.
          if-Preserves AllSound (deep_equal edge_equal ov.status.edges edges)
            (pure-Preserves AllSound ov) (patch_status-Preserves ov (with_edges edges ov) refl)

  ensure_agents-Preserves :
      (ov : NetworkOverlay)
      → Preserves AllSound (ensure_agents client services deployments cfg rt ov)
  unfolding ensure_agents
  ensure_agents-Preserves ov =
      then-Preserves AllSound
        (kept (stop-Keeps communities _ (services.ensure_rbac cfg.namespace) (stores.rbac _)))
        λ _.
          then-Preserves AllSound
            (kept (ask-Keeps communities client.list_overlays stores.kept.overlays))
            λ all.
              then-Preserves AllSound
                (kept (
                  wrapping-Keeps communities "ensure gateway deployments" (
                    ensure_gateway_deployments-Keeps communities client deployments stores.kept rt
                      cfg.namespace cfg.agent_image cfg.gateway_node_label all)))
                λ _.
                  then-Preserves AllSound (internal-Preserves "ensure internal deployments" all)
                    λ _.
                      then-Preserves AllSound (ensure_edges-Preserves ov)
                        λ _. pure-Preserves AllSound tt

  ensure_live-Preserves :
      (found : NetworkOverlay)
      → Preserves AllSound (ensure_live client services deployments cfg rt found)
  unfolding ensure_live ensure_finalizer ensure_gateways ensure_keys
  ensure_live-Preserves found =
      then-Preserves AllSound
        (if-Preserves AllSound (contains_finalizer found) (pure-Preserves AllSound found)
          (patch-Preserves found (add_finalizer found)))
        λ finalized.
          then-Preserves AllSound
            (then-Preserves AllSound
              (kept (
                ask-Keeps communities (client.list_nodes_with_label cfg.gateway_node_label)
                  (stores.kept.nodes _)))
              λ nodes. if-Preserves AllSound _ (pure-Preserves AllSound finalized) (
                patch_status-Preserves finalized
                  (with_gateways (build_gateways nodes cfg.gateway_node_label) finalized) refl))
            λ gated. then-Preserves AllSound (ensure_community-Preserves gated) λ placed.
              then-Preserves AllSound
                (then-Preserves AllSound
                  (kept (
                    query-Keeps communities "ensure WG keypair" (services.ensure_key_pair placed)
                      (stores.keys placed)))
                  λ made. if-Preserves AllSound _ (pure-Preserves AllSound placed) (
                    patch_status-Preserves placed (with_keys made.0 made.1 cfg.namespace placed)
                      refl))
                λ keyed. ensure_agents-Preserves keyed

  handle_deletion-Preserves :
      (ov : NetworkOverlay)
      → Preserves AllSound (handle_deletion client services deployments cfg rt ov)
  unfolding handle_deletion
  handle_deletion-Preserves ov =
      if-Preserves AllSound (contains_finalizer ov)
        (then-Preserves AllSound
          (kept (ask-Keeps communities client.list_overlays stores.kept.overlays))
          λ all.
            then-Preserves AllSound
              (internal-Preserves "teardown internal deployments" (others_than ov.name all))
              λ _.
                then-Preserves AllSound (patch-Preserves ov (remove_finalizer ov))
                  λ _. pure-Preserves AllSound tt)
        (pure-Preserves AllSound tt)

  -- Whatever a reconciliation of an overlay returns.
  pub reconcile-Sound :
      (name : String) (w : W)
      → Sound cfg.asn (communities w)
      → Sound cfg.asn (communities (reconcile client services deployments cfg rt name w).1)
  unfolding reconcile reconcile_overlay
  reconcile-Sound name w h =
      let got = subst (Sound cfg.asn) (sym (stores.gets name w)) h in
      elim (Result-cases (services.get_overlay name w).0) [
        | inr (x, l) ↦ elim (Bool-cases (deployments.is_not_found x)) [
          | inl p ↦ rw (l, p, reconcile) got
          | inr p ↦ rw (l, p, reconcile) got
        ]
        | inl (ov, l) ↦
            rw (l, reconcile)
              ((if-Preserves AllSound ov.deleting (handle_deletion-Preserves ov)
                  (ensure_live-Preserves ov)).preserves
                (record { errs = []; world = (services.get_overlay name w).1 }) got)
      ]
