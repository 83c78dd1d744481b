-- ===== src/Operator/Workloads/Gateways/Pinned.antt =====
-- The Deployments of the gateway agents after `EnsureGatewayDeployments`.
use pontifex.Base.{
  String, ◌<>◌, false, List, [], ◌∷◌, Option, none, some, map, ◌≡◌, refl, sym, ap, ◌∙◌, ◌==◌, ◌⊎◌,
  subst, comparable_string, if◌then◌else◌, inl, inr, Option-cases, Permᴰ,
}
use pontifex.GoMap.{GoMap, Runtime, entries}
use pontifex.GoSort.{SortedBy}
use pontifex.Effects.{Call, ok, Run, Action, pure, ask, stop}
use pontifex.Effects.Converge.{err-ne-ok}
use pontifex.Effects.Keeps.{then-ok}
use pontifex.Api.{NetworkOverlay}
use pontifex.Operator.Cluster.{Node, Client}
use pontifex.Operator.Workloads.{Volume, VolumeMount, Container, Deployment, Deployments}
use pontifex.Operator.Workloads.Gateways.{
  by_role, sort_roles, first_node, chosen_node, gateway_deployment, build_wg_volumes, ensure_roles,
  ensure_gateway_deployments,
}
use pontifex.Operator.Workloads.Gateways.Chosen.{with_role, chosen_smallest}

-- A cluster that keeps Deployments by name in a namespace. `CreateOrUpdate` that succeeds leaves what
-- the function makes of the Deployment that was there or of a new one, and no call touches another
-- name.
pub record Keyed {W : Type 0} (deployments : Deployments W) (namespace : String)
    (view : W → String → Option Deployment) : Type 0 where
  pub there :
      (name : String) (change : Deployment → Deployment) (w : W)
      → (deployments.create_or_update name namespace change w).0 ≡ none
      → (old : Deployment) × (view (deployments.create_or_update name namespace change w).1 name
          ≡ some (change old))
  pub others :
      (name : String) (change : Deployment → Deployment) (w : W) (k : String)
      → (name == k) ≡ false
      → view (deployments.create_or_update name namespace change w).1 k ≡ view w k

abbrev first_name : List Node → Option String
first_name [] = none
first_name (n ∷ ns) = some n.name

first_node_lem : (ns : List Node) → first_node ns ≡ first_name ns
first_node_lem [] = refl
first_node_lem (n ∷ ns) = refl

-- The node with the smallest name of some nodes, if there are any.
abbrev pub Smallest : List Node → Option String → Type 0
Smallest nodes chosen =
    (sorted : List Node) × Permᴰ nodes sorted
    × SortedBy Node.name sorted
    × (chosen ≡ first_name sorted)

-- The Deployment of a gateway agent: on the node with the smallest name of those with its role, with
-- one replica, or, if there is no such node, unpinned and without one; it says whether it is the
-- secondary.
pub record Pinned (nodes : List Node) (role : String) (d : Deployment) : Type 0 where
  pub node : Smallest nodes d.affinity
  pub one : (n : String) → d.affinity ≡ some n → d.replicas ≡ 1
  pub idle : d.affinity ≡ none → d.replicas ≡ 0
  pub secondary :
      map Container.env d.containers
      ≡ (("IS_SECONDARY", if role == "secondary" then "true" else "false") ∷ []) ∷ []

stop-ok :
    {W : Type 0} (text : String) (call : Call W) (s : Run W)
    → (stop text call s).0 ≡ ok tt
    → (call s.world).0 ≡ none
stop-ok text call s h = elim (Option-cases (call s.world).0) [
  | inl e ↦ e
  | inr (x, e) ↦ absurd (err-ne-ok (rw e at h))
]

gateway_deployment-Pinned :
    (nodes : List Node) (image role : String) (chosen : Option String) (volumes : List Volume)
    (mounts : List VolumeMount) (old : Deployment)
    → Smallest nodes chosen
    → Pinned nodes role (gateway_deployment image role chosen volumes mounts old)
gateway_deployment-Pinned nodes image role chosen volumes mounts old h = record {
  node = h;
  one = λ n e. rw e refl;
  idle = λ e. rw e refl;
  secondary = refl;
}

module _ {S W : Type 0} (client : Client S W) (deployments : Deployments W) (rt : Runtime)
    (namespace image label : String) (overlays : List NetworkOverlay)
    (view : W → String → Option Deployment) (keyed : Keyed deployments namespace view) where
  abbrev deployed : GoMap String (List Node) → String → Deployment → Deployment
  deployed roles role =
      gateway_deployment image role (chosen_node role roles) (build_wg_volumes overlays).0
        (build_wg_volumes overlays).1

  abbrev both : GoMap String (List Node) → Action W (Unit {0})
  both roles =
      ensure_roles client deployments namespace image roles overlays ("primary" ∷ "secondary" ∷ [])

  both-there :
      (roles : GoMap String (List Node)) (s : Run W)
      → (both roles s).0 ≡ ok tt
      → (role : String) → (role ≡ "primary") ⊎ (role ≡ "secondary")
      → (old : Deployment) × (view (both roles s).1.world ("pontifex-gateway-" <> role)
          ≡ some (deployed roles role old))
  unfolding ensure_roles
  both-there roles s h role which =
      let text : String = "create/update gateway deployment pontifex-gateway-" in
      let create : String → Call W =
        λ r. deployments.create_or_update ("pontifex-gateway-" <> r) namespace (deployed roles r) in
      let (_, p, e, h') =
        then-ok (stop (text <> "primary") (create "primary"))
          (λ _. ensure_roles client deployments namespace image roles overlays ("secondary" ∷ [])) s
          tt h in
      let (_, q, e', _) =
        then-ok (stop (text <> "secondary") (create "secondary")) (λ _. pure tt)
          (stop (text <> "primary") (create "primary") s).1 tt h' in
      let w1 = (create "primary" s.world).1 in
      let same = ap (λ r. view r.1.world) (e ∙ e') in
      elim which [
        | inr is ↦
            let (old, there) =
              keyed.there "pontifex-gateway-secondary" (deployed roles "secondary") w1
                (stop-ok (text <> "secondary") (create "secondary") (record s { world = w1 }) q) in
            subst
              (λ r.
                (o : Deployment) × (view (both roles s).1.world ("pontifex-gateway-" <> r)
                  ≡ some (deployed roles r o)))
              (sym is) (old, ap (λ f. f "pontifex-gateway-secondary") same ∙ there)
        | inl is ↦
            let (old, there) =
              keyed.there "pontifex-gateway-primary" (deployed roles "primary") s.world
                (stop-ok (text <> "primary") (create "primary") s p) in
            subst
              (λ r.
                (o : Deployment) × (view (both roles s).1.world ("pontifex-gateway-" <> r)
                  ≡ some (deployed roles r o)))
              (sym is)
              (
                old,
                ap (λ f. f "pontifex-gateway-primary") same
                    ∙ keyed.others "pontifex-gateway-secondary" (deployed roles "secondary") w1
                        "pontifex-gateway-primary" refl
                    ∙ there,
              )
      ]

  -- When `EnsureGatewayDeployments` returns nil, each of the two roles has its Deployment, which is
  -- pinned to the node with the smallest name of the listed nodes whose label is the role; if there is
  -- no such node, it has no replica and no node.
  pub ensure_gateway_deployments-Pinned :
      (s : Run W)
      → (ensure_gateway_deployments client deployments rt namespace image label overlays s).0
        ≡ ok tt
      → (nodes : List Node) × ((client.list_nodes_with_label label s.world).0 ≡ ok nodes)
        × ((role : String)
            → (role ≡ "primary") ⊎ (role ≡ "secondary")
            → (d : Deployment) × (view
                  (ensure_gateway_deployments client deployments rt namespace image label overlays
                    s).1.world
                  ("pontifex-gateway-" <> role)
                ≡ some d)
              × Pinned (with_role label role nodes) role d)
  unfolding ensure_gateway_deployments
  ensure_gateway_deployments-Pinned s h =
      let roles : List Node → GoMap String (List Node) =
        λ nodes. sort_roles (entries rt 0 (by_role label nodes [])) (by_role label nodes []) in
      let (nodes, l, e, h') =
        then-ok (ask (client.list_nodes_with_label label)) (λ nodes. both (roles nodes)) s tt h in
      (
        nodes,
        l,
        λ role which.
            let (old, there) = both-there (roles nodes) _ h' role which in
            (
              deployed (roles nodes) role old,
              ap (λ r. view r.1.world ("pontifex-gateway-" <> role)) e ∙ there,
              gateway_deployment-Pinned (with_role label role nodes) image role _ _ _ old (
                  let (sorted, perm, ascending, is) = chosen_smallest rt label role nodes in
                  (sorted, perm, ascending, is ∙ first_node_lem sorted)),
            ),
      )
