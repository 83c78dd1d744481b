-- ===== src/Operator/Kept.antt =====
-- What the functions of the operator leave alone: a part of the cluster that no call of the client
-- library changes, but the ones on overlays.
use pontifex.Base.{String, List, [], ◌∷◌, inl, inr, Bool-cases, Option-cases, comparable_string}
use pontifex.GoMap.{GoSet, GoMap, has, entries, Runtime}
use pontifex.Effects.Keeps.{
  Keeps, KeepsCall, KeepsQuery, then-Keeps, pure-Keeps, stop-Keeps, ask-Keeps, called-Keeps,
}
use pontifex.Api.{NetworkOverlay, Edge}
use pontifex.Operator.Cluster.{Node, Pod, Client}
use pontifex.Operator.Edges.{
  running_pods, resolve_running, resolve_edge, resolve_all, resolve_edges,
}
use pontifex.Operator.Workloads.{
  Deployment, Deployments, node_of, delete_deployment, delete_orphans, ensure_targets,
  ensure_internal_deployments,
}
use pontifex.Operator.Workloads.Gateways.{
  by_role, sort_roles, ensure_roles, ensure_gateway_deployments,
}

pub record CallsKeep {S W B : Type 0} (f : W → B) (client : Client S W)
    (deployments : Deployments W) : Type 0 where
  pub nodes : (label : String) → KeepsQuery f (client.list_nodes_with_label label)
  pub node : (name : String) → KeepsQuery f (client.get_node name)
  pub pods :
      (namespace : String) (selector : S) → KeepsQuery f (client.list_pods namespace selector)
  pub overlays : KeepsQuery f client.list_overlays
  pub listing : (namespace component : String) → KeepsQuery f (deployments.list namespace component)
  pub delete : (d : Deployment) → KeepsCall f (deployments.delete d)
  pub create :
      (name namespace : String) (change : Deployment → Deployment)
      → KeepsCall f (deployments.create_or_update name namespace change)

module _ {S W B : Type 0} (f : W → B) (client : Client S W) (deployments : Deployments W)
    (kept : CallsKeep f client deployments) where
  delete_orphans-Keeps :
      (targets : GoSet String) (ds : List Deployment)
      → Keeps f (delete_orphans client deployments targets ds)
  unfolding delete_orphans
  delete_orphans-Keeps targets [] = pure-Keeps f tt
  delete_orphans-Keeps targets (d ∷ ds) = elim (Bool-cases (has (node_of d) targets)) [
    | inl p ↦ rw (p, delete_orphans) (delete_orphans-Keeps targets ds)
    | inr p ↦
        rw (p, delete_orphans)
          (then-Keeps f (stop-Keeps f _ (delete_deployment client deployments d) (kept.delete d))
            λ _. delete_orphans-Keeps targets ds)
  ]

  ensure_targets-Keeps :
      (namespace image : String) (names : List String)
      → Keeps f (ensure_targets client deployments namespace image names)
  unfolding ensure_targets
  ensure_targets-Keeps namespace image [] = pure-Keeps f tt
  ensure_targets-Keeps namespace image (n ∷ ns) =
      then-Keeps f (stop-Keeps f _ _ (kept.create _ namespace _))
        λ _. ensure_targets-Keeps namespace image ns

  pub ensure_internal_deployments-Keeps :
      (rt : Runtime) (namespace image label : String) (overlays : List NetworkOverlay)
      → Keeps f (ensure_internal_deployments client deployments rt namespace image label overlays)
  unfolding ensure_internal_deployments
  ensure_internal_deployments-Keeps rt namespace image label overlays =
      then-Keeps f (ask-Keeps f (client.list_nodes_with_label label) (kept.nodes label)) λ nodes.
        then-Keeps f
          (ask-Keeps f (deployments.list namespace "pontifex-internal") (kept.listing namespace _))
          λ ds. then-Keeps f (delete_orphans-Keeps _ ds) λ _. ensure_targets-Keeps namespace image _

  ensure_roles-Keeps :
      (namespace image : String) (roles : GoMap String (List Node)) (overlays : List NetworkOverlay)
      (names : List String)
      → Keeps f (ensure_roles client deployments namespace image roles overlays names)
  unfolding ensure_roles
  ensure_roles-Keeps namespace image roles overlays [] = pure-Keeps f tt
  ensure_roles-Keeps namespace image roles overlays (n ∷ ns) =
      then-Keeps f (stop-Keeps f _ _ (kept.create _ namespace _))
        λ _. ensure_roles-Keeps namespace image roles overlays ns

  pub ensure_gateway_deployments-Keeps :
      (rt : Runtime) (namespace image label : String) (overlays : List NetworkOverlay)
      → Keeps f (ensure_gateway_deployments client deployments rt namespace image label overlays)
  unfolding ensure_gateway_deployments
  ensure_gateway_deployments-Keeps rt namespace image label overlays =
      then-Keeps f (ask-Keeps f (client.list_nodes_with_label label) (kept.nodes label)) λ nodes.
        let grouped = by_role label nodes [] in
        ensure_roles-Keeps namespace image (sort_roles (entries rt 0 grouped) grouped) overlays
          ("primary" ∷ "secondary" ∷ [])

  resolve_running-Keeps :
      (gateways : GoSet String) (edge : Edge) (running : List Pod)
      → Keeps f (resolve_running client gateways edge running)
  unfolding resolve_running
  resolve_running-Keeps gateways edge [] = pure-Keeps f _
  resolve_running-Keeps gateways edge (pod ∷ []) = elim (Bool-cases (has pod.node_name gateways)) [
    | inl p ↦ rw (p, resolve_running) (pure-Keeps f _)
    | inr p ↦
        rw (p, resolve_running)
          (then-Keeps f (ask-Keeps f _ (kept.node pod.node_name)) λ n. pure-Keeps f _)
  ]
  resolve_running-Keeps gateways edge (_ ∷ _ ∷ _) = pure-Keeps f _

  resolve_edge-Keeps :
      (gateways : GoSet String) (edge : Edge) → Keeps f (resolve_edge client gateways edge)
  unfolding resolve_edge
  resolve_edge-Keeps gateways edge =
      elim (Option-cases (client.parse_selector edge.pod_labels_selector)) [
        | inl e ↦ rw (e, resolve_edge) (pure-Keeps f _)
        | inr (selector, e) ↦
            rw (e, resolve_edge)
              (then-Keeps f (ask-Keeps f _ (kept.pods edge.pod_namespace selector))
                λ pods. resolve_running-Keeps gateways edge (running_pods pods))
      ]

  resolve_all-Keeps :
      (gateways : GoSet String) (edges : List Edge) → Keeps f (resolve_all client gateways edges)
  unfolding resolve_all
  resolve_all-Keeps gateways [] = pure-Keeps f _
  resolve_all-Keeps gateways (edge ∷ edges) =
      then-Keeps f (resolve_edge-Keeps gateways edge)
        λ status. then-Keeps f (resolve_all-Keeps gateways edges) λ rest. pure-Keeps f _

  pub resolve_edges-Keeps :
      (label : String) (overlay : NetworkOverlay)
      → KeepsQuery f (resolve_edges client label overlay)
  unfolding resolve_edges
  resolve_edges-Keeps label overlay = called-Keeps f (
      then-Keeps f (ask-Keeps f (client.list_nodes_with_label label) (kept.nodes label))
        λ nodes. resolve_all-Keeps _ _)
