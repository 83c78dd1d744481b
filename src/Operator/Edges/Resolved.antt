-- ===== src/Operator/Edges/Resolved.antt =====
-- What a result of `resolveEdges` says of each edge.
use pontifex.Base.{
  String, ap, not, ◌&&◌, ◌==◌, if◌then◌else◌, true, false, List, [], ◌∷◌, none, some, ◌≡◌, refl,
  sym, subst, ◌⊎◌, inl, inr, Bool-cases, Option-cases, comparable_string,
}
use pontifex.GoMap.{GoSet, has, index_by}
use pontifex.Effects.{ok, Run}
use pontifex.Effects.Converge.{Result-cases, err-ne-ok, ok-inj}
use pontifex.Api.{Edge, EdgeStatus, NetworkOverlay}
use pontifex.Operator.Cluster.{Node, Pod, Client}
use pontifex.Operator.Edges.{
  unresolved, resolved, running_pods, resolve_running, resolve_edge, resolve_all, resolve_edges,
}

-- The pods that are running and not being deleted, in order.
abbrev pub alive : List Pod → List Pod
alive [] = []
alive (pod ∷ pods) =
    let rest = alive pods in if pod.phase == "Running" && not pod.deleting then pod ∷ rest else rest

running_pods_lem : (pods : List Pod) → running_pods pods ≡ alive pods
unfolding running_pods
running_pods_lem [] = refl
running_pods_lem (pod ∷ pods) =
    ap (λ rest. if pod.phase == "Running" && not pod.deleting then pod ∷ rest else rest)
      (running_pods_lem pods)

module _ {S W : Type 0} (client : Client S W) where
  -- The running pods among those that the selector of an edge finds.
  pub record Found (edge : Edge) (running : List Pod) : Type 0 where
    pub selector : S
    pub selects : client.parse_selector edge.pod_labels_selector ≡ some selector
    pub before : W
    pub pods : List Pod
    pub listed : (client.list_pods edge.pod_namespace selector before).0 ≡ ok pods
    pub running_is : alive pods ≡ running

  -- One running pod, on a node that is no gateway.
  pub record Serving (gateways : GoSet String) (edge : Edge) (status : EdgeStatus) : Type 0 where
    pub pod : Pod
    pub only : Found edge (pod ∷ [])
    pub elsewhere : has pod.node_name gateways ≡ false
    pub after : W
    pub node : Node
    pub got : (client.get_node pod.node_name after).0 ≡ ok node
    pub status_is : status ≡ resolved edge pod node

  -- No such pod: a selector that cannot be parsed, no running pod, several, or one on a gateway.
  abbrev pub Unserved : GoSet String → Edge → Type 0
  Unserved gateways edge =
      (client.parse_selector edge.pod_labels_selector ≡ none)
      ⊎ (Found edge []
          ⊎ (((p : Pod) × (q : Pod) × (rest : List Pod) × Found edge (p ∷ q ∷ rest))
              ⊎ ((pod : Pod) × Found edge (pod ∷ []) × (has pod.node_name gateways ≡ true))))

  abbrev pub Explained : GoSet String → Edge → EdgeStatus → Type 0
  Explained gateways edge status =
      ((status ≡ unresolved edge) × Unserved gateways edge) ⊎ Serving gateways edge status

  abbrev pub Matches : GoSet String → List Edge → List EdgeStatus → Type 0
  Matches gateways [] [] = Unit
  Matches gateways (edge ∷ edges) (status ∷ rest) =
      Explained gateways edge status × Matches gateways edges rest
  Matches gateways _ _ = ⊥

  resolve_running-Explained :
      (gateways : GoSet String) (edge : Edge) (status : EdgeStatus) (running : List Pod)
      → Found edge running
      → (s : Run W) → (resolve_running client gateways edge running s).0 ≡ ok status
      → Explained gateways edge status
  unfolding resolve_running
  resolve_running-Explained gateways edge status [] f s h = inl (sym (ok-inj h), inr (inl f))
  resolve_running-Explained gateways edge status (pod ∷ []) f s h =
      elim (Bool-cases (has pod.node_name gateways)) [
        | inl p ↦ inl (sym (ok-inj (rw (p, resolve_running) at h)), inr (inr (inr (pod, f, p))))
        | inr p ↦ elim (Result-cases (client.get_node pod.node_name s.world).0) [
          | inl (node, g) ↦ inr (record {
            pod = pod;
            only = f;
            elsewhere = p;
            after = s.world;
            node = node;
            got = g;
            status_is = sym (ok-inj (rw (p, g, resolve_running) at h));
          })
          | inr (x, g) ↦ absurd (err-ne-ok (rw (p, g, resolve_running) at h))
        ]
      ]
  resolve_running-Explained gateways edge status (p ∷ q ∷ rest) f s h =
      inl (sym (ok-inj h), inr (inr (inl (p, q, rest, f))))

  resolve_edge-Explained :
      (gateways : GoSet String) (edge : Edge) (s : Run W) (status : EdgeStatus)
      → (resolve_edge client gateways edge s).0 ≡ ok status
      → Explained gateways edge status
  unfolding resolve_edge
  resolve_edge-Explained gateways edge s status h =
      elim (Option-cases (client.parse_selector edge.pod_labels_selector)) [
        | inl e ↦ inl (sym (ok-inj (rw (e, resolve_edge) at h)), inl e)
        | inr (selector, e) ↦
            elim (Result-cases (client.list_pods edge.pod_namespace selector s.world).0) [
              | inl (pods, l) ↦
                  resolve_running-Explained gateways edge status (running_pods pods)
                    (record {
                      selector = selector;
                      selects = e;
                      before = s.world;
                      pods = pods;
                      listed = l;
                      running_is = sym (running_pods_lem pods);
                    })
                    _ (rw (e, l, resolve_edge) at h)
              | inr (x, l) ↦ absurd (err-ne-ok (rw (e, l, resolve_edge) at h))
            ]
      ]

  resolve_all-Matches :
      (gateways : GoSet String) (edges : List Edge) (s : Run W) (statuses : List EdgeStatus)
      → (resolve_all client gateways edges s).0 ≡ ok statuses
      → Matches gateways edges statuses
  unfolding resolve_all
  resolve_all-Matches gateways [] s [] h = tt
  resolve_all-Matches gateways [] s (_ ∷ _) h = cc
  resolve_all-Matches gateways (edge ∷ edges) s statuses h =
      elim (Result-cases (resolve_edge client gateways edge s).0) [
        | inr (x, e) ↦ absurd (err-ne-ok (rw (e, resolve_all) at h))
        | inl (status, e) ↦
            elim (Result-cases
              (resolve_all client gateways edges (resolve_edge client gateways edge s).1).0) [
                | inr (x, f) ↦ absurd (err-ne-ok (rw (e, f, resolve_all) at h))
                | inl (rest, f) ↦
                    subst (Matches gateways (edge ∷ edges)) (ok-inj (rw (e, f, resolve_all) at h)) (
                      resolve_edge-Explained gateways edge s status e,
                      resolve_all-Matches gateways edges _ rest f,
                    )
              ]
      ]

  -- What `resolveEdges` returns without an error has a status for each edge, in order: that of the
  -- only running pod that the edge's selector finds, if it is on a node that the cluster does not
  -- list as a gateway, and an unresolved one otherwise.
  pub resolve_edges-Matches :
      (label : String) (overlay : NetworkOverlay) (w : W) (statuses : List EdgeStatus)
      → (resolve_edges client label overlay w).0 ≡ ok statuses
      → (nodes : List Node) × ((client.list_nodes_with_label label w).0 ≡ ok nodes)
        × Matches (index_by Node.name nodes []) overlay.spec.edges statuses
  unfolding resolve_edges
  resolve_edges-Matches label overlay w statuses h =
      elim (Result-cases (client.list_nodes_with_label label w).0) [
        | inr (x, e) ↦ absurd (err-ne-ok (rw (e, resolve_edges) at h))
        | inl (nodes, e) ↦ (
          nodes,
          e,
          resolve_all-Matches _ overlay.spec.edges _ statuses (rw (e, resolve_edges) at h),
        )
      ]
