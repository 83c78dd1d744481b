-- ===== src/Operator/Workloads/Targets.antt =====
-- The nodes that get an internal agent.
use pontifex.Base.{
  String, Bool, not, ◌&&◌, ◌||◌, List, [], ◌∷◌, ◌≡◌, ◌∙◌, any, arith, ◌==◌, comparable_string,
}
use pontifex.GoMap.{GoSet, has}
use pontifex.GoMap.Laws.{has-put}
use pontifex.Api.{NetworkOverlay, EdgeStatus}
use pontifex.Operator.Workloads.{target_edges, target_nodes}

-- A node that is no gateway; the empty name is no node.
abbrev pub is_internal : GoSet String → String → Bool
is_internal gateways n = not (n == "") && not (has n gateways)

-- A ready edge stands on the node `n`.
abbrev pub serves_edge : String → List EdgeStatus → Bool
serves_edge n edges = any (λ edge. edge.ready && edge.node_name == n) edges

has-target_edges :
    (gateways : GoSet String) (n : String) (edges : List EdgeStatus) (m : GoSet String)
    → has n (target_edges gateways edges m)
      ≡ (has n m || (is_internal gateways n && serves_edge n edges))
unfolding target_edges
has-target_edges gateways n [] m = ground arith
has-target_edges gateways n (edge ∷ edges) m =
    has-target_edges gateways n edges _
    ∙ ground (
      arith,
      has-put edge.node_name n tt m,
      comparable_string.equal_iff edge.node_name n,
      comparable_string.equal_iff edge.node_name "",
      comparable_string.equal_iff n "",
    )

has-target_nodes_from :
    (gateways : GoSet String) (n : String) (os : List NetworkOverlay) (m : GoSet String)
    → has n (target_nodes gateways os m)
      ≡ (has n m || (is_internal gateways n && any (λ o. serves_edge n o.status.edges) os))
unfolding target_nodes
has-target_nodes_from gateways n [] m = ground arith
has-target_nodes_from gateways n (o ∷ os) m =
    has-target_nodes_from gateways n os _
    ∙ ground (arith, has-target_edges gateways n o.status.edges m)

-- A node gets an internal agent exactly when it is no gateway and a ready edge of some overlay stands
-- on it; the empty name is no node.
pub has-target_nodes :
    (gateways : GoSet String) (n : String) (os : List NetworkOverlay)
    → has n (target_nodes gateways os [])
      ≡ (is_internal gateways n && any (λ o. serves_edge n o.status.edges) os)
unfolding has
has-target_nodes gateways n os = has-target_nodes_from gateways n os []
