-- ===== src/Examples/Cluster.antt =====
-- A cluster in memory with one gateway, one worker and one pod, whose overlays are all it keeps.
use pontifex.Base.{
  String, true, false, List, [], ◌∷◌, map, none, some, ◌≡◌, refl, Permᴰ, comparable_string,
}
use pontifex.GoMap.{has, put, index_by}
use pontifex.GoSort.{SortedBy}
use pontifex.Effects.{ok, err, other}
use pontifex.Api.{NetworkOverlay, Edge}
use pontifex.Operator.Cluster.{internal_ip, external_ip, Node, Pod, Client}
use pontifex.Operator.Gateways.{build_gateways}
use pontifex.Operator.Gateways.Sorted.{node_as_gateway, build_gateways-SortedBy}
use pontifex.Operator.Edges.{
  resolved, resolve_edges, resolve_all, resolve_edge, resolve_running, running_pods,
}
use pontifex.Operator.Edges.Resolved.{Matches, resolve_edges-Matches}
use pontifex.Operator.Workloads.{Deployments, target_nodes}
use pontifex.Operator.Workloads.Targets.{has-target_nodes}
use pontifex.Config.{OperatorConfig}
use pontifex.Operator.Controller.{Services}
use pontifex.Examples.Snapshot as Snapshot

abbrev pub gateway : Node
gateway = record {
  name = "g1";
  labels = ("role", "secondary") ∷ [];
  addresses =
      record { type = internal_ip; address = "10.0.0.1" }
      ∷ record { type = external_ip; address = "192.0.2.7" }
      ∷ [];
}

abbrev pub worker : Node
worker = record {
  name = "n1";
  labels = [];
  addresses = record { type = internal_ip; address = "10.0.0.2" } ∷ [];
}

abbrev pub web : Pod
web = record {
  name = "web";
  node_name = "n1";
  pod_ip = "10.244.0.7";
  phase = "Running";
  deleting = false;
}

abbrev client : Client String (List NetworkOverlay)
client = record {
  parse_selector = λ s. some s;
  list_nodes_with_label = λ l w. (ok (gateway ∷ []), w);
  get_node = λ n w. (ok worker, w);
  list_pods = λ ns s w. (ok (web ∷ []), w);
  list_overlays = λ w. (ok w, w);
}

abbrev services : Services (List NetworkOverlay)
services = record {
  get_overlay = λ n w. (err (other "not found"), w);
  patch = λ old new w. (ok new, w);
  patch_status = λ old new w. (ok new, w);
  ensure_key_pair = λ ov w. (ok ("k", "wg"), w);
  ensure_rbac = λ n w. (none, w);
}

abbrev deployments : Deployments (List NetworkOverlay)
deployments = record {
  list = λ n c w. (ok [], w);
  delete = λ d w. (none, w);
  create_or_update = λ n s f w. (none, w);
  is_not_found = λ x. true;
}

abbrev pub cfg : OperatorConfig
cfg = record {
  namespace = "pontifex-system";
  asn = 65000;
  agent_image = "agent";
  gateway_node_label = "role";
  log_level = "info";
}

abbrev pub edge : Edge
edge = record {
  pod_namespace = "default";
  pod_labels_selector = "app=web";
  virtual_ip = "10.1.0.5";
}

abbrev with_edge : NetworkOverlay
with_edge = record Snapshot.overlay {
  name = "ov2";
  finalizers = "pontifex.io/networkoverlay" ∷ [];
  spec = record Snapshot.overlay.spec { edges = edge ∷ [] };
  status = record Snapshot.overlay.status { community = "" };
}

resolves :
    (resolve_edges client "role" with_edge Snapshot.snapshot).0 ≡ ok (resolved edge web worker ∷ [])
unfolding resolve_edges resolve_all resolve_edge resolve_running running_pods index_by has put
resolves = refl

resolve_edges-Matches_example :
    (nodes : List Node) × (ok (gateway ∷ []) ≡ ok nodes)
    × Matches client (index_by Node.name nodes []) (edge ∷ []) (resolved edge web worker ∷ [])
resolve_edges-Matches_example =
    resolve_edges-Matches client "role" with_edge Snapshot.snapshot (resolved edge web worker ∷ [])
      resolves

build_gateways-SortedBy_example :
    (sorted : List Node) × Permᴰ (worker ∷ gateway ∷ []) sorted
    × SortedBy Node.name sorted
    × (build_gateways (worker ∷ gateway ∷ []) "role" ≡ map (node_as_gateway "role") sorted)
build_gateways-SortedBy_example = build_gateways-SortedBy (worker ∷ gateway ∷ []) "role"

has-target_nodes_example :
    has "n1" (target_nodes (index_by Node.name (gateway ∷ []) []) Snapshot.snapshot []) ≡ true
unfolding index_by has put
has-target_nodes_example =
    has-target_nodes (index_by Node.name (gateway ∷ []) []) "n1" Snapshot.snapshot
