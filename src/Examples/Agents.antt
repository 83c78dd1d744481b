-- ===== src/Examples/Agents.antt =====
-- The Deployments of internal agents, in a cluster that keeps them in a list.
use pontifex.Base.{
  String, false, List, [], ◌∷◌, none, some, ◌≡◌, refl, arith, ==-self, is_some, comparable_string,
}
use pontifex.GoMap.{get, has, put, index_by, keys, entries}
use pontifex.GoMap.Ranges.{find, has_key-eq-is_some}
use pontifex.Effects.{ok, err, other}
use pontifex.Operator.Cluster.{Node, Client}
use pontifex.Operator.Workloads.{
  Deployment, Deployments, node_of, internal_deployment, target_nodes, target_edges,
  ensure_internal_deployments, ensure_targets, delete_orphans, ignore_not_found,
}
use pontifex.Operator.Workloads.Deployed.{Honours, agents_deployed}
use pontifex.Examples.Memory.{first_written, discard, find-discard}
use pontifex.Examples.Snapshot.{snapshot}

abbrev pub blank : String → Deployment
blank name = record {
  name = name;
  namespace = "pontifex-system";
  labels = [];
  replicas = 0;
  selector = none;
  template_labels = [];
  host_network = false;
  affinity = none;
  volumes = [];
  containers = [];
}

abbrev no_gateways : Client String (List Deployment)
no_gateways = record {
  parse_selector = λ s. some s;
  list_nodes_with_label = λ l w. (ok [], w);
  get_node = λ n w. (err (other "not found"), w);
  list_pods = λ ns s w. (ok [], w);
  list_overlays = λ w. (ok snapshot, w);
}

abbrev memory : Deployments (List Deployment)
memory = record {
  list = λ ns c w. (ok w, w);
  delete = λ d w. (none, discard node_of (node_of d) w);
  create_or_update = λ n ns f w. (none, f (blank n) ∷ w);
  is_not_found = λ x. false;
}

memory-Honours : Honours no_gateways memory "pontifex-system" "agent" (λ w n. find node_of n w)
unfolding find get
memory-Honours = record {
  unchanged = λ c w. refl;
  complete = λ w ds n h. ground (arith, h, has_key-eq-is_some node_of n ds);
  gone = λ d w h. rw (find-discard node_of (node_of d) (node_of d) w, ==-self (node_of d)) refl;
  delete_others = λ d w n h. rw (find-discard node_of (node_of d) n w, h) refl;
  there = λ n w h. rw (==-self n) refl;
  create_others = λ n w k h. rw h refl;
}

abbrev stale : List Deployment
stale = internal_deployment "agent" "n9" (blank "pontifex-internal-n9") ∷ []

agents_deployed_example :
    (nodes : List Node) × (ok [] ≡ ok nodes)
    × ((k : String)
        → is_some (
            find node_of k
              (ensure_internal_deployments no_gateways memory first_written "pontifex-system"
                "agent" "role" snapshot
                (record { errs = []; world = stale })).1.world)
          ≡ has k (target_nodes (index_by Node.name nodes []) snapshot []))
unfolding ensure_internal_deployments ensure_targets delete_orphans ignore_not_found target_nodes
    target_edges keys entries index_by get has put discard
agents_deployed_example =
    agents_deployed no_gateways memory "pontifex-system" "agent" "role" (λ w n. find node_of n w)
      memory-Honours first_written snapshot (record { errs = []; world = stale }) refl
