-- ===== src/Examples/Deletions.antt =====
-- The deletion of an overlay, in a cluster that keeps the agents and the overlay's finalizers.
use pontifex.Base.{
  String, true, false, List, [], ◌∷◌, Option, none, some, refl, arith, ==-self, comparable_string,
}
use pontifex.GoMap.{get}
use pontifex.GoMap.Ranges.{find, has_key-eq-is_some}
use pontifex.Effects.{ok, err, other}
use pontifex.Operator.Cluster.{Client}
use pontifex.Operator.Controller.{Services, handle_deletion}
use pontifex.Operator.Controller.Deletes.{Stores, Ends, finalizer_last}
use pontifex.Operator.Workloads.{Deployment, Deployments, node_of, internal_deployment}
use pontifex.Operator.Workloads.Deployed.{Honours}
use pontifex.Api.{NetworkOverlay}
use pontifex.Examples.Agents.{blank}
use pontifex.Examples.Cluster.{cfg}
use pontifex.Examples.Memory.{first_written, discard, find-discard}
use pontifex.Examples.Snapshot as Snapshot

record Store : Type 0 where
  agents : List Deployment
  finalizers : List String

abbrev leaving : NetworkOverlay
leaving = record Snapshot.overlay {
  name = "ov2";
  deleting = true;
  finalizers = "pontifex.io/networkoverlay" ∷ [];
}

abbrev client : Client String Store
client = record {
  parse_selector = λ s. some s;
  list_nodes_with_label = λ l w. (ok [], w);
  get_node = λ n w. (err (other "not found"), w);
  list_pods = λ ns s w. (ok [], w);
  list_overlays = λ w. (ok (leaving ∷ Snapshot.snapshot), w);
}

abbrev services : Services Store
services = record {
  get_overlay = λ n w. (ok leaving, w);
  patch = λ old new w. (ok new, record w { finalizers = new.finalizers });
  patch_status = λ old new w. (ok new, w);
  ensure_key_pair = λ ov w. (ok ("k", "wg"), w);
  ensure_rbac = λ n w. (none, w);
}

abbrev memory : Deployments Store
memory = record {
  list = λ ns c w. (ok w.agents, w);
  delete = λ d w. (none, record w { agents = discard node_of (node_of d) w.agents });
  create_or_update = λ n ns f w. (none, record w { agents = f (blank n) ∷ w.agents });
  is_not_found = λ x. false;
}

abbrev agent_on : Store → String → Option Deployment
agent_on w n = find node_of n w.agents

memory-Honours : Honours client memory "pontifex-system" "agent" agent_on
unfolding find get
memory-Honours = record {
  unchanged = λ c w. refl;
  complete = λ w ds n h. ground (arith, h, has_key-eq-is_some node_of n ds);
  gone =
      λ d w h. rw (find-discard node_of (node_of d) (node_of d) w.agents, ==-self (node_of d)) refl;
  delete_others = λ d w n h. rw (find-discard node_of (node_of d) n w.agents, h) refl;
  there = λ n w h. rw (==-self n) refl;
  create_others = λ n w k h. rw h refl;
}

memory-Stores : Stores client services memory agent_on Store.finalizers
memory-Stores = record {
  kept = record {
    nodes = λ l w. refl;
    node = λ n w. refl;
    pods = λ n s w. refl;
    overlays = λ w. refl;
    listing = λ n c w. refl;
    delete = λ d w. refl;
    create = λ n s f w. refl;
  };
  patched = λ old new ov w h. refl;
  deployments_kept = λ old new w. refl;
}

abbrev before : Store
before = record {
  agents = internal_deployment "agent" "n9" (blank "pontifex-internal-n9") ∷ [];
  finalizers = leaving.finalizers;
}

finalizer_last_example :
    Ends client services memory cfg first_written agent_on memory-Honours Store.finalizers
      memory-Stores leaving before
      (handle_deletion client services memory cfg first_written leaving
        (record { errs = []; world = before }))
finalizer_last_example =
    finalizer_last client services memory cfg first_written agent_on memory-Honours Store.finalizers
      memory-Stores leaving before refl
