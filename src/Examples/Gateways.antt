-- ===== src/Examples/Gateways.antt =====
-- The Deployments of the gateway agents, in a cluster that keeps Deployments by name, with three
-- gateway nodes.
use pontifex.Base.{
  String, false, List, [], ◌∷◌, Option, none, some, ◌≡◌, refl, ◌⊎◌, ◌<>◌, ==-self,
  comparable_string,
}
use pontifex.GoMap.{GoMap, get, put}
use pontifex.GoMap.Laws.{get-put}
use pontifex.Effects.{ok, err, other}
use pontifex.Operator.Cluster.{Node, Client}
use pontifex.Operator.Workloads.{Deployment, Deployments}
use pontifex.Operator.Workloads.Gateways.{ensure_gateway_deployments, ensure_roles}
use pontifex.Operator.Workloads.Gateways.Chosen.{with_role}
use pontifex.Operator.Workloads.Gateways.Pinned.{Keyed, Pinned, ensure_gateway_deployments-Pinned}
use pontifex.Examples.Agents.{blank}
use pontifex.Examples.Cluster.{gateway}
use pontifex.Examples.Memory.{first_written}
use pontifex.Examples.Snapshot.{snapshot}

abbrev Store : Type 0
Store = GoMap String Deployment

abbrev spare : Node
spare = record gateway { name = "g0" }

abbrev first : Node
first = record gateway { name = "g2"; labels = ("role", "primary") ∷ [] }

abbrev listed : List Node
listed = gateway ∷ first ∷ spare ∷ []

abbrev client : Client String Store
client = record {
  parse_selector = λ s. some s;
  list_nodes_with_label = λ l w. (ok listed, w);
  get_node = λ n w. (err (other "not found"), w);
  list_pods = λ ns s w. (ok [], w);
  list_overlays = λ w. (ok snapshot, w);
}

abbrev old_or_blank : String → Option Deployment → Deployment
old_or_blank name none = blank name
old_or_blank name (some d) = d

abbrev memory : Deployments Store
memory = record {
  list = λ ns c w. (ok [], w);
  delete = λ d w. (none, w);
  create_or_update = λ n ns f w. (none, put n (f (old_or_blank n (get n w))) w);
  is_not_found = λ x. false;
}

memory-Keyed : Keyed memory "pontifex-system" (λ w n. get n w)
memory-Keyed = record {
  there = λ n f w h.
      (old_or_blank n (get n w), rw (get-put n n (f (old_or_blank n (get n w))) w, ==-self n) refl);
  others = λ n f w k h. rw (get-put n k (f (old_or_blank n (get n w))) w, h) refl;
}

ensure_gateway_deployments-Pinned_example :
    (nodes : List Node) × (ok listed ≡ ok nodes)
    × ((role : String)
        → (role ≡ "primary") ⊎ (role ≡ "secondary")
        → (d : Deployment) × (get
              ("pontifex-gateway-" <> role)
              (ensure_gateway_deployments client memory first_written "pontifex-system" "agent"
                "role" snapshot
                (record { errs = []; world = [] })).1.world
            ≡ some d)
          × Pinned (with_role "role" role nodes) role d)
unfolding ensure_gateway_deployments ensure_roles
ensure_gateway_deployments-Pinned_example =
    ensure_gateway_deployments-Pinned client memory first_written "pontifex-system" "agent" "role"
      snapshot (λ w n. get n w) memory-Keyed (record { errs = []; world = [] }) refl
