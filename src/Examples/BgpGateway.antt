-- ===== src/Examples/BgpGateway.antt =====
-- The reconciliation of a gateway, on a daemon with one session that nobody wants.
use pontifex.Base.{true, false, [], ◌∷◌, some, ◌≡◌, refl, comparable_string}
use pontifex.GoMap.{get, has, put, index_by, values, entries}
use pontifex.GoMap.Ranges.{find}
use pontifex.GoNet.{split_host_port, is_ip}
use pontifex.Effects.{attempt, sweep}
use pontifex.Effects.Settles.{settled, remove_orphans, install_missing}
use pontifex.Agent.Bgp.Gateway.{
  GatewayReconciler, reconcile, build_desired_neighbors, build_desired_policies, neighbors_from,
  policies_from, want_peer, want_peers, want_client, want_clients, want_policies, peer_address,
  peer_neighbor,
}
use pontifex.Agent.Bgp.Gateway.Content.{first_candidate}
use pontifex.Agent.Bgp.Gateway.Convergence.{gateway_settles, gateway_idempotent}
use pontifex.Examples.Memory.{first_written, discard}
use pontifex.Examples.Daemon.{Daemon, memory, seen, memory-Honours}
use pontifex.Examples.Snapshot.{snapshot, overlay, peer}

abbrev pub gateway : GatewayReconciler
gateway = record { asn = 65000; router_id = "10.0.0.1"; is_secondary = true }

abbrev before : Daemon
before = record {
  neighbors = peer_neighbor false overlay peer "10.9.9.9" ∷ [];
  policies = [];
  advertised = [];
}

after : Daemon
after = (reconcile memory gateway first_written snapshot before).1

clean : reconcile memory gateway first_written snapshot before ≡ ([], after)
unfolding after reconcile remove_orphans install_missing sweep attempt values entries index_by get
    has put build_desired_neighbors build_desired_policies neighbors_from policies_from want_peer
    want_peers want_client want_clients want_policies peer_address split_host_port is_ip discard
clean = refl

gateway_settles_example :
    (seen.neighbors after "192.0.2.1"
      ≡ settled
          (λ n. n)
          (seen.neighbors before "192.0.2.1")
          (get "192.0.2.1" (build_desired_neighbors gateway snapshot)))
    × (seen.policies after "192.0.2.1"
        ≡ settled
            (λ p. p)
            (seen.policies before "192.0.2.1")
            (get "192.0.2.1" (build_desired_policies gateway snapshot)))
gateway_settles_example =
    gateway_settles memory seen memory-Honours gateway first_written snapshot before after clean
      "192.0.2.1"

gateway_idempotent_example : reconcile memory gateway first_written snapshot after ≡ ([], after)
gateway_idempotent_example =
    gateway_idempotent memory seen memory-Honours gateway first_written first_written snapshot
      before after after.neighbors after.policies clean refl refl

first_candidate_example :
    get "192.0.2.1" (build_desired_neighbors gateway snapshot)
    ≡ some (peer_neighbor true overlay peer "192.0.2.1")
unfolding find peer_address split_host_port is_ip
first_candidate_example = first_candidate gateway snapshot "192.0.2.1"
