-- ===== src/Examples/BgpInternal.antt =====
-- The reconciliation of an internal node, on a daemon with one session that nobody wants.
use pontifex.Base.{true, [], ◌∷◌, some, ◌≡◌, refl, comparable_string}
use pontifex.GoMap.{get, has, put, index_by, values}
use pontifex.GoMap.Ranges.{find}
use pontifex.Effects.{attempt, sweep}
use pontifex.Effects.Settles.{settled, remove_orphans, install_missing}
use pontifex.Agent.Bgp.{Neighbor}
use pontifex.Agent.Bgp.Contract.{own_route}
use pontifex.Agent.Bgp.Internal.{
  reconcile, build_desired_neighbors, build_desired_policies, build_desired_advertisements,
  want_gateways, want_gateway, want_policies, want_edges, not_served, gateway_neighbor,
}
use pontifex.Agent.Bgp.Internal.Convergence.{reconcile_settles}
use pontifex.Agent.Bgp.Internal.Idempotence.{reconcile_idempotent}
use pontifex.Agent.Bgp.Internal.Failures.{neighbor_untouched}
use pontifex.Agent.Bgp.Internal.Content.{desired_exactly}
use pontifex.Examples.Memory.{first_written, discard}
use pontifex.Examples.Daemon.{Daemon, memory, seen, memory-Honours}
use pontifex.Examples.Snapshot.{snapshot, node}

abbrev orphan : Neighbor
orphan = gateway_neighbor 65000 "10.9.9.9"

abbrev pub before : Daemon
before = record { neighbors = orphan ∷ []; policies = []; advertised = [] }

after : Daemon
after = (reconcile memory node first_written snapshot before).1

clean : reconcile memory node first_written snapshot before ≡ ([], after)
unfolding after reconcile remove_orphans install_missing sweep attempt values index_by get has put
    build_desired_neighbors build_desired_policies build_desired_advertisements want_gateways
    want_gateway want_policies want_edges not_served discard
clean = refl

reconcile_settles_example :
    (seen.neighbors after "10.0.0.1"
      ≡ settled
          (λ n. n)
          (seen.neighbors before "10.0.0.1")
          (get "10.0.0.1" (build_desired_neighbors node snapshot)))
    × (seen.policies after "10.0.0.1"
        ≡ settled
            (λ p. p)
            (seen.policies before "10.0.0.1")
            (get "10.0.0.1" (build_desired_policies snapshot)))
    × (seen.advertised after "10.0.0.1"
        ≡ settled own_route
            (seen.advertised before "10.0.0.1")
            (get "10.0.0.1" (build_desired_advertisements node snapshot)))
reconcile_settles_example =
    reconcile_settles memory seen memory-Honours node first_written snapshot before after clean
      "10.0.0.1"

reconcile_idempotent_example : reconcile memory node first_written snapshot after ≡ ([], after)
reconcile_idempotent_example =
    reconcile_idempotent memory seen memory-Honours node first_written first_written snapshot before
      after after.neighbors after.policies after.advertised clean refl refl refl

abbrev connected : Daemon
connected = record before { neighbors = orphan ∷ gateway_neighbor 65000 "10.0.0.1" ∷ [] }

neighbor_untouched_example :
    seen.neighbors (reconcile memory node first_written snapshot connected).1 "10.0.0.1"
    ≡ seen.neighbors connected "10.0.0.1"
unfolding find has put get build_desired_neighbors want_gateways want_gateway
neighbor_untouched_example =
    neighbor_untouched memory seen memory-Honours node first_written snapshot connected "10.0.0.1"
      refl refl

desired_exactly_example :
    (get "10.0.0.1" (build_desired_neighbors node snapshot)
      ≡ some (gateway_neighbor 65000 "10.0.0.1"))
    × (has "10.1.0.5/32" (build_desired_advertisements node snapshot) ≡ true)
unfolding not_served
desired_exactly_example = desired_exactly node snapshot "10.0.0.1" "10.1.0.5/32"
