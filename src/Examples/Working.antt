-- ===== src/Examples/Working.antt =====
-- Reconciliations on hosts in memory, whose calls all succeed.
use pontifex.Base.{String, [], ◌≡◌, refl, comparable_string, comparable_number, ℕ}
use pontifex.GoMap.{get}
use pontifex.Effects.Settles.{settled}
use pontifex.Agent.Bgp.Contract.{AllWork, own_route}
use pontifex.Agent.Bgp.Internal as Internal
use pontifex.Agent.Bgp.Internal.Succeeds.{reconcile_converges}
use pontifex.Agent.Routes.Internal as Routes
use pontifex.Agent.Routes.Internal.Contract as Contract
use pontifex.Agent.Routes.Internal.Succeeds.{routes_converge}
use pontifex.Agent.Routes.Wanted.{
  BridgeKey, comparable_bridge_key, want_bridges, want_rules, want_vrfs,
}
use pontifex.Examples.BgpInternal.{before}
use pontifex.Examples.Daemon.{memory, seen, memory-Honours}
use pontifex.Examples.Host as Host
use pontifex.Examples.Host.{tables, bridges, empty_host, host-Honours}
use pontifex.Examples.Memory.{first_written}
use pontifex.Examples.Routes.{node}
use pontifex.Examples.Snapshot as Snapshot
use pontifex.Examples.Snapshot.{snapshot}

memory-AllWork : AllWork memory
memory-AllWork = record {
  list_neighbors = λ w. (_, refl);
  list_policies = λ w. (_, refl);
  list_advertised = λ w. (_, refl);
  add_neighbor = λ n w. refl;
  remove_neighbor = λ a w. refl;
  add_policy = λ p w. refl;
  remove_policy = λ n w. refl;
  advertise = λ p cs w. refl;
  withdraw = λ p w. refl;
}

host-AllWork : Contract.AllWork tables bridges
host-AllWork = record {
  list_vrfs = λ w. (_, refl);
  ensure_vrf = λ n t w. refl;
  remove_vrf = λ n w. refl;
  list_rules = λ w. (_, refl);
  ensure_rule = λ u w. refl;
  remove_rule = λ u w. refl;
  list_addrs = λ v w. (_, refl);
  ensure_addr = λ v ip w. refl;
  remove_addr = λ v ip w. refl;
  sync_routes = λ t rs w. refl;
  list_bridges = λ w. (_, refl);
  ensure_bridge = λ o v p w. refl;
  remove_bridge = λ o v w. refl;
}

reconcile_converges_example :
    ((Internal.reconcile memory Snapshot.node first_written snapshot before).0 ≡ [])
    × ((k : String)
        → let w' = (Internal.reconcile memory Snapshot.node first_written snapshot before).1 in
          (seen.neighbors w' k
            ≡ settled
                (λ n. n)
                (seen.neighbors before k)
                (get k (Internal.build_desired_neighbors Snapshot.node snapshot)))
          × (seen.policies w' k
              ≡ settled
                  (λ p. p)
                  (seen.policies before k)
                  (get k (Internal.build_desired_policies snapshot)))
          × (seen.advertised w' k
              ≡ settled own_route
                  (seen.advertised before k)
                  (get k (Internal.build_desired_advertisements Snapshot.node snapshot))))
reconcile_converges_example =
    reconcile_converges memory seen memory-Honours memory-AllWork Snapshot.node first_written
      snapshot before

routes_converge_example :
    ((Routes.reconcile tables bridges node first_written snapshot empty_host).0 ≡ [])
    × (let w' = (Routes.reconcile tables bridges node first_written snapshot empty_host).1 in
        ((n : String)
          → Host.seen.vrfs w' n
            ≡ settled (λ v. v) (Host.seen.vrfs empty_host n) (get n (want_vrfs snapshot [])))
        × ((t : ℕ)
            → Host.seen.rules w' t
              ≡ settled (λ u. u) (Host.seen.rules empty_host t) (get t (want_rules snapshot [])))
        × ((b : BridgeKey)
            → Host.seen.bridges w' b
              ≡ settled
                  (λ v. v)
                  (Host.seen.bridges empty_host b)
                  (get b (want_bridges node.node_name snapshot []))))
routes_converge_example =
    routes_converge tables bridges host-AllWork node first_written Host.seen host-Honours snapshot
      empty_host
