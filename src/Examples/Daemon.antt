-- ===== src/Examples/Daemon.antt =====
-- A BGP daemon in memory honours the contract.
use pontifex.Base.{List, ◌∷◌, none, refl, arith, ==-self, comparable_string}
use pontifex.GoChan.{make_chan}
use pontifex.GoMap.Ranges.{find, has_key-eq-is_some}
use pontifex.Effects.{ok}
use pontifex.Agent.Bgp.{Neighbor, Policy, Route, Server}
use pontifex.Agent.Bgp.Contract.{View, Honours}
use pontifex.Examples.Memory.{discard, find-discard}

pub record Daemon : Type 0 where
  pub neighbors : List Neighbor
  pub policies : List Policy
  pub advertised : List Route

abbrev pub memory : Server Daemon
memory = record {
  start = λ asn router_id d. (none, d);
  stop = λ d. (none, d);
  add_neighbor = λ n d. (none, record d { neighbors = n ∷ d.neighbors });
  remove_neighbor = λ a d. (none, record d { neighbors = discard Neighbor.address a d.neighbors });
  list_neighbors = λ d. (ok d.neighbors, d);
  add_policy = λ p d. (none, record d { policies = p ∷ d.policies });
  remove_policy = λ a d. (none, record d { policies = discard Policy.name a d.policies });
  list_policies = λ d. (ok d.policies, d);
  advertise = λ p cs d. (
    none,
    record d { advertised = record { prefix = p; next_hop = ""; communities = cs } ∷ d.advertised },
  );
  withdraw = λ p d. (none, record d { advertised = discard Route.prefix p d.advertised });
  list_advertised = λ d. (ok d.advertised, d);
  subscribe = λ d. make_chan 64;
}

abbrev pub seen : View Daemon
seen = record {
  neighbors = λ d a. find Neighbor.address a d.neighbors;
  policies = λ d a. find Policy.name a d.policies;
  advertised = λ d a. find Route.prefix a d.advertised;
}

pub memory-Honours : Honours memory seen
unfolding find
memory-Honours = record {
  lists_neighbors = record {
    unchanged = λ w. refl;
    complete = λ w xs k h. ground (arith, h, has_key-eq-is_some Neighbor.address k xs);
  };
  lists_policies = record {
    unchanged = λ w. refl;
    complete = λ w xs k h. ground (arith, h, has_key-eq-is_some Policy.name k xs);
  };
  lists_advertised = record {
    unchanged = λ w. refl;
    complete = λ w xs k h. ground (arith, h, has_key-eq-is_some Route.prefix k xs);
  };
  removes_neighbor = record {
    gone = λ x w h.
        ground
          (arith, find-discard Neighbor.address x.address x.address w.neighbors, ==-self x.address);
    others = λ x w k h. ground (arith, h, find-discard Neighbor.address x.address k w.neighbors);
  };
  removes_policy = record {
    gone =
        λ x w h. ground (arith, find-discard Policy.name x.name x.name w.policies, ==-self x.name);
    others = λ x w k h. ground (arith, h, find-discard Policy.name x.name k w.policies);
  };
  withdraws = record {
    gone = λ x w h.
        ground (arith, find-discard Route.prefix x.prefix x.prefix w.advertised, ==-self x.prefix);
    others = λ x w k h. ground (arith, h, find-discard Route.prefix x.prefix k w.advertised);
  };
  adds_neighbor = record {
    there = λ x w h. ground (arith, ==-self x.address);
    others = λ x w k h. ground (arith, h);
  };
  adds_policy = record {
    there = λ x w h. ground (arith, ==-self x.name);
    others = λ x w k h. ground (arith, h);
  };
  advertises = record {
    there = λ x w h. ground (arith, ==-self x.prefix);
    others = λ x w k h. ground (arith, h);
  };
  add_neighbor-policies = λ n w. refl;
  add_neighbor-advertised = λ n w. refl;
  remove_neighbor-policies = λ n w. refl;
  remove_neighbor-advertised = λ n w. refl;
  add_policy-neighbors = λ n w. refl;
  add_policy-advertised = λ n w. refl;
  remove_policy-neighbors = λ n w. refl;
  remove_policy-advertised = λ n w. refl;
  advertise-neighbors = λ n cs w. refl;
  advertise-policies = λ n cs w. refl;
  withdraw-neighbors = λ n w. refl;
  withdraw-policies = λ n w. refl;
}
