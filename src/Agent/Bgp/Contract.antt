-- ===== src/Agent/Bgp/Contract.antt =====
-- What the reconcilers rely on of a BGP daemon: each kind of item is keyed, its calls act on the
-- item of their key alone and on no other kind, and a listing reports what is there.
use pontifex.Base.{String, List, Option, ◌≡◌, comparable_string}
use pontifex.Effects.Succeeds.{Works, Answers}
use pontifex.Effects.Keyed.{Removes, Installs, Lists}
use pontifex.Agent.Bgp.{Neighbor, Policy, Route, Server}

-- The parts of a daemon that a client can see.
pub record View (W : Type 0) : Type 0 where
  pub neighbors : W → String → Option Neighbor
  pub policies : W → String → Option Policy
  pub advertised : W → String → Option Route

-- The route that `Advertise` makes.
abbrev pub own_route : Route → Route
own_route r = record r { next_hop = "" }

pub record Honours {W : Type 0} (server : Server W) (view : View W) : Type 0 where
  pub lists_neighbors : Lists view.neighbors Neighbor.address server.list_neighbors
  pub lists_policies : Lists view.policies Policy.name server.list_policies
  pub lists_advertised : Lists view.advertised Route.prefix server.list_advertised
  pub removes_neighbor :
      Removes view.neighbors Neighbor.address (λ n. server.remove_neighbor n.address)
  pub removes_policy : Removes view.policies Policy.name (λ p. server.remove_policy p.name)
  pub withdraws : Removes view.advertised Route.prefix (λ r. server.withdraw r.prefix)
  pub adds_neighbor : Installs view.neighbors Neighbor.address (λ n. n) (λ n. server.add_neighbor n)
  pub adds_policy : Installs view.policies Policy.name (λ p. p) (λ p. server.add_policy p)
  pub advertises :
      Installs view.advertised Route.prefix own_route (λ r. server.advertise r.prefix r.communities)
  pub add_neighbor-policies :
      (n : Neighbor) (w : W) → view.policies (server.add_neighbor n w).1 ≡ view.policies w
  pub add_neighbor-advertised :
      (n : Neighbor) (w : W) → view.advertised (server.add_neighbor n w).1 ≡ view.advertised w
  pub remove_neighbor-policies :
      (a : String) (w : W) → view.policies (server.remove_neighbor a w).1 ≡ view.policies w
  pub remove_neighbor-advertised :
      (a : String) (w : W) → view.advertised (server.remove_neighbor a w).1 ≡ view.advertised w
  pub add_policy-neighbors :
      (p : Policy) (w : W) → view.neighbors (server.add_policy p w).1 ≡ view.neighbors w
  pub add_policy-advertised :
      (p : Policy) (w : W) → view.advertised (server.add_policy p w).1 ≡ view.advertised w
  pub remove_policy-neighbors :
      (a : String) (w : W) → view.neighbors (server.remove_policy a w).1 ≡ view.neighbors w
  pub remove_policy-advertised :
      (a : String) (w : W) → view.advertised (server.remove_policy a w).1 ≡ view.advertised w
  pub advertise-neighbors :
      (p : String) (cs : List String) (w : W)
      → view.neighbors (server.advertise p cs w).1 ≡ view.neighbors w
  pub advertise-policies :
      (p : String) (cs : List String) (w : W)
      → view.policies (server.advertise p cs w).1 ≡ view.policies w
  pub withdraw-neighbors :
      (p : String) (w : W) → view.neighbors (server.withdraw p w).1 ≡ view.neighbors w
  pub withdraw-policies :
      (p : String) (w : W) → view.policies (server.withdraw p w).1 ≡ view.policies w

-- A daemon on which every call of the reconcilers returns nil, whatever its state.
pub record AllWork {W : Type 0} (server : Server W) : Type 0 where
  pub list_neighbors : Answers server.list_neighbors
  pub list_policies : Answers server.list_policies
  pub list_advertised : Answers server.list_advertised
  pub add_neighbor : (n : Neighbor) → Works (server.add_neighbor n)
  pub remove_neighbor : (address : String) → Works (server.remove_neighbor address)
  pub add_policy : (p : Policy) → Works (server.add_policy p)
  pub remove_policy : (name : String) → Works (server.remove_policy name)
  pub advertise : (prefix : String) (cs : List String) → Works (server.advertise prefix cs)
  pub withdraw : (prefix : String) → Works (server.withdraw prefix)
