-- ===== src/Agent/Bgp.antt =====
-- apps/agent/internal/libs/bgp/interface.go: the contract of the local BGP daemon, on a host `W`.
pub mod Contract
pub mod Internal
pub mod Gateway
use pontifex.Base.{ℕ, String, Bool, List}
use pontifex.Effects.{Call, Query}
use pontifex.GoChan.{Chan}

pub record Neighbor : Type 0 where
  pub name : String
  pub address : String
  pub asn : ℕ  -- uint32
  pub is_ibgp : Bool
  pub next_hop : String
  pub policies : List String

pub data PolicyDirection : Type 0 where
  policy_import policy_export : PolicyDirection

pub record Policy : Type 0 where
  pub name : String
  pub direction : PolicyDirection
  pub match : String
  pub action : String

pub record Route : Type 0 where
  pub prefix : String
  pub next_hop : String
  pub communities : List String

pub data RouteEventType : Type 0 where
  route_added route_withdrawn : RouteEventType

pub record RouteEvent : Type 0 where
  pub type : RouteEventType
  pub route : Route

-- `subscribe` gives the channel of learned routes, as it is when it is handed out.
pub record Server (W : Type 0) : Type 0 where
  pub start : ℕ → String → Call W
  pub stop : Call W
  pub add_neighbor : Neighbor → Call W
  pub remove_neighbor : String → Call W
  pub list_neighbors : Query W (List Neighbor)
  pub add_policy : Policy → Call W
  pub remove_policy : String → Call W
  pub list_policies : Query W (List Policy)
  pub advertise : String → List String → Call W
  pub withdraw : String → Call W
  pub list_advertised : Query W (List Route)
  pub subscribe : W → Chan RouteEvent
