-- ===== src/Agent/Routes.antt =====
-- apps/agent/internal/libs/routes/interface.go: the VRFs, addresses, ip rules and routes of a
-- host `W`.
pub mod Tables
pub mod Learned
pub mod Wanted
pub mod Internal
pub mod Gateway
use pontifex.Base.{ℕ, String, List}
use pontifex.Effects.{Call, Query}

pub record Vrf : Type 0 where
  pub name : String
  pub table_id : ℕ  -- uint32

pub record Addr : Type 0 where
  pub vrf_name : String
  pub ip : String

pub record Rule : Type 0 where
  pub source : String  -- `From`
  pub to : String
  pub table_id : ℕ
  pub iif : String
  pub oif : String

pub record Route : Type 0 where
  pub table_id : ℕ
  pub dst : String
  pub gw : String
  pub dev : String

pub record Routes (W : Type 0) : Type 0 where
  pub ensure_vrf : String → ℕ → Call W
  pub remove_vrf : String → Call W
  pub list_vrfs : Query W (List Vrf)
  pub ensure_addr : String → String → Call W
  pub remove_addr : String → String → Call W
  pub list_addrs : String → Query W (List Addr)
  pub ensure_rule : Rule → Call W
  pub remove_rule : Rule → Call W
  pub list_rules : Query W (List Rule)
  pub add_route : ℕ → String → String → String → Call W
  pub remove_route : ℕ → String → Call W
  pub sync_routes : ℕ → List Route → Call W
  pub list_routes : ℕ → Query W (List Route)
