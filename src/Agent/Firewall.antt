-- ===== src/Agent/Firewall.antt =====
-- apps/agent/internal/libs/firewall/interface.go: the bridges of a host `W` from virtual addresses
-- to pods.
use pontifex.Base.{String, List}
use pontifex.Effects.{Call, Query}

pub record Bridge : Type 0 where
  pub overlay_name : String
  pub virtual_ip : String
  pub pod_ip : String

pub record Firewall (W : Type 0) : Type 0 where
  pub ensure_bridge : String → String → String → Call W
  pub remove_bridge : String → String → Call W
  pub list_bridges : Query W (List Bridge)
