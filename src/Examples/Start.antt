-- ===== src/Examples/Start.antt =====
-- Starting an agent, with a server that starts and with the repository's.
use pontifex.Base.{String, false, none, some, ◌≡◌, ◌↔◌, comparable_string}
use pontifex.Effects.{Result, ok}
use pontifex.Config.{GatewayConfig, InternalNodeConfig}
use pontifex.Logging.{Zap}
use pontifex.Agent.Main.{Flags, internal_manager, start, exit_status}
use pontifex.Agent.Main.Starts.{Prepared, start_exactly}
use pontifex.Agent.Backends.{gobgp, new_gobgp_server}
use pontifex.Agent.Backends.Refuses.{agent_exits}
use pontifex.Examples.Daemon.{memory}
use pontifex.Examples.Managers.{cfg, idle}

-- A logging library with levels and loggers that are names.
abbrev zap : Zap String String
zap = record {
  unmarshal_level = λ s. ok s;
  build = λ level. elim level [ none ↦ ok "info" | some s ↦ ok s ];
}

abbrev read_gateway : String → Result GatewayConfig
read_gateway path = ok (record {
  node_name = "g1";
  is_secondary = false;
  wg_listen_port = 0;
  wg_key_dir = "";
  log_level = "";
  asn = 65000;
  router_id = "10.0.0.1";
})

abbrev read_internal_node : String → Result InternalNodeConfig
read_internal_node path = ok cfg

abbrev flags : Flags
flags = record { mode = some "internal"; config = none }

start_exactly_example :
    (start zap read_gateway read_internal_node memory flags idle
      ≡ (ok (internal_manager cfg), idle))
    ↔ Prepared zap read_gateway read_internal_node memory flags idle idle (internal_manager cfg)
start_exactly_example =
    start_exactly zap read_gateway read_internal_node memory flags idle idle (internal_manager cfg)

agent_exits_example :
    exit_status (start zap read_gateway read_internal_node gobgp flags new_gobgp_server).0 ≡ 1
agent_exits_example = agent_exits zap read_gateway read_internal_node flags new_gobgp_server
