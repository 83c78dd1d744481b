-- ===== src/Agent/Main.antt =====
-- apps/agent/cmd/agent/main.go: the agent's entry point. The command line is what the flags have, and
-- reading a configuration file is an argument, as in Config.
pub mod Starts
use pontifex.Base.{
  ℕ, String, ◌<>◌, Option, none, some, List, [], ◌==◌, comparable_string, if◌then◌else◌,
}
use pontifex.Effects.{
  Error, other, Result, ok, err, Query, Run, Action, ◌>>=◌, ◌>>◌, pure, stop, called,
}
use pontifex.Config.{GatewayConfig, InternalNodeConfig, load_gateway, load_internal_node}
use pontifex.Logging.{Zap, new_logger}
use pontifex.Agent.Bgp.{Server}

-- `-mode` and `-config`, if they are given.
pub record Flags : Type 0 where
  pub mode : Option String
  pub config : Option String

abbrev pub given_or : String → Option String → String
given_or fallback none = fallback
given_or fallback (some s) = s

-- The manager whose `Run` is the rest of `run`. It waits for the context and returns nil.
pub data Manager : Type 0 where
  gateway_manager : GatewayConfig → Manager
  internal_manager : InternalNodeConfig → Manager

-- A result that no host has a part in.
abbrev pub given : {W A : Type 0} → Result A → Action W A
given r s = (r, s)

module _ {Level Logger D : Type 0} (zap : Zap Level Logger)
    (read_gateway : String → Result GatewayConfig)
    (read_internal_node : String → Result InternalNodeConfig) (server : Server D) where
  unfoldable pub start_gateway : String → Action D Manager
  start_gateway path = do
    cfg ← given (load_gateway read_gateway path)
    logger ← given (new_logger zap cfg.log_level)
    stop "start bgp server" (server.start cfg.asn cfg.router_id)
    pure (gateway_manager cfg)

  unfoldable pub start_internal : String → Action D Manager
  start_internal path = do
    cfg ← given (load_internal_node read_internal_node path)
    logger ← given (new_logger zap cfg.log_level)
    stop "start bgp server" (server.start cfg.asn cfg.router_id)
    pure (internal_manager cfg)

  abbrev pub start_mode : String → String → Action D Manager
  start_mode mode path =
      if mode == "gateway"
      then start_gateway path
      else if mode == "internal"
      then start_internal path
      else if mode == ""
      then given (err (other "--mode is required (gateway | internal)"))
      else given (err (other ("unknown --mode \"" <> mode <> "\"")))

  -- `run`, up to the manager's `Run`; an error is what it returns.
  unfoldable pub start : Flags → Query D Manager
  start flags =
      called
        (start_mode (given_or "" flags.mode) (given_or "/etc/pontifex/agent.yaml" flags.config))

-- `main`, once `run` has returned: an error gives the status 1.
abbrev pub exit_status : {A : Type 0} → Result A → ℕ
exit_status (ok _) = 0
exit_status (err _) = 1
