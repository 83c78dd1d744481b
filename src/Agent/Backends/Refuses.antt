-- ===== src/Agent/Backends/Refuses.antt =====
-- What the agent does with the libraries of the repository, all of them stubs.
use pontifex.Base.{String, ◌≡◌, refl, inl, inr}
use pontifex.Effects.{Result}
use pontifex.Effects.Converge.{Result-cases}
use pontifex.Config.{GatewayConfig, InternalNodeConfig}
use pontifex.Logging.{Zap}
use pontifex.Agent.Main.{Flags, Manager, gateway_manager, internal_manager, start, exit_status}
use pontifex.Agent.Main.Starts.{Prepared, start-Prepared}
use pontifex.Agent.Backends.{GobgpServer, gobgp}

module _ {Level Logger : Type 0} (zap : Zap Level Logger)
    (read_gateway : String → Result GatewayConfig)
    (read_internal_node : String → Result InternalNodeConfig) (flags : Flags)
    (d d' : GobgpServer) where
  no_manager : (m : Manager) → Prepared zap read_gateway read_internal_node gobgp flags d d' m → ⊥
  no_manager (gateway_manager cfg) (_, (_, _, e)) = cc
  no_manager (internal_manager cfg) (_, (_, _, e)) = cc

module _ {Level Logger : Type 0} (zap : Zap Level Logger)
    (read_gateway : String → Result GatewayConfig)
    (read_internal_node : String → Result InternalNodeConfig) (flags : Flags)
    (d : GobgpServer) where
  -- With the repository's GoBGP server the agent exits with the status 1, whatever the flags, the
  -- files and the logging library: no manager ever runs.
  pub agent_exits : exit_status (start zap read_gateway read_internal_node gobgp flags d).0 ≡ 1
  agent_exits = elim (Result-cases (start zap read_gateway read_internal_node gobgp flags d).0) [
    | inr (x, e) ↦ rw e refl
    | inl (m, e) ↦ absurd (
        no_manager zap read_gateway read_internal_node flags d _ m (
          start-Prepared zap read_gateway read_internal_node gobgp flags d _ m
            (λ i. (e i, (start zap read_gateway read_internal_node gobgp flags d).1))))
  ]
