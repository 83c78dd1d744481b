-- ===== src/Operator/Main.antt =====
-- apps/operator/cmd/operator/main.go and `SetupWithManager` of
-- apps/operator/internal/controller/networkoverlay_controller.go. Of the controller library, the
-- calls that the code makes of a manager are an argument.
pub mod Never
use pontifex.Base.{String, Option, none, some, List, [], map}
use pontifex.GoMap.{Runtime}
use pontifex.Effects.{
  Error, other, Result, ok, err, Call, Query, Run, Action, ◌>>=◌, ◌>>◌, ask, stop, called,
}
use pontifex.Api.{NetworkOverlay}
use pontifex.Config.{OperatorConfig, load}
use pontifex.Logging.{Zap, new_logger}
use pontifex.Operator.Cluster.{Client}
use pontifex.Operator.Controller.{Services, reconcile}
use pontifex.Operator.Workloads.{Deployments}

-- The stubs `Generator.EnsureKeyPair` of apps/operator/internal/wgkeys and `EnsureAgentRBAC` of
-- apps/operator/internal/agent/rbac.go.
abbrev pub generate_key_pair : {W : Type 0} → NetworkOverlay → Query W (String × String)
generate_key_pair overlay w = (err (other "not implemented"), w)

abbrev pub ensure_agent_rbac : {W : Type 0} → String → Call W
ensure_agent_rbac namespace w = (some (other "not implemented"), w)

-- The client library's part of the reconciler, with the stubs that `run` gives to it.
abbrev pub with_stubs : {W : Type 0} → Services W → Services W
with_stubs services = record services {
  ensure_key_pair = generate_key_pair;
  ensure_rbac = ensure_agent_rbac;
}

-- The function of `enqueueAll`: a request for each overlay, or nil when the listing fails.
unfoldable pub enqueue_all : {S W : Type 0} → Client S W → W → List String × W
enqueue_all client w =
    let (r, w') = client.list_overlays w in
    elim r [ ok overlays ↦ (map NetworkOverlay.name overlays, w') | err _ ↦ ([], w') ]

-- A manager of the controller library. `complete` gets the reconciler for a request, and the
-- function that turns a change of any pod and any node into requests.
pub record Manager (W : Type 0) : Type 0 where
  pub create : String → String → Call W
  pub complete : (String → Call W) → (W → List String × W) → Call W
  pub add_healthz_check : Call W
  pub add_readyz_check : Call W
  pub start : Call W

-- The flags, if they are given.
pub record Flags : Type 0 where
  pub config : Option String
  pub metrics_bind_address : Option String
  pub health_probe_bind_address : Option String

abbrev pub given_or : String → Option String → String
given_or fallback none = fallback
given_or fallback (some s) = s

module _ {S W Level Logger : Type 0} (zap : Zap Level Logger)
    (read : String → Result OperatorConfig) (manager : Manager W) (client : Client S W)
    (services : Services W) (deployments : Deployments W) (rt : Runtime) where
  unfoldable pub setup_with_manager : OperatorConfig → Call W
  setup_with_manager cfg =
      manager.complete (reconcile client (with_stubs services) deployments cfg rt)
        (enqueue_all client)

  -- `run`
  unfoldable pub run : Flags → Query W (Unit {0})
  run flags = called (do
    cfg ← ask (λ w. (load read (given_or "/etc/pontifex/operator.yaml" flags.config), w))
    logger ← ask (λ w. (new_logger zap cfg.log_level, w))
    stop "create manager" (
        manager.create (given_or ":8080" flags.metrics_bind_address)
          (given_or ":8081" flags.health_probe_bind_address))
    stop "setup NetworkOverlay controller" (setup_with_manager cfg)
    stop "add healthz" manager.add_healthz_check
    stop "add readyz" manager.add_readyz_check
    stop "manager exited" manager.start)
