-- ===== src/Agent/Main/Starts.antt =====
-- What must have happened before an agent's manager runs.
use pontifex.Base.{
  ℕ, String, none, ◌≡◌, refl, sym, ap, ◌↔◌, subst, ◌==◌, Bool-cases, Option-cases, inl, inr, arith,
  comparable_string,
}
use pontifex.Effects.{Result, ok, Action, ◌>>=◌, ◌>>◌, pure, stop, called}
use pontifex.Effects.Converge.{Result-cases, err-ne-ok, ok-inj}
use pontifex.Effects.Settles.{pair_eq}
use pontifex.Config.{GatewayConfig, InternalNodeConfig, load_gateway, load_internal_node}
use pontifex.Logging.{Zap, new_logger}
use pontifex.Agent.Bgp.{Server}
use pontifex.Agent.Main.{
  Flags, given_or, given, Manager, gateway_manager, internal_manager, start_gateway, start_internal,
  start,
}

module _ {Level Logger D C : Type 0} (zap : Zap Level Logger) (server : Server D)
    (manager : C → Manager) (level router_id : C → String) (asn : C → ℕ) where
  -- One of the two modes.
  abbrev body : Result C → Action D Manager
  body loaded = do
    cfg ← given loaded
    logger ← given (new_logger zap (level cfg))
    stop "start bgp server" (server.start (asn cfg) (router_id cfg))
    pure (manager cfg)

  abbrev pub Ready : Result C → D → D → C → Type 0
  Ready loaded d d' cfg =
      (loaded ≡ ok cfg)
      × ((logger : Logger) × (new_logger zap (level cfg) ≡ ok logger))
      × (server.start (asn cfg) (router_id cfg) d ≡ (none, d'))

  body-Ready :
      (loaded : Result C) (d d' : D) (m : Manager)
      → called (body loaded) d ≡ (ok m, d')
      → (cfg : C) × (m ≡ manager cfg) × Ready loaded d d' cfg
  body-Ready loaded d d' m h = elim (Result-cases loaded) [
    | inr (x, l) ↦ absurd (err-ne-ok (rw l at (ap (λ p. p.0) h)))
    | inl (cfg, l) ↦ elim (Result-cases (new_logger zap (level cfg))) [
      | inr (x, g) ↦ absurd (err-ne-ok (rw (l, g) at (ap (λ p. p.0) h)))
      | inl (logger, g) ↦ elim (Option-cases (server.start (asn cfg) (router_id cfg) d).0) [
        | inr (x, e) ↦ absurd (err-ne-ok (rw (l, g, e) at (ap (λ p. p.0) h)))
        | inl e ↦ (
          cfg,
          sym (ok-inj (rw (l, g, e) at (ap (λ p. p.0) h))),
          (l, (logger, g), pair_eq e (rw (l, g, e) at (ap (λ p. p.1) h))),
        )
      ]
    ]
  ]

  Ready-body :
      (loaded : Result C) (d d' : D) (cfg : C)
      → Ready loaded d d' cfg
      → called (body loaded) d ≡ (ok (manager cfg), d')
  Ready-body loaded d d' cfg (l, (logger, g), e) = rw (l, g, e) refl

module _ {Level Logger D : Type 0} (zap : Zap Level Logger)
    (read_gateway : String → Result GatewayConfig)
    (read_internal_node : String → Result InternalNodeConfig) (server : Server D) (flags : Flags)
    (d d' : D) where
  abbrev path : String
  path = given_or "/etc/pontifex/agent.yaml" flags.config

  -- The mode, and the steps of it that have succeeded.
  abbrev pub Prepared : Manager → Type 0
  Prepared (gateway_manager cfg) =
      (given_or "" flags.mode ≡ "gateway")
      × Ready zap server gateway_manager GatewayConfig.log_level GatewayConfig.router_id
          GatewayConfig.asn (load_gateway read_gateway path) d d' cfg
  Prepared (internal_manager cfg) =
      (given_or "" flags.mode ≡ "internal")
      × Ready zap server internal_manager InternalNodeConfig.log_level InternalNodeConfig.router_id
          InternalNodeConfig.asn (load_internal_node read_internal_node path) d d' cfg

  pub start-Prepared :
      (m : Manager)
      → start zap read_gateway read_internal_node server flags d ≡ (ok m, d')
      → Prepared m
  unfolding start start_gateway start_internal
  start-Prepared m h = elim (Bool-cases (given_or "" flags.mode == "gateway")) [
    | inl g ↦
        let (cfg, e, ready) =
          body-Ready zap server gateway_manager GatewayConfig.log_level GatewayConfig.router_id
            GatewayConfig.asn (load_gateway read_gateway path) d d' m (rw (g, start) at h) in
        subst Prepared (sym e)
          (ground (arith, g, comparable_string.equal_iff (given_or "" flags.mode) "gateway"), ready)
    | inr g ↦ elim (Bool-cases (given_or "" flags.mode == "internal")) [
      | inl i ↦
          let (cfg, e, ready) =
            body-Ready zap server internal_manager InternalNodeConfig.log_level
              InternalNodeConfig.router_id InternalNodeConfig.asn
              (load_internal_node read_internal_node path) d d' m (rw (g, i, start) at h) in
          subst Prepared (sym e) (
            ground (arith, i, comparable_string.equal_iff (given_or "" flags.mode) "internal"),
            ready,
          )
      | inr i ↦ elim (Bool-cases (given_or "" flags.mode == "")) [
        | inl b ↦ absurd (err-ne-ok (rw (g, i, b, start) at (ap (λ p. p.0) h)))
        | inr b ↦ absurd (err-ne-ok (rw (g, i, b, start) at (ap (λ p. p.0) h)))
      ]
    ]
  ]

  Prepared-start :
      (m : Manager)
      → Prepared m
      → start zap read_gateway read_internal_node server flags d ≡ (ok m, d')
  unfolding start start_gateway start_internal
  Prepared-start (gateway_manager cfg) (mode, ready) =
      rw (mode, start)
        (Ready-body zap server gateway_manager GatewayConfig.log_level GatewayConfig.router_id
          GatewayConfig.asn (load_gateway read_gateway path) d d' cfg ready)
  Prepared-start (internal_manager cfg) (mode, ready) =
      rw (mode, start)
        (Ready-body zap server internal_manager InternalNodeConfig.log_level
          InternalNodeConfig.router_id InternalNodeConfig.asn
          (load_internal_node read_internal_node path) d d' cfg ready)

  -- The agent gets as far as a manager's `Run` exactly when the mode names the manager, its
  -- configuration loads and is the manager's, the level of the configuration gives a logger, and the
  -- BGP server has been started, without an error, with the configuration's ASN and router id.
  pub start_exactly :
      (m : Manager)
      → (start zap read_gateway read_internal_node server flags d ≡ (ok m, d')) ↔ Prepared m
  start_exactly m = (start-Prepared m, Prepared-start m)
