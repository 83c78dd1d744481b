-- ===== src/Config.antt =====
-- apps/operator/internal/config/config.go and apps/agent/internal/config/config.go: the
-- configurations. Reading the YAML file with the expansion of environment variables is the
-- configuration library's `read`, an argument here, whose result is the populated record.
pub mod Loaded
use pontifex.Base.{
  ℕ, ◌<>◌, String, Bool, List, ◌==◌, comparable_string, comparable_number, if◌then◌else◌,
}
use pontifex.Effects.{Error, other, Result, ok, err}

pub record OperatorConfig : Type 0 where
  pub namespace : String
  pub asn : ℕ
  pub agent_image : String
  pub gateway_node_label : String
  pub log_level : String

pub record GatewayConfig : Type 0 where
  pub node_name : String
  pub is_secondary : Bool
  pub wg_listen_port : ℕ
  pub wg_key_dir : String
  pub log_level : String
  pub asn : ℕ
  pub router_id : String

pub record InternalNodeConfig : Type 0 where
  pub node_name : String
  pub firewall : String
  pub log_level : String
  pub asn : ℕ
  pub router_id : String

abbrev pub or_default : String → String → String
or_default fallback s = if s == "" then fallback else s

abbrev pub or_port : ℕ → ℕ → ℕ
or_port fallback n = if n == 0 then fallback else n

-- `applyDefaults` of the operator
unfoldable pub apply_defaults : OperatorConfig → OperatorConfig
apply_defaults c = record c {
  namespace = or_default "pontifex-system" c.namespace;
  agent_image = or_default "ghcr.io/tsamsiyu/pontifex-agent:latest" c.agent_image;
  gateway_node_label = or_default "pontifex.io/gateway-role" c.gateway_node_label;
  log_level = or_default "info" c.log_level;
}

-- `validate`, then the configuration.
unfoldable pub validated : OperatorConfig → Result OperatorConfig
validated c = if c.asn == 0 then err (other "asn is required (set PONTIFEX_ASN)") else ok c

-- `Load`
unfoldable pub load : (String → Result OperatorConfig) → String → Result OperatorConfig
unfolding apply_defaults validated
load read path = elim (read path) [ err x ↦ err x | ok c ↦ validated (apply_defaults c) ]

-- `applyGatewayDefaults` and `LoadGateway`
unfoldable pub apply_gateway_defaults : GatewayConfig → GatewayConfig
apply_gateway_defaults c = record c {
  wg_listen_port = or_port 51820 c.wg_listen_port;
  wg_key_dir = or_default "/etc/pontifex/wg" c.wg_key_dir;
  log_level = or_default "info" c.log_level;
}

unfoldable pub load_gateway : (String → Result GatewayConfig) → String → Result GatewayConfig
unfolding apply_gateway_defaults
load_gateway read path = elim (read path) [ err x ↦ err x | ok c ↦ ok (apply_gateway_defaults c) ]

-- `applyInternalNodeDefaults` and `LoadInternalNode`
unfoldable pub apply_internal_node_defaults : InternalNodeConfig → InternalNodeConfig
apply_internal_node_defaults c = record c {
  firewall = or_default "auto" c.firewall;
  log_level = or_default "info" c.log_level;
}

unfoldable pub load_internal_node :
    (String → Result InternalNodeConfig) → String → Result InternalNodeConfig
unfolding apply_internal_node_defaults
load_internal_node read path = elim (read path) [
  | err x ↦ err x
  | ok c ↦ ok (apply_internal_node_defaults c)
]
