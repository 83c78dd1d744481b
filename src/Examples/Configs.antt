-- ===== src/Examples/Configs.antt =====
-- The configuration of an operator from a file that gives the ASN and a namespace.
use pontifex.Base.{◌≡◌, String, false, refl, ◌==◌, comparable_number, comparable_string}
use pontifex.Effects.{Result, ok}
use pontifex.Config.{OperatorConfig, load, apply_defaults, validated}
use pontifex.Config.Loaded.{Filled, load-Filled}

abbrev given : OperatorConfig
given = record {
  namespace = "net";
  asn = 65000;
  agent_image = "";
  gateway_node_label = "";
  log_level = "";
}

abbrev read : String → Result OperatorConfig
read path = ok given

load-Filled_example :
    (g : OperatorConfig) × (ok given ≡ ok g)
    × (65000 ≡ g.asn)
    × (given.asn == 0 ≡ false)
    × Filled g.namespace "net"
    × Filled g.agent_image "ghcr.io/tsamsiyu/pontifex-agent:latest"
    × Filled g.gateway_node_label "pontifex.io/gateway-role"
    × Filled g.log_level "info"
unfolding load apply_defaults validated
load-Filled_example = load-Filled read "/etc/pontifex/operator.yaml" (apply_defaults given) refl
