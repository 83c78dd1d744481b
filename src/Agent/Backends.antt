-- ===== src/Agent/Backends.antt =====
-- The libraries behind the agent's interfaces, in apps/agent/internal/libs: bgp/gobgp.go,
-- routes/netlink.go, wg/wgctrl.go and firewall. All are stubs whose methods return
-- `errNotImplemented`.
pub mod Refuses
use pontifex.Base.{String, none, some, Option}
use pontifex.GoChan.{Chan, make_chan}
use pontifex.Effects.{Error, other, err, Call, Query}
use pontifex.Agent.Bgp.{RouteEvent, Server}
use pontifex.Agent.Firewall.{Firewall}
use pontifex.Agent.Routes.{Routes}
use pontifex.Agent.Wireguard.{Manager}

abbrev pub err_not_implemented : Error
err_not_implemented = other "not implemented"

-- A method `return errNotImplemented`, and one `return nil, errNotImplemented`.
abbrev pub call_stub : {W : Type 0} → Call W
call_stub w = (some err_not_implemented, w)

abbrev pub query_stub : {W A : Type 0} → Query W A
query_stub w = (err err_not_implemented, w)

-- `gobgpServer`
pub record GobgpServer : Type 0 where
  pub events : Chan RouteEvent

abbrev pub new_gobgp_server : GobgpServer
new_gobgp_server = record { events = make_chan 64 }

abbrev pub gobgp : Server GobgpServer
gobgp = record {
  start = λ asn router_id. call_stub;
  stop = call_stub;
  add_neighbor = λ n. call_stub;
  remove_neighbor = λ address. call_stub;
  list_neighbors = query_stub;
  add_policy = λ p. call_stub;
  remove_policy = λ name. call_stub;
  list_policies = query_stub;
  advertise = λ prefix communities. call_stub;
  withdraw = λ prefix. call_stub;
  list_advertised = query_stub;
  subscribe = GobgpServer.events;
}

module _ {W : Type 0} where
  -- `NewNetlinkRoutes`
  abbrev pub netlink_routes : Routes W
  netlink_routes = record {
    ensure_vrf = λ name table_id. call_stub;
    remove_vrf = λ name. call_stub;
    list_vrfs = query_stub;
    ensure_addr = λ vrf_name ip. call_stub;
    remove_addr = λ vrf_name ip. call_stub;
    list_addrs = λ vrf_name. query_stub;
    ensure_rule = λ rule. call_stub;
    remove_rule = λ rule. call_stub;
    list_rules = query_stub;
    add_route = λ table_id dst gw dev. call_stub;
    remove_route = λ table_id dst. call_stub;
    sync_routes = λ table_id desired. call_stub;
    list_routes = λ table_id. query_stub;
  }

  -- `NewWGCtrlManager`
  abbrev pub wgctrl_manager : Manager W
  wgctrl_manager = record {
    ensure_interface = λ iface. call_stub;
    remove_interface = λ name. call_stub;
    list_interfaces = query_stub;
  }

  -- `NewIPTables` and `NewNFTables`
  abbrev pub iptables_firewall : Firewall W
  iptables_firewall = record {
    ensure_bridge = λ overlay_name virtual_ip pod_ip. call_stub;
    remove_bridge = λ overlay_name virtual_ip. call_stub;
    list_bridges = query_stub;
  }

  abbrev pub nftables_firewall : Firewall W
  nftables_firewall = record {
    ensure_bridge = λ overlay_name virtual_ip pod_ip. call_stub;
    remove_bridge = λ overlay_name virtual_ip. call_stub;
    list_bridges = query_stub;
  }

pub data Backend : Type 0 where
  backend_auto backend_iptables backend_nftables : Backend

-- `Detect`, of a firewall for each backend; `stat` is the error of `os.Stat`.
unfoldable pub detect :
    {W : Type 0} → Firewall W → Firewall W → (String → Option Error) → Backend → Firewall W
detect iptables nftables stat backend_iptables = iptables
detect iptables nftables stat backend_nftables = nftables
detect iptables nftables stat backend_auto = elim (stat "/proc/net/nf_tables") [
  | none ↦ nftables
  | some _ ↦ iptables
]
