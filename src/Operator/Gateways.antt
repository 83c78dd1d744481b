-- ===== src/Operator/Gateways.antt =====
-- apps/operator/internal/controller/networkoverlay_controller.go: the gateways of a cluster.
pub mod Sorted
use pontifex.Base.{
  String, Bool, true, false, List, [], ◌∷◌, map, Option, none, some, ◌==◌, comparable_string,
  if◌then◌else◌,
}
use pontifex.GoMap.{GoMap, get}
use pontifex.GoSort.{sort_by}
use pontifex.Api.{Gateway}
use pontifex.Operator.Cluster.{NodeAddress, internal_ip, external_ip, other_address, Node}

-- The loop over the addresses, in which the last of each type wins.
unfoldable pub add_addresses : List NodeAddress → Gateway → Gateway
add_addresses [] gw = gw
add_addresses (a ∷ rest) gw = add_addresses rest (elim a.type [
  | internal_ip ↦ record gw { node_ip = a.address }
  | external_ip ↦ record gw { public_ip = a.address }
  | other_address ↦ gw
])

-- `node.Labels[labelName] == "secondary"`
abbrev pub is_label : String → Option String → Bool
is_label value none = value == ""
is_label value (some v) = v == value

unfoldable pub gateway_of : String → Node → Gateway
unfolding add_addresses
gateway_of label_name node = add_addresses node.addresses (record {
  node_name = node.name;
  node_ip = "";
  public_ip = "";
  is_secondary = is_label "secondary" (get label_name node.labels);
})

-- `buildGateways`
unfoldable pub build_gateways : List Node → String → List Gateway
unfolding gateway_of
build_gateways nodes label_name = sort_by Gateway.node_name (map (gateway_of label_name) nodes)
