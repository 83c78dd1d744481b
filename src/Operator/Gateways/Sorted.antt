-- ===== src/Operator/Gateways/Sorted.antt =====
-- The gateways of a cluster are its labelled nodes in the order of their names.
use pontifex.Base.{
  String, List, [], ◌∷◌, ◌≡◌, refl, ap, ◌∙◌, map, Permᴰ, ◌==◌, comparable_string, Option-cases, inl,
  inr, ◌⊎◌,
}
use pontifex.GoMap.{get}
use pontifex.GoSort.{sort_by, SortedBy, sort_by-SortedBy, sort_by-Permᴰ, sort_by-map}
use pontifex.Api.{Gateway}
use pontifex.Operator.Cluster.{
  AddressType, internal_ip, external_ip, other_address, NodeAddress, Node,
}
use pontifex.Operator.Gateways.{add_addresses, gateway_of, build_gateways}
use pontifex.Operator.Workloads.{or_blank}

-- The internal and the external addresses of a node, in order.
abbrev internal_ips : List NodeAddress → List String
internal_ips [] = []
internal_ips (a ∷ rest) =
    let more = internal_ips rest in
    elim a.type [ internal_ip ↦ a.address ∷ more | external_ip ↦ more | other_address ↦ more ]

abbrev external_ips : List NodeAddress → List String
external_ips [] = []
external_ips (a ∷ rest) =
    let more = external_ips rest in
    elim a.type [ internal_ip ↦ more | external_ip ↦ a.address ∷ more | other_address ↦ more ]

abbrev last_or : String → List String → String
last_or old [] = old
last_or old (x ∷ xs) = last_or x xs

-- A node as a gateway: its name, its last internal and its last external address, blank where it has
-- none, and whether the value of its label is "secondary".
abbrev pub node_as_gateway : String → Node → Gateway
node_as_gateway label node = record {
  node_name = node.name;
  node_ip = last_or "" (internal_ips node.addresses);
  public_ip = last_or "" (external_ips node.addresses);
  is_secondary = or_blank (get label node.labels) == "secondary";
}

AddressType-cases :
    (t : AddressType) → (t ≡ internal_ip) ⊎ ((t ≡ external_ip) ⊎ (t ≡ other_address))
AddressType-cases internal_ip = inl refl
AddressType-cases external_ip = inr (inl refl)
AddressType-cases other_address = inr (inr refl)

add_addresses_lem :
    (addresses : List NodeAddress) (gw : Gateway)
    → add_addresses addresses gw ≡ record gw {
      node_ip = last_or gw.node_ip (internal_ips addresses);
      public_ip = last_or gw.public_ip (external_ips addresses);
    }
unfolding add_addresses
add_addresses_lem [] gw = refl
add_addresses_lem (a ∷ rest) gw = elim (AddressType-cases a.type) [
  | inl p ↦ rw (p, add_addresses, internal_ips, external_ips) (add_addresses_lem rest _)
  | inr (inl p) ↦ rw (p, add_addresses, internal_ips, external_ips) (add_addresses_lem rest _)
  | inr (inr p) ↦ rw (p, add_addresses, internal_ips, external_ips) (add_addresses_lem rest gw)
]

gateway_of_lem : (label : String) (node : Node) → gateway_of label node ≡ node_as_gateway label node
unfolding gateway_of
gateway_of_lem label node =
    add_addresses_lem node.addresses _
    ∙ elim (Option-cases (get label node.labels)) [ inl p ↦ rw p refl | inr (v, p) ↦ rw p refl ]

map_cong :
    {A B : Type 0} {f g : A → B} → ((x : A) → f x ≡ g x) → (xs : List A) → map f xs ≡ map g xs
map_cong h [] = refl
map_cong {f} {g} h (x ∷ xs) = ap (λ y. y ∷ map f xs) (h x) ∙ ap (λ ys. g x ∷ ys) (map_cong h xs)

-- `buildGateways` gives the nodes, each as a gateway, in the order of their names.
pub build_gateways-SortedBy :
    (nodes : List Node) (label : String)
    → (sorted : List Node) × Permᴰ nodes sorted
      × SortedBy Node.name sorted
      × (build_gateways nodes label ≡ map (node_as_gateway label) sorted)
unfolding build_gateways
build_gateways-SortedBy nodes label = (
  sort_by Node.name nodes,
  sort_by-Permᴰ Node.name nodes,
  sort_by-SortedBy Node.name nodes,
  ap (sort_by Gateway.node_name) (map_cong (gateway_of_lem label) nodes)
      ∙ sort_by-map Node.name Gateway.node_name (node_as_gateway label) (λ n. refl) nodes,
)
