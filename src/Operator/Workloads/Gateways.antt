-- ===== src/Operator/Workloads/Gateways.antt =====
-- apps/operator/internal/agent/gateway.go: the two Deployments of the gateway agents.
pub mod Chosen
pub mod Pinned
use pontifex.Base.{
  ℕ, String, ◌<>◌, Bool, true, false, List, [], ◌∷◌, ◌++◌, Option, none, some, map, ◌==◌,
  comparable_string, if◌then◌else◌,
}
use pontifex.GoMap.{GoMap, get, put, Runtime, entries}
use pontifex.GoSort.{sort_by}
use pontifex.Effects.{Action, ◌>>=◌, ◌>>◌, pure, ask, stop}
use pontifex.Api.{NetworkOverlay, SecretReference}
use pontifex.Operator.Cluster.{Node, Client}
use pontifex.Operator.Workloads.{
  VolumeMount, Volume, Container, Deployment, Deployments, capabilities, or_blank, or_selector,
}

abbrev pub or_no_nodes : Option (List Node) → List Node
or_no_nodes none = []
or_no_nodes (some ns) = ns

-- `n.Labels[gatewayLabel]`
abbrev pub role_of : String → Node → String
role_of label node = or_blank (get label node.labels)

unfoldable pub by_role : String → List Node → GoMap String (List Node) → GoMap String (List Node)
by_role label [] m = m
by_role label (n ∷ ns) m =
    by_role label ns (put (role_of label n) (or_no_nodes (get (role_of label n) m) ++ n ∷ []) m)

-- The loop that sorts the nodes of each role.
unfoldable pub sort_roles :
    List (String × List Node) → GoMap String (List Node) → GoMap String (List Node)
sort_roles [] m = m
sort_roles ((role, nodes) ∷ rest) m = sort_roles rest (put role (sort_by Node.name nodes) m)

-- The node of a role: the first one, if there is one.
abbrev pub first_node : List Node → Option String
first_node [] = none
first_node (n ∷ ns) = some n.name

abbrev pub chosen_node : String → GoMap String (List Node) → Option String
chosen_node role roles = first_node (or_no_nodes (get role roles))

abbrev pub secret_volume : NetworkOverlay → SecretReference → Volume
secret_volume o ref = ("wg-" <> o.name, ref.name)

abbrev pub secret_mount : NetworkOverlay → VolumeMount
secret_mount o = record {
  name = "wg-" <> o.name;
  mount_path = "/etc/pontifex/wg/" <> o.name <> "/private";
  sub_path = "private";
  read_only = true;
}

-- `buildWGVolumes`
unfoldable pub build_wg_volumes : List NetworkOverlay → List Volume × List VolumeMount
build_wg_volumes [] = ([], [])
build_wg_volumes (o ∷ os) =
    let (volumes, mounts) = build_wg_volumes os in
    elim o.status.wg_secret_ref [
      | none ↦ (volumes, mounts)
      | some ref ↦ (secret_volume o ref ∷ volumes, secret_mount o ∷ mounts)
    ]

abbrev pub gateway_labels : String → GoMap String String
gateway_labels role =
    ("app.kubernetes.io/name", "pontifex-agent")
    ∷ ("app.kubernetes.io/component", "gateway")
    ∷ ("pontifex.io/role", role)
    ∷ []

abbrev one_if_some : Option String → ℕ
one_if_some none = 0
one_if_some (some n) = 1

-- The function that `CreateOrUpdate` applies.
abbrev pub gateway_deployment :
    String → String → Option String → List Volume → List VolumeMount → Deployment → Deployment
gateway_deployment image role chosen volumes mounts d = record d {
  labels = gateway_labels role;
  replicas = one_if_some chosen;
  selector = or_selector d.selector (gateway_labels role);
  template_labels = gateway_labels role;
  host_network = true;
  affinity = chosen;
  volumes = volumes;
  containers =
      record {
        name = "agent";
        image = image;
        args = "--mode=gateway" ∷ [];
        env = ("IS_SECONDARY", if role == "secondary" then "true" else "false") ∷ [];
        capabilities = capabilities;
        mounts = mounts;
      }
      ∷ [];
}

module _ {S W : Type 0} (client : Client S W) (deployments : Deployments W) where
  unfoldable pub ensure_roles :
      String
      → String
      → GoMap String (List Node)
      → List NetworkOverlay
      → List String
      → Action W (Unit {0})
  unfolding build_wg_volumes
  ensure_roles namespace image roles overlays [] = pure tt
  ensure_roles namespace image roles overlays (role ∷ rest) = do
    let (volumes, mounts) = build_wg_volumes overlays
    stop ("create/update gateway deployment pontifex-gateway-" <> role) (
        deployments.create_or_update ("pontifex-gateway-" <> role) namespace
          (gateway_deployment image role (chosen_node role roles) volumes mounts))
    ensure_roles namespace image roles overlays rest

  -- `EnsureGatewayDeployments`
  unfoldable pub ensure_gateway_deployments :
      Runtime → String → String → String → List NetworkOverlay → Action W (Unit {0})
  unfolding by_role sort_roles ensure_roles
  ensure_gateway_deployments rt namespace image label overlays = do
    nodes ← ask (client.list_nodes_with_label label)
    let grouped = by_role label nodes []
    ensure_roles namespace image (sort_roles (entries rt 0 grouped) grouped) overlays
        ("primary" ∷ "secondary" ∷ [])
