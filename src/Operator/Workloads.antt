-- ===== src/Operator/Workloads.antt =====
-- apps/operator/internal/agent/internal.go and gateway.go: the Deployments of the agents, with the
-- fields that the operator sets, and its calls of the client library on them.
pub mod Targets
pub mod Gateways
pub mod Deployed
use pontifex.Base.{
  ℕ, String, ◌<>◌, Bool, true, false, not, ◌&&◌, ◌||◌, List, [], ◌∷◌, Option, none, some, ◌==◌,
  comparable_string, if◌then◌else◌,
}
use pontifex.GoMap.{GoMap, GoSet, get, has, insert, index_by, Runtime, keys}
use pontifex.Effects.{Error, Result, ok, err, Call, Query, Action, ◌>>=◌, ◌>>◌, pure, ask, stop}
use pontifex.Api.{NetworkOverlay, EdgeStatus}
use pontifex.Operator.Cluster.{Node, Client}

pub record VolumeMount : Type 0 where
  pub name : String
  pub mount_path : String
  pub sub_path : String
  pub read_only : Bool

-- A volume is its name and the name of its Secret.
abbrev pub Volume : Type 0
Volume = String × String

pub record Container : Type 0 where
  pub name : String
  pub image : String
  pub args : List String
  pub env : List (String × String)
  pub capabilities : List String
  pub mounts : List VolumeMount

-- A required node affinity is the name of the host.
pub record Deployment : Type 0 where
  pub name : String
  pub namespace : String
  pub labels : GoMap String String
  pub replicas : ℕ
  pub selector : Option (GoMap String String)
  pub template_labels : GoMap String String
  pub host_network : Bool
  pub affinity : Option String
  pub volumes : List Volume
  pub containers : List Container

-- `controllerutil.CreateOrUpdate` of the Deployment of this name, and `apierrors.IsNotFound`.
pub record Deployments (W : Type 0) : Type 0 where
  pub list : String → String → Query W (List Deployment)
  pub delete : Deployment → Call W
  pub create_or_update : String → String → (Deployment → Deployment) → Call W
  pub is_not_found : Error → Bool

abbrev pub capabilities : List String
capabilities = "NET_ADMIN" ∷ "NET_RAW" ∷ "SYS_ADMIN" ∷ []

-- The ready edges whose node is no gateway.
abbrev pub is_target : GoSet String → EdgeStatus → Bool
is_target gateways edge =
    edge.ready && not (edge.node_name == "") && not (has edge.node_name gateways)

unfoldable pub target_edges : GoSet String → List EdgeStatus → GoSet String → GoSet String
target_edges gateways [] targets = targets
target_edges gateways (edge ∷ edges) targets =
    target_edges gateways edges
      (if is_target gateways edge then insert edge.node_name targets else targets)

unfoldable pub target_nodes : GoSet String → List NetworkOverlay → GoSet String → GoSet String
target_nodes gateways [] targets = targets
target_nodes gateways (o ∷ os) targets =
    target_nodes gateways os (target_edges gateways o.status.edges targets)

-- `d.Labels["pontifex.io/node"]`
abbrev pub or_blank : Option String → String
or_blank none = ""
or_blank (some s) = s

abbrev pub node_of : Deployment → String
node_of d = or_blank (get "pontifex.io/node" d.labels)

abbrev pub internal_labels : String → GoMap String String
internal_labels node_name =
    ("app.kubernetes.io/name", "pontifex-agent")
    ∷ ("app.kubernetes.io/component", "pontifex-internal")
    ∷ ("pontifex.io/node", node_name)
    ∷ []

abbrev pub or_selector :
    Option (GoMap String String) → GoMap String String → Option (GoMap String String)
or_selector none labels = some labels
or_selector (some s) labels = some s

-- The function that `CreateOrUpdate` applies.
abbrev pub internal_deployment : String → String → Deployment → Deployment
internal_deployment image node_name d = record d {
  labels = internal_labels node_name;
  replicas = 1;
  selector = or_selector d.selector (internal_labels node_name);
  template_labels = internal_labels node_name;
  host_network = true;
  affinity = some node_name;
  containers =
      record {
        name = "agent";
        image = image;
        args = "--mode=internal" ∷ [];
        env = [];
        capabilities = capabilities;
        mounts = [];
      }
      ∷ [];
}

module _ {S W : Type 0} (client : Client S W) (deployments : Deployments W) where
  -- `client.IgnoreNotFound` of the call's error.
  unfoldable pub ignore_not_found : Option Error → Option Error
  ignore_not_found none = none
  ignore_not_found (some x) = if deployments.is_not_found x then none else some x

  abbrev pub delete_deployment : Deployment → Call W
  delete_deployment d w = let (e, w') = deployments.delete d w in (ignore_not_found e, w')

  unfoldable pub delete_orphans : GoSet String → List Deployment → Action W (Unit {0})
  delete_orphans targets [] = pure tt
  delete_orphans targets (d ∷ ds) = elim (has (node_of d) targets) [
    | true ↦ delete_orphans targets ds
    | false ↦ (do
      stop ("delete internal deployment " <> d.name) (delete_deployment d)
      delete_orphans targets ds)
  ]

  unfoldable pub ensure_targets : String → String → List String → Action W (Unit {0})
  ensure_targets namespace image [] = pure tt
  ensure_targets namespace image (node_name ∷ names) = do
    stop ("create/update internal deployment pontifex-internal-" <> node_name) (
        deployments.create_or_update ("pontifex-internal-" <> node_name) namespace
          (internal_deployment image node_name))
    ensure_targets namespace image names

  -- `EnsureInternalDeployments`
  unfoldable pub ensure_internal_deployments :
      Runtime → String → String → String → List NetworkOverlay → Action W (Unit {0})
  unfolding target_nodes delete_orphans ensure_targets
  ensure_internal_deployments rt namespace image gateway_label overlays = do
    gateway_nodes ← ask (client.list_nodes_with_label gateway_label)
    let targets = target_nodes (index_by Node.name gateway_nodes []) overlays []
    ds ← ask (deployments.list namespace "pontifex-internal")
    delete_orphans targets ds
    ensure_targets namespace image (keys rt 0 targets)
