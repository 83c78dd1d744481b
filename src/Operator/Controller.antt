-- ===== src/Operator/Controller.antt =====
-- apps/operator/internal/controller/networkoverlay_controller.go: the reconciliation of one
-- NetworkOverlay. `Patch` writes the server's answer into the object, so a patch returns an overlay.
pub mod Allocates
pub mod Deletes
pub mod Equal
pub mod Live
pub mod Contract
pub mod Steps
pub mod Places
pub mod Fills
pub mod Reconciled
pub mod Stores
pub mod Unique
pub mod Preserved
pub mod Apart
use pontifex.Base.{
  ℕ, String, ◌<>◌, Bool, true, false, not, ◌&&◌, ◌||◌, List, [], ◌∷◌, ◌++◌, Option, none, some,
  ◌==◌, any, comparable_string, if◌then◌else◌,
}
use pontifex.GoMap.{Runtime}
use pontifex.Effects.{
  Error, Result, ok, err, Call, Query, Run, Action, ◌>>=◌, ◌>>◌, pure, ask, query, stop, called,
  wrapping,
}
use pontifex.Api.{NetworkOverlay, Gateway, EdgeStatus, SecretReference}
use pontifex.Config.{OperatorConfig}
use pontifex.Operator.Cluster.{Client}
use pontifex.Operator.Community.{allocate_community}
use pontifex.Operator.Edges.{resolve_edges}
use pontifex.Operator.Gateways.{build_gateways}
use pontifex.Operator.Workloads.{Deployments, ensure_internal_deployments}
use pontifex.Operator.Workloads.Gateways.{ensure_gateway_deployments}

-- The reconciler's calls of the client library on overlays, its interfaces `KeyPairEnsurer` and
-- `rbacEnsurer`.
pub record Services (W : Type 0) : Type 0 where
  pub get_overlay : String → Query W NetworkOverlay
  pub patch : NetworkOverlay → NetworkOverlay → Query W NetworkOverlay
  pub patch_status : NetworkOverlay → NetworkOverlay → Query W NetworkOverlay
  pub ensure_key_pair : NetworkOverlay → Query W (String × String)
  pub ensure_rbac : String → Call W

abbrev finalizer_name : String
finalizer_name = "pontifex.io/networkoverlay"

-- `controllerutil.ContainsFinalizer`, `AddFinalizer` and `RemoveFinalizer`
abbrev pub contains_finalizer : NetworkOverlay → Bool
contains_finalizer ov = any (λ f. f == finalizer_name) ov.finalizers

abbrev pub add_finalizer : NetworkOverlay → NetworkOverlay
add_finalizer ov = record ov { finalizers = ov.finalizers ++ finalizer_name ∷ [] }

abbrev without_finalizer : List String → List String
without_finalizer [] = []
without_finalizer (f ∷ fs) =
    let rest = without_finalizer fs in if f == finalizer_name then rest else f ∷ rest

abbrev pub remove_finalizer : NetworkOverlay → NetworkOverlay
remove_finalizer ov = record ov { finalizers = without_finalizer ov.finalizers }

abbrev bool_equal : Bool → Bool → Bool
bool_equal true b = b
bool_equal false b = not b

abbrev pub gateway_equal : Gateway → Gateway → Bool
gateway_equal g h =
    g.node_name == h.node_name
    && g.node_ip == h.node_ip
    && g.public_ip == h.public_ip
    && bool_equal g.is_secondary h.is_secondary

abbrev pub edge_equal : EdgeStatus → EdgeStatus → Bool
edge_equal a b =
    a.virtual_ip == b.virtual_ip
    && a.pod_namespace == b.pod_namespace
    && a.pod_name == b.pod_name
    && a.pod_ip == b.pod_ip
    && a.node_name == b.node_name
    && a.node_ip == b.node_ip
    && bool_equal a.ready b.ready

abbrev all_equal : {A : Type 0} → (A → A → Bool) → List A → List A → Bool
all_equal equal [] [] = true
all_equal equal (x ∷ xs) (y ∷ ys) = equal x y && all_equal equal xs ys
all_equal equal _ _ = false

-- `reflect.DeepEqual` of a slice of the server's, which is nil when it is empty, and of one from
-- `make`, which never is: two empty ones differ.
abbrev pub deep_equal : {A : Type 0} → (A → A → Bool) → List A → List A → Bool
deep_equal equal [] _ = false
deep_equal equal (x ∷ xs) ys = all_equal equal (x ∷ xs) ys

abbrev pub with_gateways : List Gateway → NetworkOverlay → NetworkOverlay
with_gateways gws ov = record ov { status = record ov.status { gateways = gws } }

abbrev pub with_community : String → NetworkOverlay → NetworkOverlay
with_community c ov = record ov { status = record ov.status { community = c } }

abbrev pub with_edges : List EdgeStatus → NetworkOverlay → NetworkOverlay
with_edges edges ov = record ov { status = record ov.status { edges = edges } }

abbrev pub with_keys : String → String → String → NetworkOverlay → NetworkOverlay
with_keys public_key secret namespace ov = record ov {
  status = record ov.status {
    public_key = public_key;
    wg_secret_ref = some (record { name = secret; namespace = namespace });
  };
}

abbrev pub names_secret : String → Option SecretReference → Bool
names_secret secret none = false
names_secret secret (some ref) = ref.name == secret

abbrev pub as_error : Result (Unit {0}) → Option Error
as_error (ok _) = none
as_error (err x) = some x

abbrev pub others_than : String → List NetworkOverlay → List NetworkOverlay
others_than name [] = []
others_than name (o ∷ os) =
    let rest = others_than name os in if o.name == name then rest else o ∷ rest

module _ {S W : Type 0} (client : Client S W) (services : Services W) (deployments : Deployments W)
    (cfg : OperatorConfig) (rt : Runtime) where
  unfoldable pub ensure_finalizer : NetworkOverlay → Action W NetworkOverlay
  ensure_finalizer ov =
      if contains_finalizer ov then pure ov else ask (services.patch ov (add_finalizer ov))

  unfoldable pub ensure_gateways : NetworkOverlay → Action W NetworkOverlay
  ensure_gateways ov = do
    nodes ← ask (client.list_nodes_with_label cfg.gateway_node_label)
    let gws = build_gateways nodes cfg.gateway_node_label
    (if deep_equal gateway_equal ov.status.gateways gws
        then pure ov
        else ask (services.patch_status ov (with_gateways gws ov)))

  unfoldable pub ensure_community : NetworkOverlay → Action W NetworkOverlay
  ensure_community ov =
      if ov.status.community == ""
      then (do
        c ← query "allocate community" (allocate_community client.list_overlays cfg.asn ov.name)
        ask (services.patch_status ov (with_community c ov)))
      else pure ov

  unfoldable pub ensure_keys : NetworkOverlay → Action W NetworkOverlay
  ensure_keys ov = do
    (public_key, secret) ← query "ensure WG keypair" (services.ensure_key_pair ov)
    (if ov.status.public_key == public_key && names_secret secret ov.status.wg_secret_ref
        then pure ov
        else ask (services.patch_status ov (with_keys public_key secret cfg.namespace ov)))

  abbrev ensure_internal : List NetworkOverlay → Action W (Unit {0})
  ensure_internal overlays =
      ensure_internal_deployments client deployments rt cfg.namespace cfg.agent_image
        cfg.gateway_node_label overlays

  unfoldable pub ensure_edges : NetworkOverlay → Action W NetworkOverlay
  ensure_edges ov = do
    edges ← query "resolve edges" (resolve_edges client cfg.gateway_node_label ov)
    (if deep_equal edge_equal ov.status.edges edges
        then pure ov
        else ask (services.patch_status ov (with_edges edges ov)))

  -- `handleDeletion`
  unfoldable pub handle_deletion : NetworkOverlay → Action W (Unit {0})
  handle_deletion ov =
      if contains_finalizer ov
      then (do
        all ← ask client.list_overlays
        wrapping "teardown internal deployments" (ensure_internal (others_than ov.name all))
        ask (services.patch ov (remove_finalizer ov))
        pure tt)
      else pure tt

  -- What `Reconcile` does once the overlay has its keys.
  unfoldable pub ensure_agents : NetworkOverlay → Action W (Unit {0})
  unfolding ensure_edges
  ensure_agents keyed = do
    stop "ensure agent RBAC" (services.ensure_rbac cfg.namespace)
    all ← ask client.list_overlays
    wrapping "ensure gateway deployments" (
        ensure_gateway_deployments client deployments rt cfg.namespace cfg.agent_image
          cfg.gateway_node_label all)
    wrapping "ensure internal deployments" (ensure_internal all)
    ensure_edges keyed
    pure tt

  -- What it does with an overlay that is there and not being deleted.
  unfoldable pub ensure_live : NetworkOverlay → Action W (Unit {0})
  unfolding ensure_finalizer ensure_gateways ensure_community ensure_keys ensure_agents
  ensure_live found = do
    finalized ← ensure_finalizer found
    gated ← ensure_gateways finalized
    placed ← ensure_community gated
    keyed ← ensure_keys placed
    ensure_agents keyed

  -- What it does with an overlay that is there.
  unfoldable pub reconcile_overlay : NetworkOverlay → Action W (Unit {0})
  unfolding handle_deletion ensure_live
  reconcile_overlay found = if found.deleting then handle_deletion found else ensure_live found

  -- `Reconcile`, whose `ctrl.Result` is always empty.
  unfoldable pub reconcile : String → Call W
  unfolding reconcile_overlay
  reconcile name w =
      let (found, w') = services.get_overlay name w in
      elim found [
        | err x ↦ if deployments.is_not_found x then (none, w') else (some x, w')
        | ok ov ↦ let (r, w'') = called (reconcile_overlay ov) w' in (as_error r, w'')
      ]
