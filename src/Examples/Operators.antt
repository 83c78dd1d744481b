-- ===== src/Examples/Operators.antt =====
-- The reconciliation of a new overlay, in a cluster that stores this overlay alone.
use pontifex.Base.{
  String, true, List, [], ◌∷◌, Option, none, some, ◌≡◌, refl, sym, ap, arith, comparable_string,
}
use pontifex.GoMap.{has, put, index_by, keys}
use pontifex.Effects.{ok, err, other, Error}
use pontifex.Effects.Converge.{ok-inj}
use pontifex.Api.{NetworkOverlay}
use pontifex.Operator.Cluster.{Client}
use pontifex.Operator.Community.{allocate_community, first_free}
use pontifex.Operator.Controller.{Services, reconcile}
use pontifex.Operator.Controller.Contract.{Honours}
use pontifex.Operator.Controller.Reconciled.{Reconciled}
use pontifex.Operator.Controller.Stores.{reconcile_stores}
use pontifex.Operator.Edges.{resolve_edges, running_pods}
use pontifex.Operator.Main.{with_stubs}
use pontifex.Operator.Main.Never.{never_done}
use pontifex.Operator.Workloads.{Deployments, ensure_internal_deployments, target_edges}
use pontifex.Operator.Workloads.Gateways.{ensure_gateway_deployments}
use pontifex.Examples.Memory.{first_written}
use pontifex.Examples.Snapshot as Snapshot
use pontifex.Examples.Cluster.{gateway, worker, web, edge, cfg}

abbrev fresh : NetworkOverlay
fresh = record Snapshot.overlay {
  spec = record Snapshot.overlay.spec { edges = edge ∷ [] };
  status = record {
    community = "";
    public_key = "";
    wg_secret_ref = none;
    gateways = [];
    edges = [];
  };
}

abbrev Store : Type 0
Store = Option NetworkOverlay

abbrev listed : Store → List NetworkOverlay
listed none = []
listed (some ov) = ov ∷ []

abbrev client : Client String Store
client = record {
  parse_selector = λ s. some s;
  list_nodes_with_label = λ l w. (ok (gateway ∷ []), w);
  get_node = λ n w. (ok worker, w);
  list_pods = λ ns s w. (ok (web ∷ []), w);
  list_overlays = λ w. (ok (listed w), w);
}

abbrev services : Services Store
services = record {
  get_overlay =
      λ n w. elim w [ none ↦ (err (other "not found"), none) | some ov ↦ (ok ov, some ov) ];
  patch = λ old new w.
      let ov : NetworkOverlay = record old { finalizers = new.finalizers } in (ok ov, some ov);
  patch_status =
      λ old new w. let ov : NetworkOverlay = record old { status = new.status } in (ok ov, some ov);
  ensure_key_pair = λ ov w. (ok ("k", "wg-ov1"), w);
  ensure_rbac = λ n w. (none, w);
}

abbrev deployments : Deployments Store
deployments = record {
  list = λ n c w. (ok [], w);
  delete = λ d w. (none, w);
  create_or_update = λ n s f w. (none, w);
  is_not_found = λ x. true;
}

store-Honours : Honours client services deployments "ov1" (λ w. w)
store-Honours = record {
  kept = record {
    nodes = λ l w. refl;
    node = λ n w. refl;
    pods = λ n s w. refl;
    overlays = λ w. refl;
    listing = λ n c w. refl;
    delete = λ d w. refl;
    create = λ n s f w. refl;
  };
  gets = λ w ov h. got w ov h;
  patches = λ w old new ov at_first h. (sym (ok-inj h), ap some (ok-inj h));
  patches_status = λ w old new ov at_first h. (sym (ok-inj h), ap some (ok-inj h));
  keys = λ ov w. refl;
  rbac = λ n w. refl;
}
  where
    got :
        (w : Store) (ov : NetworkOverlay)
        → (services.get_overlay "ov1" w).0 ≡ ok ov
        → (services.get_overlay "ov1" w).1 ≡ some ov
    got none ov h = cc
    got (some old) ov h = ground (arith, h)

never_done_example :
    (x : Error) × ((reconcile client
        (with_stubs services)
        deployments
        cfg
        first_written
        "ov1"
        (some fresh)).0
      ≡ some x)
never_done_example =
    never_done client services deployments cfg first_written "ov1" (some fresh) fresh refl refl

after : Store
after = (reconcile client services deployments cfg first_written "ov1" (some fresh)).1

clean : reconcile client services deployments cfg first_written "ov1" (some fresh) ≡ (none, after)
unfolding after reconcile allocate_community first_free has ensure_gateway_deployments
    ensure_internal_deployments keys target_edges resolve_edges running_pods index_by put
clean = refl

reconcile_stores_example :
    (final : NetworkOverlay) × (after ≡ some final)
    × Reconciled client services deployments cfg first_written "ov1"
        (λ w. w)
        store-Honours
        fresh
        final
reconcile_stores_example =
    reconcile_stores client services deployments cfg first_written "ov1" (λ w. w) store-Honours
      fresh (some fresh) after refl refl clean
