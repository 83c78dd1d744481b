-- ===== src/Examples/Tenants.antt =====
-- Two new overlays in a cluster that stores them, which the operator reconciles one after the other.
use pontifex.Base.{
  ℕ, String, true, ◌&&◌, List, [], ◌∷◌, Option, none, some, ◌≡◌, ◌≢◌, inl, inr, refl, sym, ap, ◌∙◌,
  arith, ◌==◌, any, comparable_string, if◌then◌else◌, Bool-cases, not, is_some,
}
use pontifex.GoMap.{has, put, index_by, keys}
use pontifex.GoMap.Ranges.{find}
use pontifex.Strconv.{decimal}
use std.Path.{fun_ext}
use pontifex.Effects.{ok, err, other}
use pontifex.Effects.Converge.{ok-inj}
use pontifex.Api.{NetworkOverlay}
use pontifex.Agent.Routes.Tables.{vrf_table_id}
use pontifex.Operator.Cluster.{Client}
use pontifex.Operator.Community.{allocate_community, first_free}
use pontifex.GoSort.{sort_by}
use pontifex.Operator.Gateways.{build_gateways}
use pontifex.Operator.Controller.{Services, reconcile}
use pontifex.Operator.Controller.Apart.{begun, reconciles, tables_apart}
use pontifex.Operator.Controller.Unique.{Communities, Sound}
use pontifex.Operator.Edges.{resolve_edges}
use pontifex.Operator.Workloads.{Deployments, ensure_internal_deployments, target_edges}
use pontifex.Operator.Workloads.Gateways.{ensure_gateway_deployments}
use pontifex.Examples.Memory.{first_written}
use pontifex.Examples.Snapshot as Snapshot
use pontifex.Examples.Cluster.{gateway, worker, web, cfg}

abbrev Store : Type 0
Store = List NetworkOverlay

abbrev community_in : Option NetworkOverlay → String
community_in none = ""
community_in (some ov) = ov.status.community

abbrev communities : Store → String → String
communities w n = community_in (find NetworkOverlay.name n w)

abbrev change : String → (NetworkOverlay → NetworkOverlay) → Store → Store
change name f [] = []
change name f (o ∷ os) = let rest = change name f os in (if o.name == name then f o else o) ∷ rest

abbrev with_finalizers : NetworkOverlay → NetworkOverlay → NetworkOverlay
with_finalizers new o = record o { finalizers = new.finalizers }

-- A patch of the status, which leaves the community as it is if the patch does not change it.
abbrev with_status : NetworkOverlay → NetworkOverlay → NetworkOverlay → NetworkOverlay
with_status old new o = record o {
  status = record new.status {
    community =
        if old.status.community == new.status.community
        then o.status.community
        else new.status.community;
  };
}

abbrev client : Client String Store
client = record {
  parse_selector = λ s. some s;
  list_nodes_with_label = λ l w. (ok (gateway ∷ []), w);
  get_node = λ n w. (ok worker, w);
  list_pods = λ ns s w. (ok (web ∷ []), w);
  list_overlays = λ w. (ok w, w);
}

abbrev services : Services Store
services = record {
  get_overlay = λ n w.
      (elim (find NetworkOverlay.name n w) [ none ↦ err (other "not found") | some ov ↦ ok ov ], w);
  patch = λ old new w. (ok (with_finalizers new old), change old.name (with_finalizers new) w);
  patch_status =
      λ old new w. (ok (with_status old new old), change old.name (with_status old new) w);
  ensure_key_pair = λ ov w. (ok ("k", "wg"), w);
  ensure_rbac = λ n w. (none, w);
}

abbrev deployments : Deployments Store
deployments = record {
  list = λ n c w. (ok [], w);
  delete = λ d w. (none, w);
  create_or_update = λ n s f w. (none, w);
  is_not_found = λ x. true;
}

listed :
    (w : Store) (n d : String)
    → communities w n ≡ d
    → d ≢ ""
    → any (λ o. o.name == n && o.status.community == d) w ≡ true
unfolding find
listed [] n d h some' = absurd (some' (sym h))
listed (o ∷ os) n d h some' =
    ground (arith, listed os n d, some', comparable_string.equal_iff o.status.community d)

finalizers_kept :
    (name : String) (new : NetworkOverlay) (w : Store) (n : String)
    → communities (change name (with_finalizers new) w) n ≡ communities w n
unfolding find
finalizers_kept name new [] n = refl
finalizers_kept name new (o ∷ os) n = ground (arith, finalizers_kept name new os n)

status_written :
    (old new : NetworkOverlay) (w : Store) (n : String)
    → communities (change old.name (with_status old new) w) n ≡ (
        if old.name == n
          && not (old.status.community == new.status.community)
          && is_some (find NetworkOverlay.name n w)
        then new.status.community
        else communities w n)
unfolding find
status_written old new [] n = ground arith
status_written old new (o ∷ os) n = ground (
  arith,
  comparable_string.equal_iff o.name n,
  comparable_string.equal_iff o.name old.name,
  comparable_string.equal_iff old.name n,
  status_written old new os n,
)

store-Communities : Communities client services deployments communities
store-Communities = record {
  kept = record {
    nodes = λ l w. refl;
    node = λ n w. refl;
    pods = λ n s w. refl;
    overlays = λ w. refl;
    listing = λ n c w. refl;
    delete = λ d w. refl;
    create = λ n s f w. refl;
  };
  gets = λ n w. refl;
  keys = λ ov w. refl;
  rbac = λ n w. refl;
  lists = λ w all n h some'.
      ap (any (λ o. o.name == n && o.status.community == communities w n)) (sym (ok-inj h))
      ∙ listed w n (communities w n) refl some';
  patches = λ old new w n. inl (finalizers_kept old.name new w n);
  same_status = λ old new w e. fun_ext λ n. ground (
    arith,
    status_written old new w n,
    e,
    comparable_string.equal_iff old.status.community new.status.community,
  );
  patches_status = λ old new w n.
      let writes =
        old.name == n
        && not (old.status.community == new.status.community)
        && is_some (find NetworkOverlay.name n w) in
      let e = status_written old new w n in
      elim (Bool-cases writes) [
        | inr p ↦ inl (ground (arith, e, p))
        | inl p ↦
            inr (ground (arith, p, comparable_string.equal_iff old.name n), ground (arith, e, p))
      ];
}

abbrev fresh : String → NetworkOverlay
fresh name = record Snapshot.overlay {
  name = name;
  status = record Snapshot.overlay.status { community = "" };
}

abbrev new : Store
new = fresh "ov1" ∷ fresh "ov2" ∷ []

blank : (n : String) → communities new n ≡ ""
unfolding find
blank n = ground arith

new-Sound : Sound 65000 (communities new)
new-Sound = record {
  unique = λ m n some' same. absurd (some' (blank m));
  pooled = λ n some'. absurd (some' (blank n));
}

abbrev placed : Store
placed =
    (reconcile client services deployments cfg first_written "ov2"
      (reconcile client services deployments cfg first_written "ov1" new).1).1

allocated : communities placed "ov2" ≡ "65000:2"
unfolding find reconcile build_gateways sort_by allocate_community first_free has
    ensure_gateway_deployments ensure_internal_deployments keys target_edges index_by put
    resolve_edges decimal
allocated = refl

tables_apart_example :
    (t : ℕ) × (vrf_table_id (communities placed "ov2") ≡ some t)
    × ((n : String) → vrf_table_id (communities placed n) ≡ some t → "ov2" ≡ n)
tables_apart_example =
    tables_apart client services deployments cfg first_written communities store-Communities new
      placed new-Sound (reconciles "ov2" (reconciles "ov1" begun)) "ov2"
      (λ e. let no : ◌≡◌ {A = String} "65000:2" "" = sym allocated ∙ e in cc)
