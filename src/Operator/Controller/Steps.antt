-- ===== src/Operator/Controller/Steps.antt =====
-- What each step of a reconciliation makes of the overlay that is stored.
use pontifex.Base.{
  String, Bool, true, false, List, [], ◌∷◌, ◌++◌, Option, some, ◌≡◌, refl, sym, ap, ◌∙◌, ◌⊎◌, inl,
  inr, if◌then◌else◌, ◌==◌, any, arith, comparable_string,
}
use pontifex.GoMap.{Runtime}
use pontifex.Effects.{Query, Result, ok, err, Run, pure, ask, wrap_err}
use pontifex.Effects.Converge.{ok-inj}
use pontifex.Effects.Keeps.{then-ok}
use pontifex.Api.{NetworkOverlay}
use pontifex.Config.{OperatorConfig}
use pontifex.Operator.Cluster.{Client, Node}
use pontifex.Operator.Gateways.{build_gateways}
use pontifex.Operator.Workloads.{Deployments}
use pontifex.Operator.Controller.{
  Services, contains_finalizer, add_finalizer, finalizer_name, gateway_equal, deep_equal,
  with_gateways, ensure_finalizer, ensure_gateways,
}
use pontifex.Operator.Controller.Contract.{Honours}
use pontifex.Operator.Controller.Equal.{equal_gateways}

-- `if b` holds, nothing happens, and the call otherwise.
kept_or_asked :
    {W A : Type 0} (b : Bool) (old : A) (q : Query W A) (s : Run W) (new : A)
    → let out = (if b then pure old else ask q) s in
      out.0 ≡ ok new
      → ((b ≡ true) × (old ≡ new) × (out.1.world ≡ s.world))
        ⊎ ((b ≡ false) × ((q s.world).0 ≡ ok new) × (out.1.world ≡ (q s.world).1))
kept_or_asked true old q s new h = inl (refl, ok-inj h, refl)
kept_or_asked false old q s new h = inr (refl, h, refl)

pub wrap_err-ok :
    {A : Type 0} (text : String) (r : Result A) (a : A) → wrap_err text r ≡ ok a → r ≡ ok a
wrap_err-ok text (ok b) a h = h
wrap_err-ok text (err x) a h = cc

any-append :
    {A : Type 0} (test : A → Bool) (xs : List A) (x : A)
    → test x ≡ true
    → any test (xs ++ x ∷ []) ≡ true
any-append test [] x h = rw h refl
any-append test (y ∷ ys) x h = ground (arith, any-append test ys x h)

module _ {S W : Type 0} (client : Client S W) (services : Services W) (deployments : Deployments W)
    (cfg : OperatorConfig) (rt : Runtime) (name : String) (stored : W → Option NetworkOverlay)
    (honest : Honours client services deployments name stored) where
  pub ensure_finalizer_step :
      (ov new : NetworkOverlay) (s : Run W)
      → stored s.world ≡ some ov
      → (ensure_finalizer client services deployments cfg rt ov s).0 ≡ ok new
      → (fs : List String) × (new ≡ record ov { finalizers = fs })
        × (contains_finalizer new ≡ true)
        × (stored (ensure_finalizer client services deployments cfg rt ov s).1.world ≡ some new)
  unfolding ensure_finalizer
  ensure_finalizer_step ov new s at_first h =
      elim (kept_or_asked (contains_finalizer ov) ov (services.patch ov (add_finalizer ov)) s new
        h) [
          | inl (p, e, w) ↦ (
            ov.finalizers,
            sym e,
            ap contains_finalizer (sym e) ∙ p,
            ap stored w ∙ at_first ∙ ap some e,
          )
          | inr (p, e, w) ↦
              let (is, now) = honest.patches s.world ov (add_finalizer ov) new at_first e in
              (
                (add_finalizer ov).finalizers,
                is,
                ap contains_finalizer is
                    ∙ any-append (λ f. f == finalizer_name) ov.finalizers finalizer_name refl,
                ap stored w ∙ now,
              )
        ]

  -- A status that is patched unless `b` holds.
  pub status_step :
      (b : Bool) (ov changed new : NetworkOverlay) (s : Run W)
      → stored s.world ≡ some ov
      → changed ≡ record ov { status = changed.status }
      → let out = (if b then pure ov else ask (services.patch_status ov changed)) s in
        out.0 ≡ ok new
        → (((b ≡ true) × (new ≡ ov)) ⊎ ((b ≡ false) × (new ≡ changed)))
          × (stored out.1.world ≡ some new)
  status_step b ov changed new s at_first only h =
      elim (kept_or_asked b ov (services.patch_status ov changed) s new h) [
        | inl (p, e, w) ↦ (inl (p, sym e), ap stored w ∙ at_first ∙ ap some e)
        | inr (p, e, w) ↦
            let (is, now) = honest.patches_status s.world ov changed new at_first e in
            (inr (p, is ∙ sym only), ap stored w ∙ now)
      ]

  pub ensure_gateways_step :
      (ov new : NetworkOverlay) (s : Run W)
      → stored s.world ≡ some ov
      → (ensure_gateways client services deployments cfg rt ov s).0 ≡ ok new
      → (nodes : List Node) × ((client.list_nodes_with_label cfg.gateway_node_label s.world).0
          ≡ ok nodes)
        × (new ≡ with_gateways (build_gateways nodes cfg.gateway_node_label) ov)
        × (stored (ensure_gateways client services deployments cfg rt ov s).1.world ≡ some new)
  unfolding ensure_gateways
  ensure_gateways_step ov new s at_first h =
      let label = cfg.gateway_node_label in
      let changed : List Node → NetworkOverlay =
        λ nodes. with_gateways (build_gateways nodes label) ov in
      let same : List Node → Bool =
        λ nodes. deep_equal gateway_equal ov.status.gateways (build_gateways nodes label) in
      let (nodes, l, e, h') =
        then-ok (ask (client.list_nodes_with_label label))
          (λ nodes. if same nodes then pure ov else ask (services.patch_status ov (changed nodes)))
          s new h in
      let (which, now) =
        status_step (same nodes) ov (changed nodes) new _
          (honest.kept.nodes label s.world ∙ at_first) refl h' in
      (
        nodes,
        l,
        elim which [
          | inl (p, is) ↦
              is ∙ ap (λ gws. with_gateways gws ov) (equal_gateways ov.status.gateways _ p)
          | inr (p, is) ↦ is
        ],
        ap (λ r. stored r.1.world) e ∙ now,
      )
