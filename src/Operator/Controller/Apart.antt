-- ===== src/Operator/Controller/Apart.antt =====
-- From the operator to the agents: overlays do not share a routing table.
use pontifex.Strconv.{after_colon}
use pontifex.Base.{
  ◌+◌, ◌==◌, Bool-cases, inl, inr, comparable_string, Option, String, ◌≡◌, ◌≢◌, ◌⊎◌, sym, ap, ◌∙◌,
  ℕ, none, some, arith,
}
use pontifex.GoMap.{Runtime}
use pontifex.Config.{OperatorConfig}
use pontifex.Agent.Routes.Tables.{vrf_table_id, vrf_table_id-community_of}
use pontifex.Operator.Cluster.{Client}
use pontifex.Operator.Community.{community_of}
use pontifex.Operator.Workloads.{Deployments}
use pontifex.Operator.Controller.{Services, reconcile}
use pontifex.Operator.Controller.Unique.{Communities, Sound, fewer-Sound}
use pontifex.Operator.Controller.Preserved.{reconcile-Sound}

module _ {S W : Type 0} (client : Client S W) (services : Services W) (deployments : Deployments W)
    (cfg : OperatorConfig) (rt : Runtime) (communities : W → String → String) where
  -- What happens in a cluster after `w`: the operator reconciles overlays, one after the other, and
  -- in between others change the cluster, who may remove an overlay but give none a community.
  pub data Runs (w : W) : W → Type 0 where
    begun : Runs w w
    reconciles :
        {v : W} (name : String)
        → Runs w v
        → Runs w (reconcile client services deployments cfg rt name v).1
    changed :
        {v u : W}
        → Runs w v
        → ((n : String) → (communities u n ≡ communities v n) ⊎ (communities u n ≡ ""))
        → Runs w u

  module _ (stores : Communities client services deployments communities) where
    Runs-Sound :
        {w v : W} → Sound cfg.asn (communities w) → Runs w v → Sound cfg.asn (communities v)
    Runs-Sound h begun = h
    Runs-Sound h (reconciles {v} name r) =
        reconcile-Sound client services deployments cfg rt communities stores name v
          (Runs-Sound h r)
    Runs-Sound h (changed {v} {u} r fewer) =
        fewer-Sound cfg.asn (communities v) (communities u) fewer (Runs-Sound h r)

    -- In a cluster whose reads see the writes before them, which begins with distinct communities of
    -- the operator's pool, or none: after any reconciliations, whatever they returned, with changes
    -- by others in between, an overlay that has a community has a routing table on the nodes, and no
    -- other overlay has this table.
    pub tables_apart :
        (w v : W)
        → Sound cfg.asn (communities w)
        → Runs w v
        → (m : String) → communities v m ≢ ""
        → (t : ℕ) × (vrf_table_id (communities v m) ≡ some t)
          × ((n : String) → vrf_table_id (communities v n) ≡ some t → m ≡ n)
    unfolding vrf_table_id after_colon
    tables_apart w v h r m has_one =
        let now = Runs-Sound h r in
        let (k, is, lt) = now.pooled m has_one in
        (
          10000 + k,
          ap vrf_table_id is ∙ vrf_table_id-community_of cfg.asn k lt,
          λ n e. elim (Bool-cases (communities v n == "")) [
            | inl p ↦
                let blank : communities v n ≡ "" =
                  ground (arith, p, comparable_string.equal_iff (communities v n) "") in
                let no : ◌≡◌ {A = Option ℕ} none (some (10000 + k)) =
                  sym (ap vrf_table_id blank) ∙ e in
                cc
            | inr p ↦
                let (j, is', lt') =
                  now.pooled n
                    (λ z. ground (arith, p, comparable_string.equal_iff (communities v n) "", z)) in
                let eq : some (10000 + j) ≡ some (10000 + k) =
                  sym (ap vrf_table_id is' ∙ vrf_table_id-community_of cfg.asn j lt') ∙ e in
                let same : k ≡ j = ground arith in
                now.unique m n has_one (is ∙ ap (community_of cfg.asn) same ∙ sym is')
          ],
        )
