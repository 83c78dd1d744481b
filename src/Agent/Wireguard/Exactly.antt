-- ===== src/Agent/Wireguard/Exactly.antt =====
-- What a WireGuard reconciliation without an error makes of the host.
use pontifex.Base.{
  String, Bool, false, not, ◌||◌, ◌&&◌, List, [], ◌∷◌, Option, none, ◌≡◌, refl, sym, ap, ◌∙◌, arith,
  comparable_string, if◌then◌else◌, ◌<>◌, inl, inr, is_some,
}
use mathlib.Core.List.{concat-ne-nil}
use pontifex.GoMap.{get, has, Runtime, values}
use pontifex.GoMap.Laws.{has-eq-is_some}
use pontifex.GoMap.Ranges.{find, find-values, DistinctBy-values}
use pontifex.Effects.{Query, Run, sweep}
use pontifex.Effects.Sweeps.{sweep_clean}
use pontifex.Effects.Keyed.{view_after_removals, view_after_additions, installed}
use pontifex.Effects.Converge.{Result-cases}
use pontifex.Api.{NetworkOverlay}
use pontifex.Agent.Wireguard.{
  Interface, Manager, Reconciler, Gathered, gather_one, gather, gathered, reconcile,
}
use pontifex.Agent.Wireguard.Skips.{Honours, ReadsOnly, gather-IsIndexed}

module _ {W : Type 0} (mgr : Manager W) (read_file : List String → Query W String)
    (r : Reconciler) where
  -- No error means that every key was read.
  gather_clean :
      (ovs : List NetworkOverlay) (g : Gathered W)
      → (gather mgr read_file r ovs g).run.errs ≡ []
      → (g.run.errs ≡ []) × ((gather mgr read_file r ovs g).skip ≡ g.skip)
  unfolding gather gather_one
  gather_clean [] g h = (h, refl)
  gather_clean (ov ∷ ovs) g h =
      let (before, same) = gather_clean ovs _ h in
      elim (Result-cases (read_file (r.wg_key_dir ∷ ov.name ∷ "private" ∷ []) g.run.world).0) [
        | inl (key, e) ↦ (rw (e, gather_one) at before, same ∙ rw (e, gather_one) refl)
        | inr (x, e) ↦ absurd (concat-ne-nil _ _ (rw (e, gather_one) at before))
      ]

cons-ne-nil : {A : Type 0} {x : A} {xs : List A} → x ∷ xs ≡ [] → ⊥
cons-ne-nil h = cc

-- An installed item, or one that was removed unless it was not there.
settled_exactly :
    {V : Type 0} (found wanted old removed : Option V) (listed kept : Bool)
    → found ≡ wanted
    → removed ≡ (if listed && not kept then none else old)
    → kept ≡ (is_some wanted || false)
    → listed ≡ is_some old
    → installed (λ v. v) found removed ≡ wanted
settled_exactly found wanted old removed listed kept a b c d = ground arith

module _ {W : Type 0} (mgr : Manager W) (read_file : List String → Query W String)
    (view : W → String → Option Interface) (honest : Honours mgr view)
    (reads : ReadsOnly read_file view) (r : Reconciler) (rt : Runtime)
    (overlays : List NetworkOverlay) (w w' : W) where
  -- When `Reconcile` returns nil, the interfaces of the host are exactly those desired, each with
  -- its configuration.
  pub exactly_desired :
      reconcile mgr read_file r rt overlays w ≡ ([], w')
      → (k : String) → view w' k ≡ get k (gathered mgr read_file r overlays w).desired
  unfolding reconcile has
  exactly_desired h k =
      let g = gathered mgr read_file r overlays w in
      let indexed =
        gather-IsIndexed mgr read_file r overlays
          (record { desired = []; skip = []; run = record { errs = []; world = w } }) (tt, tt) in
      elim (Result-cases (mgr.list_interfaces g.run.world).0) [
        | inr (x, e) ↦ absurd (cons-ne-nil (ap (λ p. p.0) (rw e at h)))
        | inl (actual, e) ↦
            let keep = λ (j : String). has j g.desired || has j g.skip in
            let s0 : Run W = record {
              errs = g.run.errs;
              world = (mgr.list_interfaces g.run.world).1;
            } in
            let s1 =
              sweep (λ i. keep (Interface.name i)) (λ i. "remove interface " <> i.name)
                (λ i. mgr.remove_interface i.name) actual s0 in
            let end : (
              (sweep (λ i. false) (λ i. "ensure interface " <> Interface.name i)
                  mgr.ensure_interface (values rt 0 g.desired) s1).errs,
              (sweep (λ i. false) (λ i. "ensure interface " <> Interface.name i)
                  mgr.ensure_interface (values rt 0 g.desired) s1).world,
            )
                ≡ ([], w') =
              rw e at h in
            let added_clean = ap (λ p. p.0) end in
            let removed_clean = sweep_clean _ _ _ (values rt 0 g.desired) s1 added_clean in
            let no_skip =
              (gather_clean mgr read_file r overlays
                (record { desired = []; skip = []; run = record { errs = []; world = w } })
                (sweep_clean _ _ _ actual s0 removed_clean)).1 in
            ap (λ v. view v k) (sym (ap (λ p. p.1) end))
            ∙ view_after_additions view Interface.name (λ j. false) _ (λ i. i) mgr.ensure_interface
                honest.ensures (values rt 0 g.desired) s1 k
                (DistinctBy-values Interface.name rt 0 g.desired indexed.0 indexed.1) added_clean
            ∙ settled_exactly (find Interface.name k (values rt 0 g.desired)) (get k g.desired) _ _
                _ _ (find-values Interface.name rt 0 g.desired k indexed.0 indexed.1)
                (view_after_removals view Interface.name keep _ (λ i. mgr.remove_interface i.name)
                  honest.removes actual s0 k removed_clean)
                (rw (has-eq-is_some k g.desired, no_skip) refl)
                (honest.lists.complete g.run.world actual k e
                  ∙ ap (λ v. is_some (view v k)) (sym (honest.lists.unchanged g.run.world)))
      ]
