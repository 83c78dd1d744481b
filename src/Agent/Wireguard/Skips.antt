-- ===== src/Agent/Wireguard/Skips.antt =====
-- The interface of an overlay whose key cannot be read.
use pontifex.Base.{
  String, true, false, ◌||◌, List, [], ◌∷◌, Option, ◌≡◌, refl, sym, ap, ◌∙◌, arith, ◌==◌,
  comparable_string, inl, inr, is_some,
}
use pontifex.GoMap.{has, Runtime, values}
use pontifex.GoMap.Laws.{has-eq-is_some}
use pontifex.GoMap.Ranges.{IsIndexed, put-IsIndexed, has_key, has_key-eq-is_some, find-values}
use pontifex.Effects.{Call, Query, Run, sweep}
use pontifex.Effects.Sweeps.{world-attempt}
use pontifex.Effects.Keyed.{Removes, Installs, Lists, view_kept}
use pontifex.Effects.Converge.{Result-cases}
use pontifex.Api.{NetworkOverlay}
use pontifex.Agent.Wireguard.{
  Interface, Manager, Reconciler, iface_name, wanted_interface, Gathered, gather_one, gather,
  gathered, reconcile,
}

-- What the reconciler relies on of the WireGuard library: interfaces are keyed by name, each call
-- acts on the one of its name alone, and a listing reports what is there.
pub record Honours {W : Type 0} (mgr : Manager W) (view : W → String → Option Interface)
    : Type 0 where
  pub lists : Lists view Interface.name mgr.list_interfaces
  pub removes : Removes view Interface.name (λ i. mgr.remove_interface i.name)
  pub ensures : Installs view Interface.name (λ i. i) mgr.ensure_interface

-- Reading a file leaves the interfaces as they are.
abbrev pub ReadsOnly :
    {W : Type 0} → (List String → Query W String) → (W → String → Option Interface) → Type 0
ReadsOnly {W} read_file view = (path : List String) (w : W) → view (read_file path w).1 ≡ view w

module _ {W : Type 0} (mgr : Manager W) (read_file : List String → Query W String)
    (r : Reconciler) where
  pub gather-IsIndexed :
      (ovs : List NetworkOverlay) (g : Gathered W)
      → IsIndexed Interface.name g.desired
      → IsIndexed Interface.name (gather mgr read_file r ovs g).desired
  unfolding gather gather_one
  gather-IsIndexed [] g h = h
  gather-IsIndexed (ov ∷ ovs) g h =
      gather-IsIndexed ovs _
        (elim (Result-cases (read_file (r.wg_key_dir ∷ ov.name ∷ "private" ∷ []) g.run.world).0) [
          | inl (key, e) ↦ rw e (
              put-IsIndexed Interface.name (iface_name ov.name) (wanted_interface r ov key)
                g.desired refl h)
          | inr (x, e) ↦ rw e h
        ])

  pub gather_keeps :
      {B : Type 0} (f : W → B)
      → ((path : List String) (w : W) → f (read_file path w).1 ≡ f w)
      → (ovs : List NetworkOverlay) (g : Gathered W)
      → f (gather mgr read_file r ovs g).run.world ≡ f g.run.world
  unfolding gather gather_one
  gather_keeps f reads [] g = refl
  gather_keeps f reads (ov ∷ ovs) g =
      gather_keeps f reads ovs _
      ∙ elim (Result-cases (read_file (r.wg_key_dir ∷ ov.name ∷ "private" ∷ []) g.run.world).0) [
        | inl (key, e) ↦ rw e (reads _ g.run.world)
        | inr (x, e) ↦ rw e (reads _ g.run.world)
      ]

-- A loop of calls without a guard leaves an item alone whose key no element has.
view_untouched :
    {W V X : Type 0} (view : W → String → Option V) (key : X → String) (text : X → String)
    (call : X → Call W)
    → ((x : X) (w : W) (k : String) → (key x == k) ≡ false → view (call x w).1 k ≡ view w k)
    → (xs : List X) (s : Run W) (k : String) → has_key key k xs ≡ false
    → view (sweep (λ x. false) text call xs s).world k ≡ view s.world k
unfolding sweep has_key
view_untouched view key text call others [] s k h = refl
view_untouched view key text call others (x ∷ xs) s k h =
    view_untouched view key text call others xs _ k (ground (arith, h))
    ∙ ap (λ w. view w k) (world-attempt (text x) (call x) s)
    ∙ others x s.world k (ground (arith, h))

module _ {W : Type 0} (mgr : Manager W) (read_file : List String → Query W String)
    (view : W → String → Option Interface) (honest : Honours mgr view)
    (reads : ReadsOnly read_file view) (r : Reconciler) (rt : Runtime)
    (overlays : List NetworkOverlay) (w : W) where
  -- Whatever fails, an interface whose name belongs to an overlay with an unreadable key, and to no
  -- overlay with a readable one, is neither created nor removed nor changed.
  pub skipped_untouched :
      (k : String)
      → has k (gathered mgr read_file r overlays w).skip ≡ true
      → has k (gathered mgr read_file r overlays w).desired ≡ false
      → view (reconcile mgr read_file r rt overlays w).1 k ≡ view w k
  unfolding reconcile has
  skipped_untouched k skipped unwanted =
      let g = gathered mgr read_file r overlays w in
      let indexed =
        gather-IsIndexed mgr read_file r overlays
          (record { desired = []; skip = []; run = record { errs = []; world = w } }) (tt, tt) in
      let kept =
        ap (λ v. v k)
          (gather_keeps mgr read_file r view reads overlays
            (record { desired = []; skip = []; run = record { errs = []; world = w } })) in
      elim (Result-cases (mgr.list_interfaces g.run.world).0) [
        | inr (x, e) ↦ rw e (ap (λ v. view v k) (honest.lists.unchanged g.run.world) ∙ kept)
        | inl (actual, e) ↦ rw e (
            view_untouched view Interface.name _ _ honest.ensures.others (values rt 0 g.desired) _ k
              (has_key-eq-is_some Interface.name k (values rt 0 g.desired)
                ∙ ap is_some (find-values Interface.name rt 0 g.desired k indexed.0 indexed.1)
                ∙ sym (has-eq-is_some k g.desired)
                ∙ unwanted)
            ∙ view_kept view Interface.name (λ j. has j g.desired || has j g.skip) _ _
                honest.removes.others actual _ k (rw (unwanted, skipped) refl)
            ∙ ap (λ v. view v k) (honest.lists.unchanged g.run.world)
            ∙ kept)
      ]
