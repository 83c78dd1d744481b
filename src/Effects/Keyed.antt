-- ===== src/Effects/Keyed.antt =====
-- Collections of keyed items on a host, seen as `view : W → K → Option V`: what the calls of an
-- interface are taken to do to them, and what the two loops of a reconciler make of that.
use pontifex.Base.{
  Bool, true, false, not, ◌&&◌, List, [], ◌∷◌, Option, none, some, String, ◌≡◌, refl, sym, ap, ◌∙◌,
  arith, Comparable, ◌==◌, Bool-cases, is_some, if◌then◌else◌, inl, inr,
}
use pontifex.GoMap.Ranges.{find, has_key, has_key-eq-is_some, DistinctBy}
use pontifex.Effects.{Call, Query, ok, Run, attempt, sweep}
use pontifex.Effects.Sweeps.{attempt_clean, world-attempt, sweep_skip, sweep_call, sweep_clean}

module _ {W K V X : Type 0} ⦃e : Comparable K⦄ (view : W → K → Option V) (key : X → K) where
  -- A call that removes the item of `x`: gone if it returns nil, and no other item is touched,
  -- whatever it returns.
  pub record Removes (call : X → Call W) : Type 0 where
    pub gone : (x : X) (w : W) → (call x w).0 ≡ none → view (call x w).1 (key x) ≡ none
    pub others : (x : X) (w : W) (k : K) → (key x == k) ≡ false → view (call x w).1 k ≡ view w k

  -- A call that installs `content x`.
  pub record Installs (content : X → V) (call : X → Call W) : Type 0 where
    pub there : (x : X) (w : W) → (call x w).0 ≡ none → view (call x w).1 (key x) ≡ some (content x)
    pub others : (x : X) (w : W) (k : K) → (key x == k) ≡ false → view (call x w).1 k ≡ view w k

  -- A listing names the items that are there, each once or more, and changes nothing.
  pub record Lists (list : Query W (List X)) : Type 0 where
    pub unchanged : (w : W) → (list w).1 ≡ w
    pub complete :
        (w : W) (xs : List X) (k : K) → (list w).0 ≡ ok xs → has_key key k xs ≡ is_some (view w k)

module _ {W K V X : Type 0} ⦃e : Comparable K⦄ (view : W → K → Option V) (key : X → K)
    (keep : K → Bool) (text : X → String) (call : X → Call W) where
  -- Whatever fails, an item whose key is kept is not touched.
  pub view_kept :
      ((x : X) (w : W) (k : K) → (key x == k) ≡ false → view (call x w).1 k ≡ view w k)
      → (xs : List X) (s : Run W) (k : K) → keep k ≡ true
      → view (sweep (λ x. keep (key x)) text call xs s).world k ≡ view s.world k
  unfolding sweep
  view_kept others [] s k h = refl
  view_kept others (x ∷ xs) s k h = elim (Bool-cases (keep (key x))) [
    | inl p ↦ rw (p, sweep) (view_kept others xs s k h)
    | inr p ↦
        rw (p, sweep)
          (view_kept others xs (attempt (text x) (call x) s) k h
            ∙ rw world-attempt (others x s.world k (ground (arith, e.equal_iff (key x) k))))
  ]

  -- A clean loop of removals leaves no listed item whose key is not kept.
  pub view_after_removals :
      Removes view key call
      → (xs : List X) (s : Run W) (k : K) → (sweep (λ x. keep (key x)) text call xs s).errs ≡ []
      → view (sweep (λ x. keep (key x)) text call xs s).world k
        ≡ (if has_key key k xs && not (keep k) then none else view s.world k)
  unfolding has_key
  view_after_removals r [] s k h = unfold sweep in refl
  view_after_removals r (x ∷ xs) s k h = elim (Bool-cases (keep (key x))) [
    | inl p ↦ rw (sweep_skip _ text call x xs s p) (
        view_after_removals r xs s k (ap Run.errs (sym (sweep_skip _ text call x xs s p)) ∙ h)
        ∙ ground (arith, e.equal_iff (key x) k))
    | inr p ↦
        let s' : Run W = attempt (text x) (call x) s in
        let h' : (sweep (λ y. keep (key y)) text call xs s').errs ≡ [] =
          ap Run.errs (sym (sweep_call _ text call x xs s p)) ∙ h in
        rw (sweep_call _ text call x xs s p) (
          view_after_removals r xs s' k h'
          ∙ ground (
            arith,
            e.equal_iff (key x) k,
            world-attempt (text x) (call x) s,
            r.gone x s.world
                (attempt_clean (text x) (call x) s (sweep_clean _ text call xs s' h')).1,
            r.others x s.world k,
          ))
  ]

-- The item at a key after a clean loop of installations met `new` there.
abbrev pub installed : {V X : Type 0} → (X → V) → Option X → Option V → Option V
installed content none old = old
installed content (some x) old = some (content x)

module _ {W K V X : Type 0} ⦃e : Comparable K⦄ (view : W → K → Option V) (key : X → K)
    (keep : K → Bool) (text : X → String) (content : X → V) (call : X → Call W) where
  pub view_after_additions :
      Installs view key content call
      → (xs : List X) (s : Run W) (k : K) → DistinctBy key xs
      → (sweep (λ x. keep (key x)) text call xs s).errs ≡ []
      → view (sweep (λ x. keep (key x)) text call xs s).world k
        ≡ (if keep k then view s.world k else installed content (find key k xs) (view s.world k))
  unfolding find
  view_after_additions r [] s k d h = unfold sweep in ground arith
  view_after_additions r (x ∷ xs) s k d h = elim (Bool-cases (keep (key x))) [
    | inl p ↦ rw (sweep_skip _ text call x xs s p) (
        view_after_additions r xs s k d.1 (ap Run.errs (sym (sweep_skip _ text call x xs s p)) ∙ h)
        ∙ ground (arith, e.equal_iff (key x) k))
    | inr p ↦
        let s' : Run W = attempt (text x) (call x) s in
        let h' : (sweep (λ y. keep (key y)) text call xs s').errs ≡ [] =
          ap Run.errs (sym (sweep_call _ text call x xs s p)) ∙ h in
        rw (sweep_call _ text call x xs s p) (
          view_after_additions r xs s' k d.1 h'
          ∙ ground (
            arith,
            e.equal_iff (key x) k,
            has_key-eq-is_some key k xs,
            world-attempt (text x) (call x) s,
            r.there x s.world
                (attempt_clean (text x) (call x) s (sweep_clean _ text call xs s' h')).1,
            r.others x s.world k,
          ))
  ]
