-- ===== src/Effects/Present.antt =====
-- Items of which a host only tells whether they are there.
use pontifex.Base.{
  Bool, true, false, not, ◌&&◌, List, [], ◌∷◌, Option, none, some, String, ◌≡◌, refl, sym, ap, ◌∙◌,
  arith, Comparable, Bool-cases, inl, inr, if◌then◌else◌, ℕ, map,
}
use pontifex.GoMap.{GoMap, GoSet, has, index_by, keys, entries, Runtime}
use pontifex.GoMap.Ranges.{has_key, has-perm, has-index_by}
use pontifex.Effects.{Call, Query, ok, Run, attempt, sweep}
use pontifex.Effects.Sweeps.{attempt_clean, world-attempt, sweep_skip, sweep_call, sweep_clean}
use pontifex.Effects.Keyed.{Removes, Installs, Lists, view_after_removals}
use pontifex.Effects.Settles.{remove_orphans, install_missing}

abbrev pub present : Bool → Option (Unit {0})
present true = some tt
present false = none

has_key-keys :
    {K V : Type 0} ⦃e : Comparable K⦄ (k : K) (m : GoMap K V)
    → has_key (λ j. j) k (map (λ en. en.0) m) ≡ has k m
unfolding has_key has
has_key-keys k [] = refl
has_key-keys k ((j, v) ∷ m) = ground (arith, has_key-keys k m)

-- A loop over the keys of a map meets each of them.
pub has_key-ranged :
    {K V : Type 0} ⦃e : Comparable K⦄ (k : K) (rt : Runtime) (site : ℕ) (m : GoMap K V)
    → has_key (λ j. j) k (keys rt site m) ≡ has k m
unfolding keys entries
has_key-ranged {K} {V} k rt site m =
    has_key-keys k (entries rt site m) ∙ sym (has-perm k (rt.range-perm (K × V) site m))

module _ {W K X : Type 0} ⦃e : Comparable K⦄ (view : W → K → Option (Unit {0})) (key : X → K)
    (keep : K → Bool) (text : X → String) (call : X → Call W) where
  present_after_additions :
      Installs view key (λ _. tt) call
      → (xs : List X) (s : Run W) (k : K) → (sweep (λ x. keep (key x)) text call xs s).errs ≡ []
      → view (sweep (λ x. keep (key x)) text call xs s).world k
        ≡ (if has_key key k xs && not (keep k) then some tt else view s.world k)
  unfolding has_key
  present_after_additions r [] s k h = unfold sweep in refl
  present_after_additions r (x ∷ xs) s k h = elim (Bool-cases (keep (key x))) [
    | inl p ↦ rw (sweep_skip _ text call x xs s p) (
        present_after_additions r xs s k (ap Run.errs (sym (sweep_skip _ text call x xs s p)) ∙ h)
        ∙ ground (arith, e.equal_iff (key x) k))
    | inr p ↦
        let s' : Run W = attempt (text x) (call x) s in
        let h' : (sweep (λ y. keep (key y)) text call xs s').errs ≡ [] =
          ap Run.errs (sym (sweep_call _ text call x xs s p)) ∙ h in
        rw (sweep_call _ text call x xs s p) (
          present_after_additions r xs s' k h'
          ∙ ground (
            arith,
            e.equal_iff (key x) k,
            world-attempt (text x) (call x) s,
            r.there x s.world
                (attempt_clean (text x) (call x) s (sweep_clean _ text call xs s' h')).1,
            r.others x s.world k,
          ))
  ]

-- With no failing call, exactly the desired items are there.
pub exactly_present :
    {W K X : Type 0} ⦃e : Comparable K⦄ (view : W → K → Option (Unit {0})) (key : X → K)
    (rt : Runtime) (site : ℕ) (actual : List X) (desired : GoSet K) (list : Query W (List X))
    (text : X → String) (text' : K → String) (remove : X → Call W) (install : K → Call W)
    → Lists view key list
    → Removes view key remove
    → Installs view (λ k. k) (λ _. tt) install
    → (w : W) (s : Run W) → s.world ≡ w
    → (list w).0 ≡ ok actual
    → (install_missing
        (λ k. k)
        (index_by key actual [])
        (keys rt site desired)
        text'
        install
        (remove_orphans key actual desired text remove s)).errs
      ≡ []
    → (k : K)
    → view
        (install_missing
          (λ k. k)
          (index_by key actual [])
          (keys rt site desired)
          text'
          install
          (remove_orphans key actual desired text remove s)).world
        k
      ≡ present (has k desired)
unfolding remove_orphans install_missing has
exactly_present view key rt site actual desired list text text' remove install lists removes
      installs w s at_w listed h k =
    present_after_additions view (λ j. j) (λ j. has j (index_by key actual [])) text' install
      installs (keys rt site desired) _ k h
    ∙ ground (
      arith,
      has_key-ranged k rt site desired,
      has-index_by key k actual [],
      view_after_removals view key (λ j. has j desired) text remove removes actual s k
          (sweep_clean _ text' install (keys rt site desired) _ h),
      at_w,
      lists.complete w actual k listed,
    )
