-- ===== src/Effects/Sweeps.antt =====
-- What a sweep over a list leaves behind.
use mathlib.Core.List.{concat-ne-nil}
use pontifex.Base.{
  ap, sym, All, Bool, true, false, List, [], ◌∷◌, none, String, ◌≡◌, refl, ◌∙◌, arith, Bool-cases,
  inl, inr,
}
use pontifex.Effects.{Call, Run, attempt, sweep}

module _ {W : Type 0} where
  -- No error in the slice at the end means none at the start, and a call that returned nil.
  pub attempt_clean :
      (text : String) (call : Call W) (s : Run W)
      → (attempt text call s).errs ≡ []
      → (s.errs ≡ []) × ((call s.world).0 ≡ none)
  unfolding attempt
  attempt_clean text call s h = grind (arith, concat-ne-nil)

  pub world-attempt :
      (text : String) (call : Call W) (s : Run W) → (attempt text call s).world ≡ (call s.world).1
  unfolding attempt
  world-attempt text call s = ground arith

module _ {W A : Type 0} (skip : A → Bool) (text : A → String) (call : A → Call W) where
  pub sweep_skip :
      (x : A) (xs : List A) (s : Run W)
      → skip x ≡ true
      → sweep skip text call (x ∷ xs) s ≡ sweep skip text call xs s
  unfolding sweep
  sweep_skip x xs s p = rw (p, sweep)

  pub sweep_call :
      (x : A) (xs : List A) (s : Run W)
      → skip x ≡ false
      → sweep skip text call (x ∷ xs) s ≡ sweep skip text call xs (attempt (text x) (call x) s)
  unfolding sweep
  sweep_call x xs s p = rw (p, sweep)

  pub sweep_clean : (xs : List A) (s : Run W) → (sweep skip text call xs s).errs ≡ [] → s.errs ≡ []
  unfolding sweep
  sweep_clean [] s h = h
  sweep_clean (x ∷ xs) s h = elim (Bool-cases (skip x)) [
    | inl p ↦ sweep_clean xs s (ap Run.errs (sym (sweep_skip x xs s p)) ∙ h)
    | inr p ↦
        (attempt_clean (text x) (call x) s
          (sweep_clean xs _ (ap Run.errs (sym (sweep_call x xs s p)) ∙ h))).0
  ]

  -- A part of the host that no call changes is as it was.
  pub sweep_keeps :
      {B : Type 0} (f : W → B)
      → ((x : A) (w : W) → f (call x w).1 ≡ f w)
      → (xs : List A) (s : Run W) → f (sweep skip text call xs s).world ≡ f s.world
  unfolding sweep
  sweep_keeps f keeps [] s = refl
  sweep_keeps f keeps (x ∷ xs) s = elim (Bool-cases (skip x)) [
    | inl p ↦ rw (p, sweep) (sweep_keeps f keeps xs s)
    | inr p ↦
        rw (p, sweep)
          (sweep_keeps f keeps xs (attempt (text x) (call x) s)
            ∙ ap f (world-attempt (text x) (call x) s)
            ∙ keeps x s.world)
  ]

  -- A loop that skips every element does nothing.
  pub sweep_idle :
      (xs : List A) (s : Run W) → All (λ x. skip x ≡ true) xs → sweep skip text call xs s ≡ s
  unfolding sweep
  sweep_idle [] s h = refl
  sweep_idle (x ∷ xs) s h = rw h.0 (sweep_idle xs s h.1)
