-- ===== src/Effects.antt =====
-- What the reconcilers share: `error` values, calls of an interface of the agent on a host, and
-- the loops that collect the errors of such calls in a slice and go on.
pub mod Sweeps
pub mod Keyed
pub mod Settles
pub mod Converge
pub mod Keeps
pub mod Present
pub mod Preserves
pub mod Succeeds
use pontifex.Base.{ℕ, Bool, List, [], ◌∷◌, ◌++◌, Option, none, some, String, if◌then◌else◌}

-- A non-nil `error`: one that an interface made, or `fmt.Errorf("<text>: %w", err)`.
pub data Error : Type 0 where
  other : String → Error
  wrap : String → Error → Error

pub data Result (A : Type 0) : Type 0 where
  ok : A → Result A
  err : Error → Result A

-- A method `func(…) error` of an interface, on the host `W` that it acts on; `none` is nil.
abbrev pub Call : Type 0 → Type 0
Call W = W → Option Error × W

-- A method `func(…) (A, error)`.
abbrev pub Query : Type 0 → Type 0 → Type 0
Query W A = W → Result A × W

-- The host, and the slice `errs` so far.
pub record Run (W : Type 0) : Type 0 where
  pub errs : List Error
  pub world : W

-- Statements that may return early with an error.
abbrev pub Action : Type 0 → Type 0 → Type 0
Action W A = Run W → Result A × Run W

module _ {W A B : Type 0} where
  abbrev pub continue : Result A → (A → Action W B) → Action W B
  continue (ok a) f s = f a s
  continue (err x) f s = (err x, s)

  infixl 5 ◌>>=◌ ◌>>◌
  abbrev pub ◌>>=◌ : Action W A → (A → Action W B) → Action W B
  ◌>>=◌ m f s = let (r, s') = m s in continue r f s'

  abbrev pub ◌>>◌ : Action W A → Action W B → Action W B
  m >> k = m >>= λ _. k

abbrev pub wrap_err : {A : Type 0} → String → Result A → Result A
wrap_err text (ok a) = ok a
wrap_err text (err x) = err (wrap text x)

module _ {W A : Type 0} where
  abbrev pub pure : A → Action W A
  pure a s = (ok a, s)

  -- `x, err := q(…); if err != nil { return fmt.Errorf("<text>: %w", err) }`
  abbrev pub query : String → Query W A → Action W A
  query text q s = let (r, w) = q s.world in (wrap_err text r, record s { world = w })

module _ {W A : Type 0} where
  -- `x, err := q(…); if err != nil { return err }`
  abbrev pub ask : Query W A → Action W A
  ask q s = let (r, w) = q s.world in (r, record s { world = w })

  -- `x, err := f(…); if err != nil { return fmt.Errorf("<text>: %w", err) }` for such a function.
  abbrev pub wrapping : String → Action W A → Action W A
  wrapping text m s = let (r, s') = m s in (wrap_err text r, s')

  -- A function of statements, called on a host.
  abbrev pub called : Action W A → Query W A
  called m w = let (r, s) = m (record { errs = []; world = w }) in (r, s.world)

abbrev pub stopped : String → Option Error → Result (Unit {0})
stopped text none = ok tt
stopped text (some x) = err (wrap text x)

module _ {W : Type 0} where
  -- Statements that do not return.
  abbrev pub perform : (Run W → Run W) → Action W (Unit {0})
  perform f s = (ok tt, f s)

  -- `if err := call; err != nil { return fmt.Errorf("<text>: %w", err) }`
  abbrev pub stop : String → Call W → Action W (Unit {0})
  stop text call s = let (r, w) = call s.world in (stopped text r, record s { world = w })

  -- `if err := call; err != nil { *errs = append(*errs, fmt.Errorf("<text>: %w", err)) }`
  unfoldable pub attempt : String → Call W → Run W → Run W
  attempt text call s =
      let (r, w) = call s.world in
      elim r [
        | none ↦ record s { world = w }
        | some x ↦ record { errs = s.errs ++ wrap text x ∷ []; world = w }
      ]

module _ {W A : Type 0} where
  -- `x, err := q(…); if err != nil { *errs = append(*errs, fmt.Errorf(…)); continue }; body`
  unfoldable pub attempt_query : String → Query W A → (A → Run W → Run W) → Run W → Run W
  attempt_query text q body s =
      let (r, w) = q s.world in
      elim r [
        | ok a ↦ body a (record s { world = w })
        | err x ↦ record { errs = s.errs ++ wrap text x ∷ []; world = w }
      ]

  -- `for _, x := range xs { if skip(x) { continue }; attempt }`
  unfoldable pub sweep : (A → Bool) → (A → String) → (A → Call W) → List A → Run W → Run W
  sweep skip text call [] s = s
  sweep skip text call (x ∷ xs) s =
      sweep skip text call xs (if skip x then s else attempt (text x) (call x) s)

-- A whole reconciliation: an early return drops the slice, and its end is
-- `return errors.Join(errs...)`, which is nil for the empty slice.
abbrev pub finish : {W : Type 0} → Result (Unit {0}) → Run W → List Error × W
finish (ok _) s = (s.errs, s.world)
finish (err x) s = (x ∷ [], s.world)

abbrev pub reconciled : {W : Type 0} → Action W (Unit {0}) → W → List Error × W
reconciled m w = let (r, s) = m (record { errs = []; world = w }) in finish r s
