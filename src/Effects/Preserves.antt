-- ===== src/Effects/Preserves.antt =====
-- Statements that preserve an invariant of the host, whatever they return.
use pontifex.Base.{Bool, true, false, sym, subst, inl, inr, if◌then◌else◌}
use pontifex.Effects.{Query, Run, Action, ◌>>=◌, pure, ask}
use pontifex.Effects.Converge.{Result-cases}
use pontifex.Effects.Keeps.{Keeps}

module _ {W : Type 0} (P : W → Type 0) where
  pub record Preserves {A : Type 0} (m : Action W A) : Type 0 where
    pub preserves : (s : Run W) → P s.world → P (m s).1.world

  pub then-Preserves :
      {A C : Type 0} {m : Action W A} {k : A → Action W C}
      → Preserves m
      → ((a : A) → Preserves (k a))
      → Preserves (m >>= k)
  then-Preserves {m} {k} h g = record {
    preserves = λ s p. elim (Result-cases (m s).0) [
      | inl (a, e) ↦ rw e ((g a).preserves (m s).1 (h.preserves s p))
      | inr (x, e) ↦ rw e (h.preserves s p)
    ];
  }

  pub pure-Preserves : {A : Type 0} (a : A) → Preserves (pure a)
  pure-Preserves a = record { preserves = λ s p. p }

  pub ask-Preserves : {A : Type 0} (q : Query W A) → ((w : W) → P w → P (q w).1) → Preserves (ask q)
  ask-Preserves q h = record { preserves = λ s p. h s.world p }

  pub if-Preserves :
      {A : Type 0} {m n : Action W A} (b : Bool)
      → Preserves m
      → Preserves n
      → Preserves (if b then m else n)
  if-Preserves true h g = h
  if-Preserves false h g = g

-- What leaves a part of the host alone preserves an invariant of this part.
pub keeps-Preserves :
    {W B A : Type 0} (f : W → B) (Q : B → Type 0) {m : Action W A}
    → Keeps f m
    → Preserves (λ w. Q (f w)) m
keeps-Preserves f Q h = record { preserves = λ s p. subst Q (sym (h.keeps s)) p }
