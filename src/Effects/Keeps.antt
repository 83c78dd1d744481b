-- ===== src/Effects/Keeps.antt =====
-- Statements that leave a part of the host alone, and statements that always fail.
use pontifex.Base.{String, [], ◌≡◌, refl, ◌∙◌, inl, inr}
use pontifex.Effects.{
  Call, Query, ok, err, Error, Run, Action, ◌>>=◌, pure, ask, query, stop, called, wrapping,
}
use pontifex.Effects.Converge.{Result-cases, err-ne-ok}

module _ {W B : Type 0} (f : W → B) where
  pub record Keeps {A : Type 0} (m : Action W A) : Type 0 where
    pub keeps : (s : Run W) → f (m s).1.world ≡ f s.world

  -- The same of a single call.
  abbrev pub KeepsCall : Call W → Type 0
  KeepsCall call = (w : W) → f (call w).1 ≡ f w

  abbrev pub KeepsQuery : {A : Type 0} → Query W A → Type 0
  KeepsQuery q = (w : W) → f (q w).1 ≡ f w

  pub then-Keeps :
      {A C : Type 0} {m : Action W A} {k : A → Action W C}
      → Keeps m
      → ((a : A) → Keeps (k a))
      → Keeps (m >>= k)
  then-Keeps {m} {k} h g = record {
    keeps = λ s. elim (Result-cases (m s).0) [
      | inl (a, e) ↦ rw e ((g a).keeps (m s).1 ∙ h.keeps s)
      | inr (x, e) ↦ rw e (h.keeps s)
    ];
  }

  pub pure-Keeps : {A : Type 0} (a : A) → Keeps (pure a)
  pure-Keeps a = record { keeps = λ s. refl }

  pub stop-Keeps : (text : String) (call : Call W) → KeepsCall call → Keeps (stop text call)
  stop-Keeps text call h = record { keeps = λ s. h s.world }

  pub ask-Keeps : {A : Type 0} (q : Query W A) → KeepsQuery q → Keeps (ask q)
  ask-Keeps q h = record { keeps = λ s. h s.world }

  pub query-Keeps :
      {A : Type 0} (text : String) (q : Query W A) → KeepsQuery q → Keeps (query text q)
  query-Keeps text q h = record { keeps = λ s. h s.world }

  pub wrapping-Keeps :
      {A : Type 0} {m : Action W A} (text : String) → Keeps m → Keeps (wrapping text m)
  wrapping-Keeps text h = record { keeps = h.keeps }

  pub called-Keeps : {A : Type 0} {m : Action W A} → Keeps m → KeepsQuery (called m)
  called-Keeps h w = h.keeps (record { errs = []; world = w })

module _ {W : Type 0} where
  pub record Fails {A : Type 0} (m : Action W A) : Type 0 where
    pub fails : (s : Run W) → (x : Error) × ((m s).0 ≡ err x)

  -- A step that always fails makes what comes before it fail too.
  pub then-Fails :
      {A C : Type 0} (m : Action W A) (k : A → Action W C)
      → ((a : A) → Fails (k a))
      → Fails (m >>= k)
  then-Fails m k h = record {
    fails = λ s. elim (Result-cases (m s).0) [
      | inl (a, e) ↦ rw e ((h a).fails (m s).1)
      | inr (x, e) ↦ (x, rw e refl)
    ];
  }

  -- What follows a step that fails does not change that.
  pub Fails-first : {A C : Type 0} {m : Action W A} (k : A → Action W C) → Fails m → Fails (m >>= k)
  Fails-first {m} k h = record { fails = λ s. let (x, e) = h.fails s in (x, rw e refl) }

module _ {W A C : Type 0} where
  -- Statements that have succeeded: so has each, and nothing else has happened.
  pub then-ok :
      (m : Action W A) (k : A → Action W C) (s : Run W) (c : C)
      → ((m >>= k) s).0 ≡ ok c
      → (a : A) × ((m s).0 ≡ ok a) × ((m >>= k) s ≡ k a (m s).1) × ((k a (m s).1).0 ≡ ok c)
  then-ok m k s c h = elim (Result-cases (m s).0) [
    | inl (a, e) ↦ (a, e, rw e refl, rw e at h)
    | inr (x, e) ↦ absurd (err-ne-ok (rw e at h))
  ]
