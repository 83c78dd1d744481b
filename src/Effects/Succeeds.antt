-- ===== src/Effects/Succeeds.antt =====
-- Statements of which every call returns nil: they go on to their end and collect no error.
use pontifex.Base.{
  Bool, String, none, List, [], ◌∷◌, ◌≡◌, refl, ap, ◌∙◌, inl, inr, Bool-cases, ℕ, Comparable,
}
use pontifex.GoMap.{GoMap, GoSet, has, index_by, Runtime, values}
use pontifex.Effects.{
  Call, Query, ok, Run, Action, ◌>>=◌, ◌>>◌, query, perform, attempt, attempt_query, sweep,
  reconciled,
}
use pontifex.Effects.Sweeps.{sweep_skip, sweep_call}
use pontifex.Effects.Converge.{converge}
use pontifex.Effects.Settles.{remove_orphans, install_missing}

module _ {W : Type 0} where
  -- A call that returns nil on every host, and a query that always answers.
  abbrev pub Works : Call W → Type 0
  Works call = (w : W) → (call w).0 ≡ none

  abbrev pub Answers : {A : Type 0} → Query W A → Type 0
  Answers {A} q = (w : W) → (a : A) × ((q w).0 ≡ ok a)

  -- Statements that leave the slice of errors as it is.
  abbrev pub Quiet : (Run W → Run W) → Type 0
  Quiet f = (s : Run W) → (f s).errs ≡ s.errs

  pub record Succeeds {A : Type 0} (m : Action W A) : Type 0 where
    pub result : (s : Run W) → (a : A) × ((m s).0 ≡ ok a)
    pub quiet : (s : Run W) → (m s).1.errs ≡ s.errs

  pub attempt-Quiet : (text : String) (call : Call W) → Works call → Quiet (attempt text call)
  unfolding attempt
  attempt-Quiet text call h s = rw (h s.world, attempt) refl

  pub attempt_query-Quiet :
      {A : Type 0} (text : String) (q : Query W A) (body : A → Run W → Run W)
      → Answers q
      → ((a : A) → Quiet (body a))
      → Quiet (attempt_query text q body)
  unfolding attempt_query
  attempt_query-Quiet text q body h g s =
      let (a, e) = h s.world in rw (e, attempt_query) (g a (record s { world = (q s.world).1 }))

  pub sweep-Quiet :
      {A : Type 0} (skip : A → Bool) (text : A → String) (call : A → Call W)
      → ((x : A) → Works (call x))
      → (xs : List A) → Quiet (sweep skip text call xs)
  unfolding sweep
  sweep-Quiet skip text call h [] s = refl
  sweep-Quiet skip text call h (x ∷ xs) s = elim (Bool-cases (skip x)) [
    | inl p ↦ ap Run.errs (sweep_skip skip text call x xs s p) ∙ sweep-Quiet skip text call h xs s
    | inr p ↦
        ap Run.errs (sweep_call skip text call x xs s p)
        ∙ sweep-Quiet skip text call h xs (attempt (text x) (call x) s)
        ∙ attempt-Quiet (text x) (call x) (h x) s
  ]

  pub perform-Succeeds : (f : Run W → Run W) → Quiet f → Succeeds (perform f)
  perform-Succeeds f h = record { result = λ s. (tt, refl); quiet = h }

  pub query-Succeeds :
      {A : Type 0} (text : String) (q : Query W A) → Answers q → Succeeds (query text q)
  query-Succeeds text q h = record {
    result = λ s. let (a, e) = h s.world in (a, rw e refl);
    quiet = λ s. refl;
  }

  pub then-Succeeds :
      {A C : Type 0} {m : Action W A} {k : A → Action W C}
      → Succeeds m
      → ((a : A) → Succeeds (k a))
      → Succeeds (m >>= k)
  then-Succeeds {m} {k} h g = record {
    result = λ s. let (a, e) = h.result s in let (c, e') = (g a).result (m s).1 in (c, rw e e');
    quiet = λ s. let (a, e) = h.result s in rw e ((g a).quiet (m s).1 ∙ h.quiet s);
  }

  -- Such a reconciliation returns nil.
  pub reconciled-nil : (m : Action W (Unit {0})) → Succeeds m → (w : W) → (reconciled m w).0 ≡ []
  reconciled-nil m h w =
      let s : Run W = record { errs = []; world = w } in let (a, e) = h.result s in rw e (h.quiet s)

module _ {W K X Y : Type 0} ⦃e : Comparable K⦄ where
  pub remove_orphans-Quiet :
      (key : X → K) (actual : List X) (desired : GoMap K Y) (text : X → String) (call : X → Call W)
      → ((x : X) → Works (call x))
      → Quiet (remove_orphans key actual desired text call)
  unfolding remove_orphans
  remove_orphans-Quiet key actual desired text call h =
      sweep-Quiet (λ x. has (key x) desired) text call h actual

module _ {W K Y : Type 0} ⦃e : Comparable K⦄ where
  pub install_missing-Quiet :
      (key : Y → K) (index : GoSet K) (desired : List Y) (text : Y → String) (call : Y → Call W)
      → ((y : Y) → Works (call y))
      → Quiet (install_missing key index desired text call)
  unfolding install_missing
  install_missing-Quiet key index desired text call h =
      sweep-Quiet (λ y. has (key y) index) text call h desired

module _ {W K X Y A : Type 0} ⦃e : Comparable K⦄ where
  -- A loop that drops what is not desired, before the rest.
  pub dropped :
      (key : X → K) (actual : List X) (desired : GoMap K Y) (text : X → String) (call : X → Call W)
      → ((x : X) → Works (call x))
      → {rest : Action W A} → Succeeds rest
      → Succeeds (perform (remove_orphans key actual desired text call) >> rest)
  dropped key actual desired text call h r =
      then-Succeeds (perform-Succeeds _ (remove_orphans-Quiet key actual desired text call h))
        λ _. r

module _ {W K Y A : Type 0} ⦃e : Comparable K⦄ where
  -- A loop that installs what is missing, before the rest.
  pub installed :
      (key : Y → K) (index : GoSet K) (desired : List Y) (text : Y → String) (call : Y → Call W)
      → ((y : Y) → Works (call y))
      → {rest : Action W A} → Succeeds rest
      → Succeeds (perform (install_missing key index desired text call) >> rest)
  installed key index desired text call h r =
      then-Succeeds (perform-Succeeds _ (install_missing-Quiet key index desired text call h))
        λ _. r

module _ {W K Y : Type 0} ⦃e : Comparable K⦄ where
  -- The same loop as the last statement.
  pub installed_last :
      (key : Y → K) (index : GoSet K) (desired : List Y) (text : Y → String) (call : Y → Call W)
      → ((y : Y) → Works (call y))
      → Succeeds (perform (install_missing key index desired text call))
  installed_last key index desired text call h =
      perform-Succeeds _ (install_missing-Quiet key index desired text call h)

-- A whole step on one kind of item.
module _ {W K X Y : Type 0} ⦃e : Comparable K⦄ where
  pub converge-Succeeds :
      (key : X → K) (key' : Y → K) (rt : Runtime) (site : ℕ) (desired : GoMap K Y)
      (list : Query W (List X)) (title : String) (text : X → String) (text' : Y → String)
      (remove : X → Call W) (install : Y → Call W)
      → Answers list
      → ((x : X) → Works (remove x))
      → ((y : Y) → Works (install y))
      → Succeeds (converge key key' rt site desired list title text text' remove install)
  converge-Succeeds key key' rt site desired list title text text' remove install l r i =
      then-Succeeds (query-Succeeds title list l) λ actual.
        then-Succeeds
          (perform-Succeeds (remove_orphans key actual desired text remove)
            (remove_orphans-Quiet key actual desired text remove r))
          λ _.
            perform-Succeeds
              (install_missing key' (index_by key actual []) (values rt site desired) text' install)
              (install_missing-Quiet key' (index_by key actual []) (values rt site desired) text'
                install i)
