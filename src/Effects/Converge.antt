-- ===== src/Effects/Converge.antt =====
-- A whole step of a reconciler on one kind of item: list what is there, remove what is not desired
-- and install what is missing.
use pontifex.Base.{
  is_some, true, ℕ, String, List, [], Option, ◌≡◌, ◌⊎◌, inl, inr, refl, ap, ◌∙◌, arith, Comparable,
}
use pontifex.GoMap.{GoMap, get, has, index_by, Runtime, values}
use pontifex.GoMap.Ranges.{IsIndexed, has-index_by}
use pontifex.Effects.{Call, Query, Result, ok, err, Error, Run, Action, ◌>>=◌, ◌>>◌, query, perform}
use pontifex.Effects.Keyed.{Removes, Installs, Lists}
use pontifex.Effects.Settles.{
  remove_orphans_kept, install_missing_kept, settled, remove_orphans, install_missing, settles,
  remove_orphans_clean, remove_orphans_keeps, install_missing_clean, install_missing_keeps,
}

pub Result-cases :
    {A : Type 0} (r : Result A) → ((a : A) × (r ≡ ok a)) ⊎ ((x : Error) × (r ≡ err x))
Result-cases (ok a) = inl (a, refl)
Result-cases (err x) = inr (x, refl)

pub err-ne-ok : {A : Type 0} {x : Error} {a : A} → err x ≡ ok a → ⊥
err-ne-ok h = cc

pub ok-inj : {A : Type 0} {a b : A} → ok a ≡ ok b → a ≡ b
ok-inj h = ground arith

module _ {W K X Y : Type 0} ⦃e : Comparable K⦄ (key : X → K) (key' : Y → K) (rt : Runtime)
    (site : ℕ) (desired : GoMap K Y) (list : Query W (List X)) (title : String) (text : X → String)
    (text' : Y → String) (remove : X → Call W) (install : Y → Call W) where
  abbrev pub converge : Action W (Unit {0})
  converge = do
    actual ← query title list
    perform (remove_orphans key actual desired text remove)
    perform (install_missing key' (index_by key actual []) (values rt site desired) text' install)

  pub converge_keeps :
      {B : Type 0} (f : W → B)
      → ((w : W) → f (list w).1 ≡ f w)
      → ((x : X) (w : W) → f (remove x w).1 ≡ f w)
      → ((y : Y) (w : W) → f (install y w).1 ≡ f w)
      → (s : Run W) → f (converge s).1.world ≡ f s.world
  converge_keeps f l r i s = elim (Result-cases (list s.world).0) [
    | inr (x, p) ↦ rw p (l s.world)
    | inl (actual, p) ↦ rw p (
        install_missing_keeps key' _ _ text' install _ f i
        ∙ remove_orphans_keeps key actual desired text remove _ f r
        ∙ l s.world)
  ]

  module _ {V : Type 0} (view : W → K → Option V) (content : Y → V)
      (indexed : IsIndexed key' desired) (lists : Lists view key list)
      (removes : Removes view key remove) (installs : Installs view key' content install)
      (s : Run W) (done : (converge s).0 ≡ ok tt) (clean : (converge s).1.errs ≡ []) where
    pub converge_clean : s.errs ≡ []
    converge_clean = elim (Result-cases (list s.world).0) [
      | inr (x, p) ↦ absurd (err-ne-ok (rw p at done))
      | inl (actual, p) ↦
          remove_orphans_clean key actual desired text remove _
            (install_missing_clean key' _ _ text' install _ (rw p at clean))
    ]

    pub converge_settles :
        (k : K) → view (converge s).1.world k ≡ settled content (view s.world k) (get k desired)
    converge_settles k = elim (Result-cases (list s.world).0) [
      | inr (x, p) ↦ absurd (err-ne-ok (rw p at done))
      | inl (actual, p) ↦
          let after : (install_missing key' (index_by key actual []) (values rt site desired) text'
                install
                (remove_orphans key actual desired text remove
                  (record s { world = (list s.world).1 }))).errs
              ≡ [] =
            rw p at clean in
          rw p (
            settles view key key' rt site actual desired indexed list lists s.world p text text'
              content remove install removes installs (record s { world = (list s.world).1 }) _
              (λ j. ap (λ w. view w j) (lists.unchanged s.world)) (λ j. refl)
              (install_missing_clean key' _ _ text' install _ after) after k)
    ]

module _ {W K X Y : Type 0} ⦃e : Comparable K⦄ (key : X → K) (key' : Y → K) (rt : Runtime)
    (site : ℕ) (desired : GoMap K Y) (list : Query W (List X)) (title : String) (text : X → String)
    (text' : Y → String) (remove : X → Call W) (install : Y → Call W) where
  -- Whatever fails, an item that is there and desired is not touched.
  pub converge_kept :
      {V : Type 0} (view : W → K → Option V) (content : Y → V)
      → Lists view key list
      → Removes view key remove
      → Installs view key' content install
      → (s : Run W) (k : K) → is_some (view s.world k) ≡ true
      → has k desired ≡ true
      → view (converge key key' rt site desired list title text text' remove install s).1.world k
        ≡ view s.world k
  unfolding has
  converge_kept view content lists removes installs s k there wanted =
      let same = ap (λ w. view w k) (lists.unchanged s.world) in
      elim (Result-cases (list s.world).0) [
        | inr (x, p) ↦ rw p same
        | inl (actual, p) ↦ rw p (
            install_missing_kept view key' _ _ text' content install _ installs k
              (ground (arith, has-index_by key k actual [], lists.complete s.world actual k p))
            ∙ remove_orphans_kept view key actual desired text remove _ removes k wanted
            ∙ same)
      ]
