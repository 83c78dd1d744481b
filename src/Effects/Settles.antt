-- ===== src/Effects/Settles.antt =====
-- One kind of item across a whole reconciliation: list, drop what is not desired, install what is
-- missing, with other calls in between.
use pontifex.Base.{
  All, ==-self, ℕ, true, List, [], ◌∷◌, Option, none, some, String, ◌≡◌, ◌∙◌, arith, Comparable,
}
use pontifex.GoMap.{GoMap, GoSet, get, has, index_by, Runtime, values}
use pontifex.GoMap.Laws.{has-eq-is_some}
use pontifex.GoMap.Ranges.{
  has_key, has_key-eq-is_some, IsIndexed, find-values, DistinctBy-values, has-index_by,
}
use pontifex.Effects.{Call, Query, ok, Run, sweep}
use pontifex.Effects.Sweeps.{sweep_clean, sweep_keeps, sweep_idle}
use pontifex.Effects.Keyed.{
  Removes, Installs, Lists, view_after_removals, view_after_additions, view_kept,
}

-- What is left of an item that was `old` when `new` is desired: an item that is there stays.
abbrev pub settled : {V X : Type 0} → (X → V) → Option V → Option X → Option V
settled content old none = none
settled content none (some x) = some (content x)
settled content (some v) (some x) = some v

-- `for _, x := range actual { if _, ok := desired[key(x)]; ok { continue }; … }`
unfoldable pub remove_orphans :
    {W K X Y : Type 0} ⦃e : Comparable K⦄
    → (X → K)
    → List X
    → GoMap K Y
    → (X → String)
    → (X → Call W)
    → Run W
    → Run W
remove_orphans key actual desired text call = sweep (λ x. has (key x) desired) text call actual

-- `for _, y := range desired { if _, ok := index[key(y)]; ok { continue }; … }`
unfoldable pub install_missing :
    {W K Y : Type 0} ⦃e : Comparable K⦄
    → (Y → K)
    → GoSet K
    → List Y
    → (Y → String)
    → (Y → Call W)
    → Run W
    → Run W
install_missing key index desired text call = sweep (λ y. has (key y) index) text call desired

module _ {W K X Y : Type 0} ⦃e : Comparable K⦄ (key : X → K) (actual : List X) (desired : GoMap K Y)
    (text : X → String) (call : X → Call W) (s : Run W) where
  pub remove_orphans_clean : (remove_orphans key actual desired text call s).errs ≡ [] → s.errs ≡ []
  unfolding remove_orphans
  remove_orphans_clean = sweep_clean _ text call actual s

  pub remove_orphans_keeps :
      {B : Type 0} (f : W → B)
      → ((x : X) (w : W) → f (call x w).1 ≡ f w)
      → f (remove_orphans key actual desired text call s).world ≡ f s.world
  unfolding remove_orphans
  remove_orphans_keeps f keeps = sweep_keeps _ text call f keeps actual s

module _ {W K Y : Type 0} ⦃e : Comparable K⦄ (key : Y → K) (index : GoSet K) (desired : List Y)
    (text : Y → String) (call : Y → Call W) (s : Run W) where
  pub install_missing_clean :
      (install_missing key index desired text call s).errs ≡ [] → s.errs ≡ []
  unfolding install_missing
  install_missing_clean = sweep_clean _ text call desired s

  pub install_missing_keeps :
      {B : Type 0} (f : W → B)
      → ((x : Y) (w : W) → f (call x w).1 ≡ f w)
      → f (install_missing key index desired text call s).world ≡ f s.world
  unfolding install_missing
  install_missing_keeps f keeps = sweep_keeps _ text call f keeps desired s

-- What holds of every key that a list has holds of every element's key.
All-of-has_key :
    {K X : Type 0} ⦃e : Comparable K⦄ (key : X → K) (P : K → Type 0) (xs : List X)
    → ((k : K) → has_key key k xs ≡ true → P k)
    → All (λ x. P (key x)) xs
unfolding has_key
All-of-has_key key P [] h = tt
All-of-has_key key P (x ∷ xs) h = (
  h (key x) (rw (==-self (key x), has_key)),
  All-of-has_key key P xs (λ k t. h k (ground (arith, t))),
)

pub remove_orphans_idle :
    {W K X Y : Type 0} ⦃e : Comparable K⦄ (key : X → K) (actual : List X) (desired : GoMap K Y)
    (text : X → String) (call : X → Call W) (s : Run W)
    → ((k : K) → has_key key k actual ≡ true → has k desired ≡ true)
    → remove_orphans key actual desired text call s ≡ s
unfolding remove_orphans
remove_orphans_idle key actual desired text call s h =
    sweep_idle _ text call actual s (All-of-has_key key (λ k. has k desired ≡ true) actual h)

pub install_missing_idle :
    {W K Y : Type 0} ⦃e : Comparable K⦄ (key : Y → K) (index : GoSet K) (desired : List Y)
    (text : Y → String) (call : Y → Call W) (s : Run W)
    → ((k : K) → has_key key k desired ≡ true → has k index ≡ true)
    → install_missing key index desired text call s ≡ s
unfolding install_missing
install_missing_idle key index desired text call s h =
    sweep_idle _ text call desired s (All-of-has_key key (λ k. has k index ≡ true) desired h)

-- Whatever fails, an item that is there and desired is not touched.
pub remove_orphans_kept :
    {W K V X Y : Type 0} ⦃e : Comparable K⦄ (view : W → K → Option V) (key : X → K)
    (actual : List X) (desired : GoMap K Y) (text : X → String) (call : X → Call W) (s : Run W)
    → Removes view key call
    → (k : K) → has k desired ≡ true
    → view (remove_orphans key actual desired text call s).world k ≡ view s.world k
unfolding remove_orphans
remove_orphans_kept view key actual desired text call s r k =
    view_kept view key (λ j. has j desired) text call r.others actual s k

pub install_missing_kept :
    {W K V Y : Type 0} ⦃e : Comparable K⦄ (view : W → K → Option V) (key : Y → K) (index : GoSet K)
    (desired : List Y) (text : Y → String) (content : Y → V) (call : Y → Call W) (s : Run W)
    → Installs view key content call
    → (k : K) → has k index ≡ true
    → view (install_missing key index desired text call s).world k ≡ view s.world k
unfolding install_missing
install_missing_kept view key index desired text content call s r k =
    view_kept view key (λ j. has j index) text call r.others desired s k

module _ {W K V X Y : Type 0} ⦃e : Comparable K⦄ (view : W → K → Option V) (key : X → K)
    (key' : Y → K) (rt : Runtime) (site : ℕ) (actual : List X) (desired : GoMap K Y)
    (indexed : IsIndexed key' desired) (list : Query W (List X)) (lists : Lists view key list)
    (w : W) (listed : (list w).0 ≡ ok actual) where
  module _ (text : X → String) (text' : Y → String) (content : Y → V) (remove : X → Call W)
      (install : Y → Call W) (removes : Removes view key remove)
      (installs : Installs view key' content install) (s s' : Run W)
      (before : (k : K) → view s.world k ≡ view w k)
      (between : (k : K)
        → view s'.world k ≡ view (remove_orphans key actual desired text remove s).world k) where
    -- With no failing call, each key ends as `settled` says.
    pub settles :
        (remove_orphans key actual desired text remove s).errs ≡ []
        → (install_missing key'
            (index_by key actual [])
            (values rt site desired)
            text'
            install
            s').errs
          ≡ []
        → (k : K)
        → view
            (install_missing key'
              (index_by key actual [])
              (values rt site desired)
              text'
              install
              s').world
            k
          ≡ settled content (view w k) (get k desired)
    unfolding remove_orphans install_missing has
    settles h h' k =
        view_after_additions view key' (λ j. has j (index_by key actual [])) text' content install
          installs (values rt site desired) s' k
          (DistinctBy-values key' rt site desired indexed.0 indexed.1) h'
        ∙ ground (
          arith,
          find-values key' rt site desired k indexed.0 indexed.1,
          has-index_by key k actual [],
          between k,
          before k,
          view_after_removals view key (λ j. has j desired) text remove removes actual s k h,
          has-eq-is_some k desired,
          lists.complete w actual k listed,
        )

-- One kind of item at its second reconciliation: `v` is what a host shows once it has settled.
module _ {W K V X Y : Type 0} ⦃e : Comparable K⦄ (view : W → K → Option V) (key : X → K)
    (key' : Y → K) (rt : Runtime) (site : ℕ) (actual : List X) (desired : GoMap K Y)
    (indexed : IsIndexed key' desired) (list : Query W (List X)) (lists : Lists view key list)
    (w : W) (listed : (list w).0 ≡ ok actual) (content : Y → V) (old : K → Option V)
    (has_settled : (k : K) → view w k ≡ settled content (old k) (get k desired)) where
  pub settled_removals :
      (text : X → String) (call : X → Call W) (s : Run W)
      → remove_orphans key actual desired text call s ≡ s
  settled_removals text call s = remove_orphans_idle key actual desired text call s λ k h.
      ground (arith, has-eq-is_some k desired, lists.complete w actual k listed, has_settled k)

  pub settled_additions :
      (text : Y → String) (call : Y → Call W) (s : Run W)
      → install_missing key' (index_by key actual []) (values rt site desired) text call s ≡ s
  settled_additions text call s =
      install_missing_idle key' (index_by key actual []) (values rt site desired) text call s λ k h.
        ground (
          arith,
          has-index_by key k actual [],
          lists.complete w actual k listed,
          has_settled k,
          has_key-eq-is_some key' k (values rt site desired),
          find-values key' rt site desired k indexed.0 indexed.1,
        )

pub pair_eq : {A B : Type 0} {p : A × B} {a : A} {b : B} → p.0 ≡ a → p.1 ≡ b → p ≡ (a, b)
pair_eq h k = λ i. (h i, k i)
