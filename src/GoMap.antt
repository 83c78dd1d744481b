-- ===== src/GoMap.antt =====
-- Go's built-in `map`, as the list of its entries. The language leaves the order of a `range`
-- loop open, so each loop takes its order from a `Runtime`, which may give any permutation of the
-- entries and another one for each loop (`site` tells the loops of a call apart).
pub mod Laws
pub mod Ranges
pub mod Last
use pontifex.Base.{
  ℕ, Bool, true, false, List, [], ◌∷◌, ◌≡◌, map, Option, none, some, Permᴰ, Comparable, ◌==◌,
  if◌then◌else◌,
}

abbrev pub GoMap : Type 0 → Type 0 → Type 0
GoMap K V = List (K × V)

-- `map[K]struct{}`
abbrev pub GoSet : Type 0 → Type 0
GoSet K = GoMap K (Unit {0})

module _ {K V : Type 0} ⦃e : Comparable K⦄ where
  -- `v, ok := m[k]`
  unfoldable pub get : K → GoMap K V → Option V
  get k [] = none
  get k ((j, v) ∷ m) = if j == k then some v else get k m

  -- `_, ok := m[k]`
  unfoldable pub has : K → GoMap K V → Bool
  has k [] = false
  has k ((j, v) ∷ m) = if j == k then true else has k m

  -- `m[k] = v`
  unfoldable pub put : K → V → GoMap K V → GoMap K V
  put k v [] = (k, v) ∷ []
  put k v ((j, w) ∷ m) = if j == k then (j, v) ∷ m else (j, w) ∷ put k v m

  -- `delete(m, k)`
  unfoldable pub delete : K → GoMap K V → GoMap K V
  delete k [] = []
  delete k ((j, w) ∷ m) = let rest = delete k m in if j == k then rest else (j, w) ∷ rest

  -- One entry for each key.
  abbrev pub Distinct : GoMap K V → Type 0
  Distinct [] = Unit
  Distinct ((k, v) ∷ m) = (has k m ≡ false) × Distinct m

-- `s[k] = struct{}{}`
abbrev pub insert : {K : Type 0} ⦃e : Comparable K⦄ → K → GoSet K → GoSet K
insert k s = put k tt s

-- `for _, x := range xs { s[key(x)] = struct{}{} }`
unfoldable pub index_by : {K X : Type 0} ⦃e : Comparable K⦄ → (X → K) → List X → GoSet K → GoSet K
index_by key [] s = s
index_by key (x ∷ xs) s = index_by key xs (insert (key x) s)

pub record Runtime : Type 1 where
  pub range : (A : Type 0) → ℕ → List A → List A
  pub range-perm : (A : Type 0) (site : ℕ) (l : List A) → Permᴰ l (range A site l)

-- The entries of `m` in the order of the range loop `site`.
unfoldable pub entries : {K V : Type 0} → Runtime → ℕ → GoMap K V → List (K × V)
entries {K} {V} rt site m = rt.range (K × V) site m

unfoldable pub values : {K V : Type 0} → Runtime → ℕ → GoMap K V → List V
unfolding entries
values rt site m = map (λ e. e.1) (entries rt site m)

unfoldable pub keys : {K V : Type 0} → Runtime → ℕ → GoMap K V → List K
unfolding entries
keys rt site m = map (λ e. e.0) (entries rt site m)
