-- ===== src/GoMap/Ranges.antt =====
-- A range loop meets every entry of its map once, whatever its order.
use pontifex.Base.{
  subst, ℕ, Bool, true, false, List, [], ◌∷◌, ◌≡◌, refl, sym, ◌∙◌, map, Option, none, some, Permᴰ,
  arith, Comparable, ◌==◌, All, is_some, if◌then◌else◌,
}
use pontifex.GoMap.{GoMap, GoSet, get, has, put, index_by, Distinct, Runtime, entries, values}
use pontifex.GoMap.Laws.{has-put, put-Distinct}

-- Lists of values that carry their own key.
module _ {K V : Type 0} ⦃e : Comparable K⦄ (key : V → K) where
  -- The first value with the key `k`.
  unfoldable pub find : K → List V → Option V
  find k [] = none
  find k (x ∷ xs) = if key x == k then some x else find k xs

  unfoldable pub has_key : K → List V → Bool
  has_key k [] = false
  has_key k (x ∷ xs) = if key x == k then true else has_key k xs

  abbrev pub DistinctBy : List V → Type 0
  DistinctBy [] = Unit
  DistinctBy (x ∷ xs) = (has_key (key x) xs ≡ false) × DistinctBy xs

  -- A map whose keys are those of its values.
  abbrev pub Keyed : GoMap K V → Type 0
  Keyed m = All (λ en. en.0 ≡ key en.1) m

  pub has_key-eq-is_some : (k : K) (xs : List V) → has_key k xs ≡ is_some (find k xs)
  unfolding has_key find
  has_key-eq-is_some k [] = refl
  has_key-eq-is_some k (x ∷ xs) = ground (arith, has_key-eq-is_some k xs)

  find-map : (k : K) (m : GoMap K V) → Keyed m → find k (map (λ en. en.1) m) ≡ get k m
  unfolding find get
  find-map k [] h = refl
  find-map k ((j, v) ∷ m) h = ground (arith, find-map k m h.1)

  has_key-map : (k : K) (m : GoMap K V) → Keyed m → has_key k (map (λ en. en.1) m) ≡ has k m
  unfolding has_key has
  has_key-map k [] h = refl
  has_key-map k ((j, v) ∷ m) h = ground (arith, has_key-map k m h.1)

  DistinctBy-map : (m : GoMap K V) → Keyed m → Distinct m → DistinctBy (map (λ en. en.1) m)
  DistinctBy-map [] h d = tt
  DistinctBy-map ((j, v) ∷ m) h d =
      (ground (arith, has_key-map j m h.1, h.0), DistinctBy-map m h.1 d.1)

module _ {A : Type 0} (P : A → Type 0) where
  All-perm : {l m : List A} → Permᴰ l m → All P l → All P m
  All-perm Permᴰ.nil h = h
  All-perm (Permᴰ.cons p q) h = (subst P p h.0, All-perm q h.1)
  All-perm (Permᴰ.swap p q) h = (subst P q h.1.0, (subst P p h.0, h.1.1))
  All-perm (Permᴰ.trans p q) h = All-perm q (All-perm p h)

module _ {K V : Type 0} ⦃e : Comparable K⦄ where
  pub has-perm : (k : K) {l m : GoMap K V} → Permᴰ l m → has k l ≡ has k m
  unfolding has
  has-perm k Permᴰ.nil = refl
  has-perm k (Permᴰ.cons p q) = ground (arith, has-perm k q)
  has-perm k (Permᴰ.swap p q) = ground arith
  has-perm k (Permᴰ.trans p q) = has-perm k p ∙ has-perm k q

  pub Distinct-perm : {l m : GoMap K V} → Permᴰ l m → Distinct l → Distinct m
  unfolding has
  Distinct-perm Permᴰ.nil d = d
  Distinct-perm (Permᴰ.cons {a = a} p q) d = ground (arith, has-perm a.0 q, Distinct-perm q d.1)
  Distinct-perm (Permᴰ.swap {a = a} {b = b} p q) d =
      ground (arith, e.equal_iff a.0 b.0, e.equal_iff b.0 a.0)
  Distinct-perm (Permᴰ.trans p q) d = Distinct-perm q (Distinct-perm p d)

  pub get-perm : (k : K) {l m : GoMap K V} → Permᴰ l m → Distinct l → get k l ≡ get k m
  unfolding get has
  get-perm k Permᴰ.nil d = refl
  get-perm k (Permᴰ.cons p q) d = ground (arith, get-perm k q d.1)
  get-perm k (Permᴰ.swap {a = a} {b = b} p q) d =
      ground (arith, e.equal_iff a.0 b.0, e.equal_iff b.0 a.0, e.equal_iff a.0 k, e.equal_iff b.0 k)
  get-perm k (Permᴰ.trans p q) d = get-perm k p d ∙ get-perm k q (Distinct-perm p d)

module _ {K V : Type 0} ⦃e : Comparable K⦄ (key : V → K) (rt : Runtime) (site : ℕ)
    (m : GoMap K V) where
  ranged_Keyed : Keyed key m → Keyed key (entries rt site m)
  unfolding entries
  ranged_Keyed = All-perm (λ en. en.0 ≡ key en.1) (rt.range-perm (K × V) site m)

  pub find-values : (k : K) → Keyed key m → Distinct m → find key k (values rt site m) ≡ get k m
  unfolding values entries
  find-values k h d =
      find-map key k (entries rt site m) (ranged_Keyed h)
      ∙ sym (get-perm k (rt.range-perm (K × V) site m) d)

  pub DistinctBy-values : Keyed key m → Distinct m → DistinctBy key (values rt site m)
  unfolding values entries
  DistinctBy-values h d =
      DistinctBy-map key (entries rt site m) (ranged_Keyed h)
        (Distinct-perm (rt.range-perm (K × V) site m) d)

pub has-index_by :
    {K X : Type 0} ⦃e : Comparable K⦄ (key : X → K) (k : K) (xs : List X) (s : GoSet K)
    → has k (index_by key xs s) ≡ (if has_key key k xs then true else has k s)
unfolding index_by has_key
has-index_by key k [] s = refl
has-index_by key k (x ∷ xs) s =
    has-index_by key k xs (put (key x) tt s) ∙ ground (arith, has-put (key x) k tt s)

pub put-Keyed :
    {K V : Type 0} ⦃e : Comparable K⦄ (key : V → K) (k : K) (v : V) (m : GoMap K V)
    → k ≡ key v
    → Keyed key m
    → Keyed key (put k v m)
unfolding put
put-Keyed key k v [] p h = (p, tt)
put-Keyed ⦃e⦄ key k v ((i, w) ∷ m) p h = ground (arith, e.equal_iff i k, put-Keyed key k v m p h.1)

-- A map whose keys are distinct and are those of its values.
abbrev pub IsIndexed : {K V : Type 0} ⦃e : Comparable K⦄ → (V → K) → GoMap K V → Type 0
IsIndexed key m = Keyed key m × Distinct m

pub put-IsIndexed :
    {K V : Type 0} ⦃e : Comparable K⦄ (key : V → K) (k : K) (v : V) (m : GoMap K V)
    → k ≡ key v
    → IsIndexed key m
    → IsIndexed key (put k v m)
put-IsIndexed key k v m p h = (put-Keyed key k v m p h.0, put-Distinct k v m h.1)

pub if-IsIndexed :
    {K V : Type 0} ⦃e : Comparable K⦄ (key : V → K) (b : Bool) (m m' : GoMap K V)
    → IsIndexed key m
    → IsIndexed key m'
    → IsIndexed key (if b then m else m')
if-IsIndexed key true m m' h h' = h
if-IsIndexed key false m m' h h' = h'
