-- ===== src/GoMap/Laws.antt =====
-- The laws of lookups after updates of a Go map.
use pontifex.Base.{
  true, false, [], ◌∷◌, ◌≡◌, refl, none, some, arith, Comparable, ◌==◌, is_some, if◌then◌else◌,
}
use pontifex.GoMap.{GoMap, get, has, put, delete, Distinct}

module _ {K V : Type 0} ⦃e : Comparable K⦄ where
  pub has-eq-is_some : (k : K) (m : GoMap K V) → has k m ≡ is_some (get k m)
  unfolding has get
  has-eq-is_some k [] = refl
  has-eq-is_some k ((j, v) ∷ m) = ground (arith, has-eq-is_some k m)

  pub get-put :
      (k j : K) (v : V) (m : GoMap K V) → get j (put k v m) ≡ (if k == j then some v else get j m)
  unfolding get put
  get-put k j v [] = refl
  get-put k j v ((i, w) ∷ m) =
      ground (arith, e.equal_iff k j, e.equal_iff i k, e.equal_iff i j, get-put k j v m)

  pub has-put :
      (k j : K) (v : V) (m : GoMap K V) → has j (put k v m) ≡ (if k == j then true else has j m)
  unfolding has put
  has-put k j v [] = refl
  has-put k j v ((i, w) ∷ m) =
      ground (arith, e.equal_iff k j, e.equal_iff i k, e.equal_iff i j, has-put k j v m)

  pub has-delete :
      (k j : K) (m : GoMap K V) → has j (delete k m) ≡ (if k == j then false else has j m)
  unfolding has delete
  has-delete k j [] = ground arith
  has-delete k j ((i, w) ∷ m) =
      ground (arith, e.equal_iff k j, e.equal_iff i k, e.equal_iff i j, has-delete k j m)

  pub get-delete :
      (k j : K) (m : GoMap K V) → get j (delete k m) ≡ (if k == j then none else get j m)
  unfolding get delete
  get-delete k j [] = ground arith
  get-delete k j ((i, w) ∷ m) =
      ground (arith, e.equal_iff k j, e.equal_iff i k, e.equal_iff i j, get-delete k j m)

  pub put-Distinct : (k : K) (v : V) (m : GoMap K V) → Distinct m → Distinct (put k v m)
  unfolding has put
  put-Distinct k v [] h = (refl, tt)
  put-Distinct k v ((i, w) ∷ m) h =
      ground (arith, e.equal_iff k i, e.equal_iff i k, has-put k i v m, put-Distinct k v m)

  pub delete-Distinct : (k : K) (m : GoMap K V) → Distinct m → Distinct (delete k m)
  unfolding delete
  delete-Distinct k [] h = h
  delete-Distinct k ((i, w) ∷ m) h = ground (arith, has-delete k i m, delete-Distinct k m)
