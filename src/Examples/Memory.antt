-- ===== src/Examples/Memory.antt =====
-- A host that keeps items in a list, the newest first, and whose calls all succeed.
use pontifex.Base.{List, [], ◌∷◌, none, ◌≡◌, arith, Comparable, ◌==◌, if◌then◌else◌}
use pontifex.GoMap.{Runtime}
use pontifex.GoMap.Ranges.{find}
use mathlib.Core.List.Permᴰ

module _ {K X : Type 0} ⦃e : Comparable K⦄ (key : X → K) where
  unfoldable pub discard : K → List X → List X
  discard k [] = []
  discard k (x ∷ xs) = let rest = discard k xs in if key x == k then rest else x ∷ rest

  pub find-discard :
      (k j : K) (xs : List X) → find key j (discard k xs) ≡ (if k == j then none else find key j xs)
  unfolding find discard
  find-discard k j [] = ground arith
  find-discard k j (x ∷ xs) =
      ground
        (arith, e.equal_iff k j, e.equal_iff (key x) k, e.equal_iff (key x) j, find-discard k j xs)

-- Every loop over a map in the order in which the keys were first written.
abbrev pub first_written : Runtime
first_written = record { range = λ A n l. l; range-perm = λ A n l. Permᴰ.refl l }
