-- ===== src/GoMap/Last.antt =====
-- Loops that overwrite: the last value with a key wins.
use pontifex.Base.{List, [], ◌∷◌, ◌++◌, Option, some, ◌≡◌, refl, Comparable, ◌==◌, if◌then◌else◌}

-- The last of the values with the key `k`, and `old` if there is none.
abbrev pub find_last :
    {K V : Type 0} ⦃e : Comparable K⦄ → (V → K) → K → List V → Option V → Option V
find_last key k [] old = old
find_last key k (x ∷ xs) old = find_last key k xs (if key x == k then some x else old)

pub find_last-append :
    {K V : Type 0} ⦃e : Comparable K⦄ (key : V → K) (k : K) (xs ys : List V) (old : Option V)
    → find_last key k (xs ++ ys) old ≡ find_last key k ys (find_last key k xs old)
find_last-append key k [] ys old = refl
find_last-append key k (x ∷ xs) ys old = find_last-append key k xs ys _
