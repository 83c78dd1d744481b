-- ===== src/GoSort.antt =====
-- `sort.Slice` with the order of a string field. On elements with equal fields it may give any
-- order; the program sorts cluster nodes by their names, which are distinct.
use Prim.Native.String.compare
use Prim.Native.String.{compare}
use Prim.Native.Nat.{Ordering}
use mathlib.Core.List.Permᴰ
use pontifex.Base.{
  String, Bool, true, false, List, [], ◌∷◌, ◌≡◌, refl, sym, ◌∙◌, ◌⊎◌, arith, Permᴰ, All, Bool-cases,
  inl, inr, if◌then◌else◌, map, ap,
}

-- Go's `<` on strings.
abbrev pub less : String → String → Bool
less s t = elim (compare s t) [ Ordering.lt ↦ true | _ ↦ false ]

module _ {X : Type 0} (key : X → String) where
  unfoldable pub insert_by : X → List X → List X
  insert_by x [] = x ∷ []
  insert_by x (y ∷ ys) =
      let rest = insert_by x ys in if less (key y) (key x) then y ∷ rest else x ∷ y ∷ ys

  unfoldable pub sort_by : List X → List X
  unfolding insert_by
  sort_by [] = []
  sort_by (x ∷ xs) = insert_by x (sort_by xs)

eq-ne-lt : Ordering.eq ≡ Ordering.lt → ⊥
eq-ne-lt h = cc

gt-ne-lt : Ordering.gt ≡ Ordering.lt → ⊥
gt-ne-lt h = cc

compare_asym : (s t : String) → compare s t ≡ Ordering.lt → compare t s ≡ Ordering.gt
compare_asym String.[] String.[] h = absurd (eq-ne-lt (sym compare.nil-nil ∙ h))
compare_asym String.[] (String.◌∷◌ d t) h = compare.cons-nil d t
compare_asym (String.◌∷◌ c s) String.[] h = absurd (gt-ne-lt (sym (compare.cons-nil c s) ∙ h))
compare_asym (String.◌∷◌ c s) (String.◌∷◌ d t) h =
    let h' = sym (compare.cons-cons c d s t) ∙ h in
    compare.cons-cons d c t s ∙ ground (arith, h', compare_asym s t)

compare_trans :
    (s t u : String)
    → compare s u ≡ Ordering.lt
    → (compare s t ≡ Ordering.lt) ⊎ (compare t u ≡ Ordering.lt)
compare_trans String.[] t String.[] h = absurd (eq-ne-lt (sym compare.nil-nil ∙ h))
compare_trans (String.◌∷◌ c s) t String.[] h = absurd (gt-ne-lt (sym (compare.cons-nil c s) ∙ h))
compare_trans String.[] String.[] (String.◌∷◌ e u) h = inr h
compare_trans String.[] (String.◌∷◌ d t) (String.◌∷◌ e u) h = inl (compare.nil-cons d t)
compare_trans (String.◌∷◌ c s) String.[] (String.◌∷◌ e u) h = inr (compare.nil-cons e u)
compare_trans (String.◌∷◌ c s) (String.◌∷◌ d t) (String.◌∷◌ e u) h =
    let h' = sym (compare.cons-cons c e s u) ∙ h in
    ground (arith, h', compare.cons-cons c d s t, compare.cons-cons d e t u, compare_trans s t u)

less_asym : (s t : String) → less s t ≡ true → less t s ≡ false
less_asym s t h = ground (arith, compare_asym s t)

less_trans : (s t u : String) → less s t ≡ false → less t u ≡ false → less s u ≡ false
less_trans s t u h k = ground (arith, compare_trans s t u)

module _ {X : Type 0} (key : X → String) where
  -- No element stands before one with a smaller key.
  abbrev pub SortedBy : List X → Type 0
  SortedBy [] = Unit
  SortedBy (x ∷ xs) = All (λ y. less (key y) (key x) ≡ false) xs × SortedBy xs

  All-insert_by :
      (P : X → Type 0) (x : X) (ys : List X) → P x → All P ys → All P (insert_by key x ys)
  unfolding insert_by
  All-insert_by P x [] p h = (p, tt)
  All-insert_by P x (y ∷ ys) p h = elim (Bool-cases (less (key y) (key x))) [
    | inl q ↦ rw (q, insert_by) (h.0, All-insert_by P x ys p h.1)
    | inr q ↦ rw (q, insert_by) (p, h)
  ]

  All-less_trans :
      (x y : X) (zs : List X)
      → less (key y) (key x) ≡ false
      → All (λ z. less (key z) (key y) ≡ false) zs
      → All (λ z. less (key z) (key x) ≡ false) zs
  All-less_trans x y [] h a = tt
  All-less_trans x y (z ∷ zs) h a =
      (less_trans (key z) (key y) (key x) a.0 h, All-less_trans x y zs h a.1)

  insert_by-SortedBy : (x : X) (ys : List X) → SortedBy ys → SortedBy (insert_by key x ys)
  unfolding insert_by
  insert_by-SortedBy x [] d = (tt, tt)
  insert_by-SortedBy x (y ∷ ys) d = elim (Bool-cases (less (key y) (key x))) [
    | inl q ↦
        rw (q, insert_by)
          (All-insert_by _ x ys (less_asym (key y) (key x) q) d.0, insert_by-SortedBy x ys d.1)
    | inr q ↦ rw (q, insert_by) ((q, All-less_trans x y ys q d.0), d)
  ]

  pub sort_by-SortedBy : (xs : List X) → SortedBy (sort_by key xs)
  unfolding sort_by
  sort_by-SortedBy [] = tt
  sort_by-SortedBy (x ∷ xs) = insert_by-SortedBy x (sort_by key xs) (sort_by-SortedBy xs)

  insert_by-Permᴰ : (x : X) (ys : List X) → Permᴰ (x ∷ ys) (insert_by key x ys)
  unfolding insert_by
  insert_by-Permᴰ x [] = Permᴰ.refl _
  insert_by-Permᴰ x (y ∷ ys) = elim (Bool-cases (less (key y) (key x))) [
    | inl q ↦ rw q (Permᴰ.trans (Permᴰ.swap refl refl) (Permᴰ.cons refl (insert_by-Permᴰ x ys)))
    | inr q ↦ rw q (Permᴰ.refl _)
  ]

  pub sort_by-Permᴰ : (xs : List X) → Permᴰ xs (sort_by key xs)
  unfolding sort_by
  sort_by-Permᴰ [] = Permᴰ.nil
  sort_by-Permᴰ (x ∷ xs) =
      Permᴰ.trans (Permᴰ.cons refl (sort_by-Permᴰ xs)) (insert_by-Permᴰ x (sort_by key xs))

-- Sorting what `f` makes of elements, by a key that `f` keeps, is sorting the elements.
module _ {X Y : Type 0} (key : X → String) (key' : Y → String) (f : X → Y)
    (same : (x : X) → key' (f x) ≡ key x) where
  insert_by-map :
      (x : X) (ys : List X) → insert_by key' (f x) (map f ys) ≡ map f (insert_by key x ys)
  unfolding insert_by
  insert_by-map x [] = refl
  insert_by-map x (y ∷ ys) =
      rw (same x, same y)
        (elim (Bool-cases (less (key y) (key x))) [
          | inl q ↦ rw (q, insert_by) (ap (λ zs. f y ∷ zs) (insert_by-map x ys))
          | inr q ↦ rw (q, insert_by) refl
        ])

  pub sort_by-map : (xs : List X) → sort_by key' (map f xs) ≡ map f (sort_by key xs)
  unfolding sort_by
  sort_by-map [] = refl
  sort_by-map (x ∷ xs) =
      ap (insert_by key' (f x)) (sort_by-map xs) ∙ insert_by-map x (sort_by key xs)
