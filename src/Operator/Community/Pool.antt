-- ===== src/Operator/Community/Pool.antt =====
-- The pool is exhausted only when as many overlays as it has communities hold one.
use pontifex.Base.{
  ℕ, zero, suc, ◌+◌, ◌<◌, ◌≤◌, String, true, List, [], ◌∷◌, none, some, ◌≡◌, refl, ◌∙◌, arith,
  Bool-cases, Option-cases, inl, inr, length, Comparable, comparable_string,
}
use pontifex.GoMap.{GoMap, GoSet, has, put, delete}
use pontifex.GoMap.Laws.{has-delete}
use pontifex.Api.{NetworkOverlay}
use pontifex.Operator.Community.{community_of, used_by, scan, pool_size, first_free}
use pontifex.Operator.Community.Fresh.{community_of_inj}

module _ {K V : Type 0} ⦃e : Comparable K⦄ where
  length-delete-le : (k : K) (m : GoMap K V) → length (delete k m) ≤ length m
  unfolding delete
  length-delete-le k [] = omega arith
  length-delete-le k ((j, v) ∷ m) = ground (arith, length-delete-le k m)

  length-delete-lt : (k : K) (m : GoMap K V) → has k m ≡ true → length (delete k m) < length m
  unfolding delete has
  length-delete-lt k [] h = cc
  length-delete-lt k ((j, v) ∷ m) h = ground (arith, length-delete-lt k m, length-delete-le k m)

  length-put-le : (k : K) (v : V) (m : GoMap K V) → length (put k v m) ≤ suc (length m)
  unfolding put
  length-put-le k v [] = omega arith
  length-put-le k v ((j, w) ∷ m) = ground (arith, length-put-le k v m)

length-used_by-le :
    (current : String) (all : List NetworkOverlay) (used : GoSet String)
    → length (used_by current all used) ≤ length all + length used
unfolding used_by
length-used_by-le current [] used = omega arith
length-used_by-le current (o ∷ os) used = ground (
  arith,
  length-used_by-le current os (put o.status.community tt used),
  length-used_by-le current os used,
  length-put-le o.status.community tt used,
)

-- A community below `n` does not matter from round `n` on.
scan-delete :
    (asn i : ℕ) (used : GoSet String) (rounds n : ℕ)
    → i < n
    → scan asn (delete (community_of asn i) used) rounds n ≡ scan asn used rounds n
unfolding scan
scan-delete asn i used zero n h = refl
scan-delete asn i used (suc rounds) n h = ground (
  arith,
  scan-delete asn i used rounds (n + 1),
  has-delete (community_of asn i) (community_of asn n) used,
  comparable_string.equal_iff (community_of asn i) (community_of asn n),
  community_of_inj asn i n,
)

scan-none :
    (asn : ℕ) (used : GoSet String) (rounds n : ℕ)
    → scan asn used rounds n ≡ none
    → rounds ≤ length used
unfolding scan
scan-none asn used zero n h = omega arith
scan-none asn used (suc rounds) n h = elim (Bool-cases (has (community_of asn n) used)) [
  | inl p ↦
      let more : scan asn used rounds (n + 1) ≡ none = ground arith in
      omega (
        arith,
        scan-none asn (delete (community_of asn n) used) rounds (n + 1)
            (scan-delete asn n used rounds (n + 1) (omega arith) ∙ more),
        length-delete-lt (community_of asn n) used p,
      )
  | inr p ↦ ground arith
]

-- With fewer overlays than the pool has communities, there is a free one.
pub first_free_total :
    (asn : ℕ) (current : String) (all : List NetworkOverlay)
    → length all < pool_size
    → (c : String) × (first_free asn current all ≡ some c)
unfolding first_free
first_free_total asn current all h = elim (Option-cases (first_free asn current all)) [
  | inl e ↦ absurd (
      omega (
        arith,
        scan-none asn (used_by current all []) pool_size 1 e,
        length-used_by-le current all [],
      ))
  | inr found ↦ found
]
