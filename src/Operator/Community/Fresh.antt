-- ===== src/Operator/Community/Fresh.antt =====
-- An allocated community is free, the first free one, and keeps communities unique.
use pontifex.Base.{
  ℕ, zero, suc, ◌+◌, ◌^◌, ◌<◌, ◌≤◌, ◌<>◌, String, Bool, true, false, not, ◌&&◌, ◌||◌, List, [], ◌∷◌,
  some, ◌≡◌, sym, ap, ◌∙◌, ◌==◌, any, arith, Bool-cases, inl, inr, comparable_string,
}
use native.Mathlib.Decide.{dec_lt}
use text.Mathlib.TextLemmas.{
  cons-ne-nil, cons-append, append_cancel_left, append-ne-nil_of_right_ne-nil,
}
use pontifex.GoMap.{GoSet, has}
use pontifex.GoMap.Laws.{has-put}
use pontifex.Strconv.{decimal, decimal_inj}
use pontifex.Api.{NetworkOverlay}
use pontifex.Operator.Community.{community_of, used_by, scan, pool_size, first_free}

-- An overlay other than `current` has the community `c`.
abbrev pub taken : String → String → List NetworkOverlay → Bool
taken current c all = any (λ o. not (o.name == current) && o.status.community == c) all

has-used_by :
    (current c : String) (all : List NetworkOverlay) (used : GoSet String)
    → (c == "") ≡ false
    → has c (used_by current all used) ≡ (has c used || taken current c all)
unfolding used_by
has-used_by current c [] used h = ground arith
has-used_by current c (o ∷ os) used h =
    has-used_by current c os _ h
    ∙ ground (
      arith,
      has-put o.status.community c tt used,
      comparable_string.equal_iff o.status.community c,
      comparable_string.equal_iff o.status.community "",
      comparable_string.equal_iff c "",
      h,
    )

pub community_of_inj : (asn m n : ℕ) → community_of asn m ≡ community_of asn n → m ≡ n
community_of_inj asn m n h =
    decimal_inj m n (append_cancel_left ":" _ _ (append_cancel_left (decimal asn) _ _ h))

pub scan_found :
    (asn : ℕ) (used : GoSet String) (rounds n : ℕ) (c : String)
    → scan asn used rounds n ≡ some c
    → (k : ℕ) × (c ≡ community_of asn k)
      × (n ≤ k)
      × (k < n + rounds)
      × (has c used ≡ false)
      × ((j : ℕ) → n ≤ j → j < k → has (community_of asn j) used ≡ true)
unfolding scan
scan_found asn used zero n c h = cc
scan_found asn used (suc rounds) n c h = elim (Bool-cases (has (community_of asn n) used)) [
  | inl p ↦
      let (k, e, lo, hi, free, below) = scan_found asn used rounds (n + 1) c (ground arith) in
      (
        k,
        e,
        omega arith,
        omega arith,
        free,
        λ j l u. elim (dec_lt n j) [
          | yes q ↦ below j (omega arith) u
          | no q ↦
              let same : n ≡ j = omega arith in
              ap (λ i. has (community_of asn i) used) (sym same) ∙ p
        ],
      )
  | inr p ↦
      let e : c ≡ community_of asn n = ground arith in
      (n, e, omega arith, omega arith, ap (λ d. has d used) e ∙ p, λ j l u. absurd (omega arith))
]

community_of-ne-nil : (asn n : ℕ) → (community_of asn n == "") ≡ false
community_of-ne-nil asn n = ground (
  arith,
  comparable_string.equal_iff (community_of asn n) "",
  append-ne-nil_of_right_ne-nil (decimal asn) {t = ":" <> decimal n}
      (λ e. cons-ne-nil ":" _ (sym (cons-append ":" "" (decimal n)) ∙ e)),
)

-- An allocated community is `<asn>:<n>` for the least `n` from 1 on that no other overlay has, and
-- that `n` fits in 16 bits.
pub first_free_least :
    (asn : ℕ) (current : String) (all : List NetworkOverlay) (c : String)
    → first_free asn current all ≡ some c
    → (n : ℕ) × (c ≡ community_of asn n)
      × (1 ≤ n)
      × (n < 2 ^ 16)
      × (taken current c all ≡ false)
      × ((j : ℕ) → 1 ≤ j → j < n → taken current (community_of asn j) all ≡ true)
unfolding first_free has
first_free_least asn current all c h =
    let used = used_by current all [] in
    let (n, e, lo, hi, free, below) = scan_found asn used pool_size 1 c h in
    let reads = λ (d : String) (ne : (d == "") ≡ false). has-used_by current d all [] ne in
    (
      n,
      e,
      lo,
      omega arith,
      sym (reads c (ap (λ d. d == "") e ∙ community_of-ne-nil asn n)) ∙ free,
      λ j l u. sym (reads (community_of asn j) (community_of-ne-nil asn j)) ∙ below j l u,
    )
