-- ===== src/Agent/Routes/Tables.antt =====
-- apps/agent/internal/reconcilers/routes/internalnode.go: the routing table of an overlay.
use pontifex.Base.{
  ℕ, ◌+◌, ◌-◌, ◌%◌, ◌^◌, ◌<◌, ◌<>◌, String, List, Option, none, some, ◌≡◌, sym, ap, ◌∙◌, arith,
}
use pontifex.Strconv.{after_colon, parse_uint32, after_colon-decimal, parse_uint32-decimal, decimal}
use pontifex.Api.{NetworkOverlay}
use pontifex.Operator.Community.{community_of, first_free}
use pontifex.Operator.Community.Fresh.{first_free_least}

-- `vrfName`
abbrev pub vrf_name : String → String
vrf_name overlay_name = "pntfx-" <> overlay_name

-- `uint32(n) + 10000`
abbrev pub table_of_number : ℕ → ℕ
table_of_number n = (n + 10000) % 2 ^ 32

-- `vrfTableID`; `none` is an error.
unfoldable pub vrf_table_id : String → Option ℕ
vrf_table_id community = elim (after_colon community) [
  | none ↦ none
  | some field ↦ elim (parse_uint32 field) [ none ↦ none | some n ↦ some (table_of_number n) ]
]

pub vrf_table_id-community_of :
    (asn n : ℕ) → n < 2 ^ 16 → vrf_table_id (community_of asn n) ≡ some (10000 + n)
unfolding vrf_table_id
vrf_table_id-community_of asn n h =
    rw (after_colon-decimal asn (decimal n), vrf_table_id)
      (rw (parse_uint32-decimal n (omega arith), vrf_table_id) (ap some (omega arith)))

-- The table of a community that the operator has allocated, for whatever ASN, is between the
-- numbers that the system reserves and 75536.
pub allocated_table :
    (asn : ℕ) (current : String) (all : List NetworkOverlay) (c : String)
    → first_free asn current all ≡ some c
    → (t : ℕ) × (vrf_table_id c ≡ some t) × (10000 < t) × (t < 75536)
allocated_table asn current all c h =
    let (n, e, lo, hi, _, _) = first_free_least asn current all c h in
    (10000 + n, ap vrf_table_id e ∙ vrf_table_id-community_of asn n hi, omega arith, omega arith)

-- The table of a community that the operator has allocated gives the community back: it is 10000 and
-- the number that the operator has formatted into the community.
pub community_of-vrf_table_id :
    (asn : ℕ) (current : String) (all : List NetworkOverlay) (c : String) (t : ℕ)
    → first_free asn current all ≡ some c
    → vrf_table_id c ≡ some t
    → community_of asn (t - 10000) ≡ c
community_of-vrf_table_id asn current all c t h table =
    let (n, e, _, hi, _, _) = first_free_least asn current all c h in
    let eq : some t ≡ some (10000 + n) =
      sym table ∙ ap vrf_table_id e ∙ vrf_table_id-community_of asn n hi in
    ap (community_of asn) (ground arith) ∙ sym e

-- So two of an operator's communities share a routing table only if they are the same.
pub table_identifies_community :
    (asn : ℕ) (current current' : String) (all all' : List NetworkOverlay) (c c' : String)
    → first_free asn current all ≡ some c
    → first_free asn current' all' ≡ some c'
    → vrf_table_id c ≡ vrf_table_id c'
    → c ≡ c'
table_identifies_community asn current current' all all' c c' h h' same =
    let (t, e, _, _) = allocated_table asn current all c h in
    sym (community_of-vrf_table_id asn current all c t h e)
    ∙ community_of-vrf_table_id asn current' all' c' t h' (sym same ∙ e)
