-- ===== src/Operator/Community.antt =====
-- apps/operator/internal/controller/networkoverlay_controller.go: the allocation of an overlay's
-- BGP community.
pub mod Fresh
pub mod Pool
use pontifex.Base.{
  ℕ, zero, suc, ◌+◌, ◌<>◌, String, Bool, not, ◌&&◌, ◌||◌, List, [], ◌∷◌, Option, none, some, ◌==◌,
  any, comparable_string, if◌then◌else◌,
}
use pontifex.GoMap.{GoSet, has, insert}
use pontifex.Strconv.{decimal}
use pontifex.Effects.{Error, other, Result, ok, err, Query}
use pontifex.Api.{NetworkOverlay}

-- `fmt.Sprintf("%d:%d", asn, n)`
abbrev pub community_of : ℕ → ℕ → String
community_of asn n = decimal asn <> ":" <> decimal n

-- The communities of the overlays other than `current`.
unfoldable pub used_by : String → List NetworkOverlay → GoSet String → GoSet String
used_by current [] used = used
used_by current (o ∷ os) used = used_by current os (
    if not (o.name == current) && not (o.status.community == "")
    then insert o.status.community used
    else used)

-- The rounds `n`, `n + 1`, … of the loop.
unfoldable pub scan : ℕ → GoSet String → ℕ → ℕ → Option String
scan asn used zero n = none
scan asn used (suc rounds) n =
    let rest = scan asn used rounds (n + 1) in
    if has (community_of asn n) used then rest else some (community_of asn n)

-- The loop runs for n from 1 to 2^16 - 1.
abbrev pub pool_size : ℕ
pool_size = 65535

unfoldable pub first_free : ℕ → String → List NetworkOverlay → Option String
unfolding scan used_by
first_free asn current all = scan asn (used_by current all []) pool_size 1

exhausted : ℕ → Option String → Result String
exhausted asn none = err (other ("BGP community pool exhausted for ASN " <> decimal asn))
exhausted asn (some c) = ok c

allocated : ℕ → String → Result (List NetworkOverlay) → Result String
unfolding exhausted
allocated asn current (err x) = err x
allocated asn current (ok all) = exhausted asn (first_free asn current all)

-- `allocateCommunity`, over the client's `List` of the overlays.
unfoldable pub allocate_community :
    {W : Type 0} → Query W (List NetworkOverlay) → ℕ → String → Query W String
unfolding allocated
allocate_community list asn current w = let (r, w') = list w in (allocated asn current r, w')
