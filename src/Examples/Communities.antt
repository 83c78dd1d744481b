-- ===== src/Examples/Communities.antt =====
-- The allocation of a community beside an overlay that has one.
use pontifex.Base.{arith, ◌≤◌, ◌<◌, ◌^◌, ℕ, true, false, String, some, ◌≡◌, refl, comparable_string}
use pontifex.GoMap.{has, put}
use pontifex.Operator.Community.{community_of, first_free, used_by, scan}
use pontifex.Operator.Community.Fresh.{taken, first_free_least}
use pontifex.Operator.Community.Pool.{first_free_total}
use pontifex.Strconv.{decimal}
use pontifex.Examples.Snapshot.{snapshot}

pub first : first_free 65000 "ov2" snapshot ≡ some "65000:2"
unfolding first_free used_by scan has put decimal
first = refl

first_free_least_example :
    (n : ℕ) × ("65000:2" ≡ community_of 65000 n)
    × (1 ≤ n)
    × (n < 2 ^ 16)
    × (taken "ov2" "65000:2" snapshot ≡ false)
    × ((j : ℕ) → 1 ≤ j → j < n → taken "ov2" (community_of 65000 j) snapshot ≡ true)
first_free_least_example = first_free_least 65000 "ov2" snapshot "65000:2" first

first_free_total_example : (c : String) × (first_free 65000 "ov2" snapshot ≡ some c)
first_free_total_example = first_free_total 65000 "ov2" snapshot (omega arith)
