-- ===== src/BigInt/Tests.antt =====
-- Runs of the `BigInt` code at inputs of its tests, and the theorems at concrete numbers.
use ohos_rs.Common.{◌^◌, ◌≡◌, refl, Bool, true, false, some, [], ◌∷◌, arith}
use ohos_rs.Common.Int.{ℤ, pos, negsuc}
use ohos_rs.BigInt.{BigInt, eq, eq_from, get_i128, from_i64, from_i128}
use ohos_rs.BigInt.Value.{magnitude, signed}
use ohos_rs.BigInt.Signed.{IsExact}
use ohos_rs.BigInt.Wide.{get_i128-IsExact}

narrow_eq_wide : eq (from_i64 (negsuc 0)) (from_i128 (negsuc 0)) ≡ true
unfolding eq eq_from from_i64 from_i128
narrow_eq_wide = refl

opposite_signs_differ : eq (from_i64 (pos 1)) (from_i128 (negsuc 0)) ≡ false
unfolding eq eq_from from_i64 from_i128
opposite_signs_differ = refl

-- -5 with a zero word on top, -5, and a number of three words.
abbrev padded : BigInt
padded = record { sign_bit = true; words = 5 ∷ 0 ∷ [] }

abbrev minus_five : BigInt
minus_five = record { sign_bit = true; words = 5 ∷ [] }

abbrev large : BigInt
large = record { sign_bit = true; words = 7 ∷ 0 ∷ 1 ∷ [] }

get_i128-IsExact_example :
    (r : ℤ × Bool) × (get_i128 large ≡ some r)
    × IsExact (2 ^ 127) (signed true (magnitude large.words)) r
get_i128-IsExact_example = get_i128-IsExact large (omega arith) (omega arith) (omega arith)
