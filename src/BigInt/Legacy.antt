-- ===== src/BigInt/Legacy.antt =====
-- `JsBigInt` of crates/napi/src/js_values/bigint.rs, behind the words that the engine reports. Its
-- `get_i128` and `get_u128` return a flag for a loss, where `get_i64` passes on the engine's flag
-- for its absence.
use ohos_rs.Common.{
  ◌↔◌, ℕ, suc, ◌+◌, ◌*◌, ◌≤◌, ◌<◌, ◌^◌, ◌≡◌, ◌≢◌, refl, Bool, true, false, List, [], ◌∷◌, arith,
  length, get_or, ltb, ◌==◌, ◌||◌, if◌then◌else◌,
}
use ohos_rs.Common.Int.{ℤ, pos, negsuc, neg_ℕ}
use ohos_rs.BigInt.{as_i128}
use ohos_rs.BigInt.Value.{magnitude, signed, IsValid, IsTight}

-- The sixteen bytes of the first two words, as a u128: a missing word is zero.
abbrev low_part : List ℕ → ℕ
low_part ws = get_or ws 0 0 + get_or ws 1 0 * 2 ^ 64

-- `overflowing_neg` of an i128.
overflowing_neg : ℤ → ℤ × Bool
overflowing_neg (pos n) = (neg_ℕ n, false)
overflowing_neg (negsuc n) = if suc n == 2 ^ 127 then (negsuc n, true) else (pos (suc n), false)

pub js_get_i128 : Bool → List ℕ → ℤ × Bool
unfolding overflowing_neg
js_get_i128 signed ws =
    let val = as_i128 (low_part ws) in
    let (val', overflow) = (if signed then overflowing_neg val else (val, false)) in
    (val', overflow || ltb 2 (length ws))

pub js_get_u128 : Bool → List ℕ → Bool × ℕ × Bool
js_get_u128 signed ws = (signed, low_part ws, ltb 2 (length ws))

-- `get_u128` gives the sign; it reports a loss exactly when the magnitude is no u128, and the value
-- is the magnitude when it reports none.
pub js_get_u128_exact :
    (s : Bool) (ws : List ℕ)
    → IsValid ws
    → IsTight ws
    → let (sign, v, loss) = js_get_u128 s ws in
      (sign ≡ s) × ((loss ≡ true) ↔ (2 ^ 128 ≤ magnitude ws)) × (loss ≡ false → v ≡ magnitude ws)
unfolding js_get_u128
js_get_u128_exact s [] va t = elim t [ ]
js_get_u128_exact s (w ∷ []) va t = (refl, ground arith, ground arith)
js_get_u128_exact s (w ∷ v ∷ []) va t = (refl, ground arith, ground arith)
js_get_u128_exact s (w ∷ v ∷ u ∷ ws) va t = (refl, ground arith, ground arith)

-- Above 2 ^ 127, as long as two words hold the magnitude, `get_i128` reports no loss, and the value
-- that it gives is not the integer.
pub js_get_i128_silent_loss :
    (s : Bool) (w v : ℕ)
    → w < 2 ^ 64
    → v < 2 ^ 64
    → 2 ^ 127 < magnitude (w ∷ v ∷ [])
    → ((js_get_i128 s (w ∷ v ∷ [])).1 ≡ false)
      × ((js_get_i128 s (w ∷ v ∷ [])).0 ≢ signed s (magnitude (w ∷ v ∷ [])))
unfolding js_get_i128
js_get_i128_silent_loss true w v bw bv h = (ground arith, ground arith)
js_get_i128_silent_loss false w v bw bv h = (ground arith, ground arith)
