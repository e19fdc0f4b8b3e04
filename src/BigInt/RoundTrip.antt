-- ===== src/BigInt/RoundTrip.antt =====
-- The `From` conversions and the conversion to the engine, read back.
use ohos_rs.Common.{
  ◌↔◌, ℕ, zero, suc, get_or, ◌-◌, ◌<◌, ◌^◌, ◌≡◌, ◌≢◌, refl, Bool, true, some, List, [], ◌∷◌, arith,
  length, ◌==◌, not,
}
use ohos_rs.Common.Int.{ℤ, pos, negsuc, InRange}
use ohos_rs.BigInt.{
  BigInt, get_i64, get_i128, from_i64, from_i128, from_u128, i128_to_words, u128_to_words, to_words,
  from_reply, eq,
}
use ohos_rs.BigInt.Equality.{eq_of_digits}
use ohos_rs.BigInt.Value.{magnitude, signed, IsValid}

-- Every i64 comes back from `get_i64` whole and flagged as lossless.
pub get_i64-from_i64 : (v : ℤ) → InRange (2 ^ 63) v → get_i64 (from_i64 v) ≡ some (v, true)
unfolding get_i64 from_i64
get_i64-from_i64 (pos n) h = ground arith
get_i64-from_i64 (negsuc n) h = ground arith

-- Every i128 comes back from `get_i128` whole; it is flagged as lossless exactly when it is not the
-- least one.
pub get_i128-from_i128 :
    (v : ℤ)
    → InRange (2 ^ 127) v
    → (l : Bool) × (get_i128 (from_i128 v) ≡ some (v, l))
      × ((l ≡ true) ↔ (v ≢ negsuc (2 ^ 127 - 1)))
unfolding get_i128 from_i128
get_i128-from_i128 (pos n) h = (true, ground arith, ground arith)
get_i128-from_i128 (negsuc n) h = (not (n == 2 ^ 127 - 1), ground arith, ground arith)

-- The engine is given two words of 64 bits that stand for the magnitude of the number, and its sign;
-- zero goes out with the sign of a negative number.
pub i128_to_words_value :
    (v : ℤ)
    → InRange (2 ^ 127) v
    → let (sign, ws) = i128_to_words v in
      IsValid ws
      × (length ws ≡ 2)
      × (signed (sign == 1) (magnitude ws) ≡ v)
      × (v ≡ pos 0 → sign ≡ 1)
unfolding i128_to_words
i128_to_words_value (pos n) h = (ground arith, refl, ground arith, ground arith)
i128_to_words_value (negsuc n) h = (ground arith, refl, ground arith, ground arith)

-- A u128 goes out as two valid words that stand for it, with no sign, and so does the value that
-- `from_u128` makes of it.
pub u128_to_words_value :
    (v : ℕ)
    → v < 2 ^ 128
    → let (sign, ws) = u128_to_words v in
      (sign ≡ 0) × IsValid ws × (magnitude ws ≡ v) × (to_words (from_u128 v) ≡ u128_to_words v)
unfolding u128_to_words to_words from_u128
u128_to_words_value v h = (refl, ground arith, ground arith, refl)

same_digits : (ws : List ℕ) (sign j : ℕ) → get_or (from_reply sign ws).words j 0 ≡ get_or ws j 0
unfolding from_reply
same_digits [] sign zero = refl
same_digits [] sign (suc j) = refl
same_digits (w ∷ ws) sign j = refl

-- What is sent to the engine and comes back unchanged compares equal to what was sent.
pub eq-from_reply : (b : BigInt) → eq (from_reply (to_words b).0 (to_words b).1) b ≡ true
eq-from_reply b =
    eq_of_digits (from_reply (to_words b).0 (to_words b).1) b
      (unfold to_words in same_digits b.words (to_words b).0)
      (unfold to_words from_reply in ground arith)
