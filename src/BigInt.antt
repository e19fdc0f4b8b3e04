-- ===== src/BigInt.antt =====
-- `BigInt` of crates/napi/src/bindgen_runtime/js_values/bigint.rs: a sign and 64-bit words, lowest
-- word first. `none` is a panic: an index out of bounds, or the overflow check of `*`.
pub mod Value
pub mod Equality
pub mod Signed
pub mod Wide
pub mod RoundTrip
pub mod Legacy
mod Tests
use mathlib.Core.Option
use ohos_rs.Common.{
  ℕ, zero, suc, ◌+◌, ◌-◌, ◌*◌, ◌/◌, ◌%◌, ◌^◌, max, Bool, true, false, not, ◌&&◌, Option, none, some,
  List, [], ◌∷◌, length, get_elem?, get_or, ltb, ◌==◌, if◌then◌else◌, bool_eq,
}
use ohos_rs.Common.Int.{ℤ, pos, negsuc, neg_ℕ, abs, is_neg}

pub record BigInt : Type 0 where
  pub sign_bit : Bool
  pub words : List ℕ

-- The loop of `eq` over `0..max(..)`, with `rounds` rounds left at index `i`.
pub eq_from : ℕ → ℕ → BigInt → BigInt → Bool
eq_from zero i a b = bool_eq a.sign_bit b.sign_bit
eq_from (suc rounds) i a b =
    let rest = eq_from rounds (i + 1) a b in
    if get_or a.words i 0 == get_or b.words i 0 then rest else false

pub eq : BigInt → BigInt → Bool
eq a b = eq_from (max (length a.words) (length b.words)) 0 a b

-- `w as i64` and `v as i128`: the two's complement reading.
abbrev pub as_i64 : ℕ → ℤ
as_i64 w = if ltb w (2 ^ 63) then pos w else negsuc (2 ^ 64 - w - 1)

abbrev pub as_i128 : ℕ → ℤ
as_i128 v = if ltb v (2 ^ 127) then pos v else negsuc (2 ^ 128 - v - 1)

-- `x * if sign_bit { -1 } else { 1 }`, checked: the least value has no opposite.
pub times_sign : ℕ → Bool → ℤ → Option ℤ
times_sign half false x = some x
times_sign half true (pos n) = some (neg_ℕ n)
times_sign half true (negsuc n) = if suc n == half then none else some (pos (suc n))

pub get_u64 : BigInt → Option (Bool × ℕ × Bool)
get_u64 b =
    Option.map (λ w. (b.sign_bit, w, not b.sign_bit && length b.words == 1)) (get_elem? b.words 0)

i64_of_word : BigInt → ℕ → Option (ℤ × Bool)
unfolding times_sign
i64_of_word b w =
    if b.sign_bit && w == 2 ^ 63
    then some (negsuc (2 ^ 63 - 1), length b.words == 1)
    else Option.map (λ v. (v, length b.words == 1 && not (is_neg (as_i64 w))))
        (times_sign (2 ^ 63) b.sign_bit (as_i64 w))

pub get_i64 : BigInt → Option (ℤ × Bool)
unfolding i64_of_word
get_i64 b = elim (get_elem? b.words 0) [ none ↦ none | some w ↦ i64_of_word b w ]

-- The first two words as one number; either index may panic.
pub low_128 : List ℕ → Option ℕ
low_128 (w ∷ v ∷ _) = some (w + v * 2 ^ 64)
low_128 _ = none

i128_of_two : BigInt → ℕ → Option (ℤ × Bool)
unfolding times_sign
i128_of_two b v =
    if b.sign_bit && v == 2 ^ 127
    then some (negsuc (2 ^ 127 - 1), ltb 2 (length b.words))
    else Option.map (λ r. (r, length b.words == 2 && not (is_neg (as_i64 (get_or b.words 1 0)))))
        (times_sign (2 ^ 127) b.sign_bit (as_i128 v))

pub get_i128 : BigInt → Option (ℤ × Bool)
unfolding times_sign low_128 i128_of_two
get_i128 b =
    if length b.words == 1
    then Option.map (λ v. (v, true))
        (times_sign (2 ^ 127) b.sign_bit (as_i128 (get_or b.words 0 0)))
    else elim (low_128 b.words) [ none ↦ none | some v ↦ i128_of_two b v ]

pub get_u128 : BigInt → Option (Bool × ℕ × Bool)
unfolding low_128
get_u128 b =
    if length b.words == 1
    then some (b.sign_bit, get_or b.words 0 0, true)
    else Option.map (λ v. (b.sign_bit, v, length b.words == 2)) (low_128 b.words)

-- What `from_napi_value` makes of the engine's sign and words.
unfoldable pub from_reply : ℕ → List ℕ → BigInt
from_reply sign ws = record {
  sign_bit = sign == 1;
  words = elim ws [ [] ↦ 0 ∷ [] | w ∷ rest ↦ w ∷ rest ];
}

-- The `From` conversions; a negative number is an integer of the model.
pub from_i64 : ℤ → BigInt
from_i64 v = record { sign_bit = is_neg v; words = abs v ∷ [] }

pub from_u64 : ℕ → BigInt
from_u64 v = record { sign_bit = false; words = v ∷ [] }

pub from_i128 : ℤ → BigInt
from_i128 v = record { sign_bit = is_neg v; words = (abs v % 2 ^ 64) ∷ (abs v / 2 ^ 64) ∷ [] }

pub from_u128 : ℕ → BigInt
from_u128 v = record { sign_bit = false; words = (v % 2 ^ 64) ∷ (v / 2 ^ 64) ∷ [] }

-- What `to_napi_value` passes to `napi_create_bigint_words`: the sign and the words.
pub to_words : BigInt → ℕ × List ℕ
to_words b = (if b.sign_bit then 1 else 0, b.words)

-- The sign and the two words of `u128_with_sign_to_napi_value`, on either endianness.
pub u128_with_sign : ℕ → ℕ → ℕ × List ℕ
u128_with_sign v sign = (sign, (v % 2 ^ 64) ∷ (v / 2 ^ 64) ∷ [])

-- `to_napi_value` of an `i128`: the test is `val <= 0`.
pub i128_to_words : ℤ → ℕ × List ℕ
unfolding u128_with_sign
i128_to_words v = u128_with_sign (abs v) (if is_neg v then 1 else if abs v == 0 then 1 else 0)

pub u128_to_words : ℕ → ℕ × List ℕ
unfolding u128_with_sign
u128_to_words v = u128_with_sign v 0
