-- ===== src/Serde/Tests.antt =====
-- Runs of the serializer and the deserializer, and their theorems at concrete values.
use ohos_rs.Common.{
  ℕ, zero, suc, ◌/◌, ◌%◌, ◌^◌, ◌≤◌, ◌<◌, ◌==◌, ◌≡◌, refl, ltb, if◌then◌else◌, some, List, [], ◌∷◌,
  arith, Bool-cases, inl, inr,
}
use ohos_rs.Common.Int.{ℤ, pos, negsuc, abs, is_neg}
use ohos_rs.Common.Text.{Text, codes}
use ohos_rs.BigInt.{from_reply}
use ohos_rs.BigInt.Value.{IsValid, IsTight, magnitude, signed}
use ohos_rs.Serde.{
  Js, string, whole, u64, i128, i32, SerValue, integer, str, absent, present, unit_variant, seq,
  map, struct, SerValues, nil, cons, no_entries, entry, no_fields, field, done, visit_integer,
  Engine, IsDocumented, engine_words,
}
use ohos_rs.Serde.De.{deserialize_bigint}
use ohos_rs.Serde.Integers.{kind, deserialize_bigint-IsReadable}

-- An engine as it is documented. Its words, on fuel that the number bounds.
words_from : ℕ → ℕ → List ℕ
words_from zero n = n ∷ []
words_from (suc fuel) n =
    let rest = words_from fuel (n / 2 ^ 64) in
    if ltb n (2 ^ 64) then n ∷ [] else (n % 2 ^ 64) ∷ rest

IsTight-cons : (w : ℕ) (ws : List ℕ) → IsTight ws → 0 < magnitude ws → IsTight (w ∷ ws)
IsTight-cons w [] t h = absurd t
IsTight-cons w (v ∷ ws) t h = (h, t)

words_from_lem :
    (fuel n : ℕ)
    → n ≤ fuel
    → IsValid (words_from fuel n)
      × IsTight (words_from fuel n)
      × (magnitude (words_from fuel n) ≡ n)
unfolding words_from
words_from_lem zero n h = ((omega arith, tt), tt, omega arith)
words_from_lem (suc fuel) n h = elim (Bool-cases (ltb n (2 ^ 64))) [
  | inl small ↦ rw small ((ground arith, tt), tt, omega arith)
  | inr large ↦
      let (valid, tight, value) = words_from_lem fuel (n / 2 ^ 64) (ground arith) in
      rw large
        ((omega arith, valid), IsTight-cons (n % 2 ^ 64) _ tight (ground arith), ground arith)
]

abbrev key_of : Js → Text
key_of (string s) = s
key_of _ = []

abbrev node : Engine
node = record {
  create_number = whole;
  create_bigint = λ s ws. signed (s == 1) (magnitude ws);
  bigint_words = λ z. (if is_neg z then 1 else 0, words_from (abs z) (abs z));
  property_key = key_of;
  property_names = λ ks. ks;
}

from_reply-words : (s : ℕ) (ws : List ℕ) → IsTight ws → (from_reply s ws).words ≡ ws
unfolding from_reply
from_reply-words s [] t = absurd t
from_reply-words s (w ∷ ws) t = refl

node_words : (z : ℤ) → (engine_words node z).words ≡ words_from (abs z) (abs z)
node_words z = from_reply-words _ _ (words_from_lem (abs z) (abs z) (omega arith)).1

node_sign : (z : ℤ) → (engine_words node z).sign_bit ≡ is_neg z
unfolding from_reply
node_sign (pos n) = refl
node_sign (negsuc n) = refl

node-IsDocumented : IsDocumented node
node-IsDocumented = record {
  exact = λ z h. refl;
  created = λ s ws v. refl;
  valid = λ z. rw (node_words z) (words_from_lem (abs z) (abs z) (omega arith)).0;
  tight = λ z. rw (node_words z) (words_from_lem (abs z) (abs z) (omega arith)).1;
  sign = node_sign;
  read = λ z. rw (node_words z) (words_from_lem (abs z) (abs z) (omega arith)).2;
  string_key = λ s. refl;
}

-- A struct with an option, a list, a map and a number of each kind.
abbrev sample : SerValue
sample = struct (
    field (codes "id") (integer u64 (pos (2 ^ 40))) (
      field (codes "low") (integer i128 (negsuc (2 ^ 80))) (
        field (codes "n") (present (integer i32 (negsuc 6))) (
          field (codes "tags") (seq (some 1) (cons (str (codes "a")) (cons absent nil))) (
            field (codes "m") (map (entry (unit_variant (codes "k")) (str (codes "v")) no_entries))
              no_fields)))))

deserialize_bigint-IsReadable_example :
    deserialize_bigint (engine_words node (pos (2 ^ 70)))
    ≡ done (visit_integer (kind (pos (2 ^ 70))) (pos (2 ^ 70)))
deserialize_bigint-IsReadable_example =
    deserialize_bigint-IsReadable node node-IsDocumented (pos (2 ^ 70)) (omega arith)

abbrev one_value : SerValues
one_value = cons absent nil
