-- ===== src/Serde/De.antt =====
-- The deserializer of crates/napi/src/js_values/de.rs, for a visitor that keeps what it is given and
-- asks for everything inside by `deserialize_any`.
use mathlib.Core.Option
use ohos_rs.Common.{
  ℕ, zero, suc, ◌-◌, ◌*◌, ◌^◌, ltb, Bool, true, false, if◌then◌else◌, Option, none, some, List, [],
  ◌∷◌, length, zip,
}
use ohos_rs.Common.Int.{ℤ, pos, negsuc, neg_ℕ}
use ohos_rs.Common.Text.{Text, lookup_text, decimal}
use ohos_rs.Status.{Status}
use ohos_rs.BigInt.{BigInt, get_i64, get_u64, get_i128, get_u128}
use ohos_rs.Serde.{
  Double, nan, infinite, neg_zero, whole, fraction, Js, undefined, null, boolean, number, string,
  bigint, array, uint8_array, buffer, array_buffer, object, function, external, symbol, JsList,
  js_nil, js_cons, JsFields, js_empty, js_field, i64, i128, u64, u128, Content, visit_unit,
  visit_bool, visit_integer, visit_float, visit_str, visit_bytes, visit_seq, visit_map, Contents,
  no_elements, element, ContentFields, no_pairs, pair, Outcome, done, failed, panicked, and_then,
  Engine, engine_words,
}

-- `(js_number.trunc() - js_number).abs() < f64::EPSILON`.
unfoldable pub near_whole : Double → Bool
near_whole nan = false
near_whole (infinite s) = false
near_whole neg_zero = true
near_whole (whole z) = true
near_whole (fraction s i n e) = ltb (n * 2 ^ 52) (2 ^ e)

-- `js_number as i64`.
unfoldable pub as_i64 : Double → ℤ
as_i64 nan = pos 0
as_i64 (infinite false) = pos (2 ^ 63 - 1)
as_i64 (infinite true) = negsuc (2 ^ 63 - 1)
as_i64 neg_zero = pos 0
as_i64 (whole (pos n)) = if ltb n (2 ^ 63) then pos n else pos (2 ^ 63 - 1)
as_i64 (whole (negsuc n)) = if ltb n (2 ^ 63) then negsuc n else negsuc (2 ^ 63 - 1)
as_i64 (fraction s i n e) = if s then neg_ℕ i else pos i

unfoldable pub deserialize_number : Double → Content
unfolding near_whole as_i64
deserialize_number d = if near_whole d then visit_integer i64 (as_i64 d) else visit_float d

-- The value is in the first or the second place of what the conversion gives; an index out of bounds
-- is a panic.
unfoldable pub visit_first : Option (ℤ × Bool) → (ℤ → Content) → Outcome Content
visit_first none f = panicked
visit_first (some (v, lossless)) f = done (f v)

unfoldable pub visit_second : Option (Bool × ℕ × Bool) → (ℤ → Content) → Outcome Content
visit_second none f = panicked
visit_second (some (sign, v, lossless)) f = done (f (pos v))

unfoldable pub visit_bigint : Bool → Bool → BigInt → Outcome Content
unfolding visit_first visit_second
visit_bigint true true b = visit_first (get_i64 b) (visit_integer i64)
visit_bigint true false b = visit_first (get_i128 b) (visit_integer i128)
visit_bigint false true b = visit_second (get_u64 b) (visit_integer u64)
visit_bigint false false b = visit_second (get_u128 b) (visit_integer u128)

unfoldable pub deserialize_bigint : BigInt → Outcome Content
unfolding visit_bigint
deserialize_bigint b = visit_bigint b.sign_bit (ltb (length b.words) 2) b

-- `JsObjectAccess`: the names in their order, each with its value; the first failure is the result.
unfoldable pub read_pairs : List Text → List (Text × Outcome Content) → Outcome ContentFields
unfolding lookup_text
read_pairs [] fields = done no_pairs
read_pairs (k ∷ ks) fields =
    and_then (Option.get_or (lookup_text k fields) (done visit_unit))
      λ c. and_then (read_pairs ks fields) λ rest. done (pair k c rest)

unfoldable pub names_of : JsFields → List Text
names_of js_empty = []
names_of (js_field k v fs) = k ∷ names_of fs

-- `JsArrayAccess` reads the elements from the first to the last.
unfoldable mutual
  unfolding deserialize_number deserialize_bigint read_pairs names_of and_then

  pub deserialize_any : Engine → Js → Outcome Content
  deserialize_any engine undefined = done visit_unit
  deserialize_any engine null = done visit_unit
  deserialize_any engine (boolean b) = done (visit_bool b)
  deserialize_any engine (number d) = done (deserialize_number d)
  deserialize_any engine (string s) = done (visit_str s)
  deserialize_any engine (bigint z) = deserialize_bigint (engine_words engine z)
  deserialize_any engine (array xs) =
      and_then (deserialize_elements engine xs) λ cs. done (visit_seq cs)
  deserialize_any engine (uint8_array bs) = done (visit_bytes bs)
  deserialize_any engine (buffer bs) = done (visit_bytes bs)
  deserialize_any engine (array_buffer bs) = done (visit_bytes bs)
  deserialize_any engine (object fs) =
      and_then (read_pairs (engine.property_names (names_of fs)) (deserialize_fields engine fs))
        λ ps. done (visit_map ps)
  deserialize_any engine function = failed Status.invalid_arg
  deserialize_any engine external = failed Status.invalid_arg
  deserialize_any engine symbol = failed Status.invalid_arg

  pub deserialize_elements : Engine → JsList → Outcome Contents
  deserialize_elements engine js_nil = done no_elements
  deserialize_elements engine (js_cons x xs) =
      and_then (deserialize_any engine x)
        λ c. and_then (deserialize_elements engine xs) λ cs. done (element c cs)

  pub deserialize_fields : Engine → JsFields → List (Text × Outcome Content)
  deserialize_fields engine js_empty = []
  deserialize_fields engine (js_field k x fs) =
      (k, deserialize_any engine x) ∷ deserialize_fields engine fs

-- `visit_none` is `none`.
unfoldable pub deserialize_option : Engine → Js → Outcome (Option Content)
unfolding deserialize_any and_then
deserialize_option engine undefined = done none
deserialize_option engine null = done none
deserialize_option engine x = and_then (deserialize_any engine x) λ c. done (some c)

unfoldable pub indices_from : ℕ → ℕ → List Text
unfolding decimal
indices_from zero i = []
indices_from (suc n) i = decimal i ∷ indices_from n (suc i)

unfoldable pub list_values : JsList → List Js
list_values js_nil = []
list_values (js_cons x xs) = x ∷ list_values xs

unfoldable pub field_values : JsFields → List (Text × Js)
field_values js_empty = []
field_values (js_field k x fs) = (k, x) ∷ field_values fs

unfoldable pub number_values : List ℕ → List Js
number_values [] = []
number_values (b ∷ bs) = number (whole (pos b)) ∷ number_values bs

abbrev indexed : List Js → List (Text × Js)
indexed xs = zip (indices_from (length xs) 0) xs

-- The enumerable properties of an object, an array's being its indices.
unfoldable pub properties : Js → Option (List (Text × Js))
unfolding list_values field_values number_values indices_from
properties (array xs) = some (indexed (list_values xs))
properties (uint8_array bs) = some (indexed (number_values bs))
properties (buffer bs) = some (indexed (number_values bs))
properties (array_buffer bs) = some []
properties (object fs) = some (field_values fs)
properties x = none

-- The variant and the value that `JsEnumAccess` is made of.
unfoldable pub single_property : Option (List (Text × Js)) → Outcome (Text × Option Js)
single_property none = failed Status.invalid_arg
single_property (some []) = failed Status.invalid_arg
single_property (some ((k, v) ∷ [])) = done (k, some v)
single_property (some (p ∷ q ∷ ps)) = failed Status.invalid_arg

unfoldable pub deserialize_enum : Js → Outcome (Text × Option Js)
unfolding single_property properties
deserialize_enum (string s) = done (s, none)
deserialize_enum x = single_property (properties x)
