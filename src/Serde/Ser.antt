-- ===== src/Serde/Ser.antt =====
-- The serializer of crates/napi/src/js_values/ser.rs: the value of the engine that a tree of calls
-- makes.
use ohos_rs.Common.{ℕ, zero, suc, ◌^◌, ltb, if◌then◌else◌, Option, none, some, List, [], ◌∷◌}
use ohos_rs.Common.Int.{ℤ, pos, abs}
use ohos_rs.Common.Text.{Text, text_eq}
use ohos_rs.BigInt.{i128_to_words, u128_to_words}
use ohos_rs.Serde.{
  Js, null, boolean, number, string, bigint, array, buffer, object, undefined, JsList, js_nil,
  js_cons, JsFields, js_empty, js_field, IntType, i8, i16, i32, i64, i128, u8, u16, u32, u64, u128,
  SerValue, bool, integer, float, char, str, bytes, absent, present, unit, unit_struct,
  unit_variant, newtype_struct, newtype_variant, seq, tuple, tuple_struct, tuple_variant, map,
  struct, struct_variant, SerValues, nil, cons, SerEntries, no_entries, entry, SerFields, no_fields,
  field, Engine,
}

-- An array that grows: a place that was not set is undefined.
unfoldable pub set_element : List Js → ℕ → Js → List Js
set_element [] zero v = v ∷ []
set_element [] (suc i) v = undefined ∷ set_element [] i v
set_element (x ∷ xs) zero v = v ∷ xs
set_element (x ∷ xs) (suc i) v = x ∷ set_element xs i v

unfoldable pub new_array : ℕ → List Js
new_array zero = []
new_array (suc n) = undefined ∷ new_array n

unfoldable pub to_list : List Js → JsList
to_list [] = js_nil
to_list (x ∷ xs) = js_cons x (to_list xs)

unfoldable pub set_property : List (Text × Js) → Text → Js → List (Text × Js)
unfolding text_eq
set_property [] k v = (k, v) ∷ []
set_property ((k', v') ∷ ps) k v =
    let rest = set_property ps k v in if text_eq k' k then (k, v) ∷ ps else (k', v') ∷ rest

unfoldable pub to_fields : List (Text × Js) → JsFields
to_fields [] = js_empty
to_fields ((k, v) ∷ ps) = js_field k v (to_fields ps)

abbrev pub one_property : Text → Js → Js
one_property k v = object (js_field k v js_empty)

unfoldable pub serialize_u64 : Engine → ℕ → Js
serialize_u64 engine v =
    if ltb v (2 ^ 32) then number (engine.create_number (pos v)) else bigint (pos v)

abbrev pub create_words : Engine → ℕ × List ℕ → Js
create_words engine (sign, words) = bigint (engine.create_bigint sign words)

-- The types of up to 32 bits are widened to an i32 or a u32 first, which keeps the number.
unfoldable pub serialize_integer : Engine → IntType → ℤ → Js
unfolding serialize_u64
serialize_integer engine i8 z = number (engine.create_number z)
serialize_integer engine i16 z = number (engine.create_number z)
serialize_integer engine i32 z = number (engine.create_number z)
serialize_integer engine i64 z = number (engine.create_number z)
serialize_integer engine u8 z = number (engine.create_number z)
serialize_integer engine u16 z = number (engine.create_number z)
serialize_integer engine u32 z = number (engine.create_number z)
serialize_integer engine u64 z = serialize_u64 engine (abs z)
serialize_integer engine u128 z = create_words engine (u128_to_words (abs z))
serialize_integer engine i128 z = create_words engine (i128_to_words z)

unfoldable pub count : SerValues → ℕ
count nil = 0
count (cons v vs) = suc (count vs)

-- `serialize_seq` with its hint.
unfoldable pub array_for : Option ℕ → List Js
unfolding new_array
array_for none = []
array_for (some n) = new_array n

-- A `serialize_element`, `serialize_field` or `serialize_entry` is one step of the last functions.
-- The object with the name of the variant is dropped in `tuple_variant` and `struct_variant`.
unfoldable mutual
  unfolding set_element to_list set_property to_fields serialize_integer count array_for new_array

  pub serialize : Engine → SerValue → Js
  serialize engine (bool b) = boolean b
  serialize engine (integer t z) = serialize_integer engine t z
  serialize engine (float d) = number d
  serialize engine (char c) = string (c ∷ [])
  serialize engine (str s) = string s
  serialize engine (bytes bs) = buffer bs
  serialize engine absent = null
  serialize engine (present v) = serialize engine v
  serialize engine unit = null
  serialize engine unit_struct = null
  serialize engine (unit_variant name) = string name
  serialize engine (newtype_struct v) = serialize engine v
  serialize engine (newtype_variant name v) = one_property name (serialize engine v)
  serialize engine (seq hint vs) = array (to_list (serialize_elements engine vs 0 (array_for hint)))
  serialize engine (tuple vs) =
      array (to_list (serialize_elements engine vs 0 (new_array (count vs))))
  serialize engine (tuple_struct vs) =
      array (to_list (serialize_elements engine vs 0 (new_array (count vs))))
  serialize engine (tuple_variant name vs) =
      array (to_list (serialize_elements engine vs 0 (new_array (count vs))))
  serialize engine (map es) = object (to_fields (serialize_entries engine es []))
  serialize engine (struct fs) = object (to_fields (serialize_fields engine fs []))
  serialize engine (struct_variant name fs) = object (to_fields (serialize_fields engine fs []))

  pub serialize_elements : Engine → SerValues → ℕ → List Js → List Js
  serialize_elements engine nil current_index elements = elements
  serialize_elements engine (cons v vs) current_index elements =
      serialize_elements engine vs (suc current_index)
        (set_element elements current_index (serialize engine v))

  pub serialize_entries : Engine → SerEntries → List (Text × Js) → List (Text × Js)
  serialize_entries engine no_entries obj = obj
  serialize_entries engine (entry k v es) obj =
      serialize_entries engine es
        (set_property obj (engine.property_key (serialize engine k)) (serialize engine v))

  pub serialize_fields : Engine → SerFields → List (Text × Js) → List (Text × Js)
  serialize_fields engine no_fields obj = obj
  serialize_fields engine (field k v fs) obj =
      serialize_fields engine fs (set_property obj k (serialize engine v))
