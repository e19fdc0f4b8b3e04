-- ===== src/Serde/RoundTrip.antt =====
-- What crates/napi/src/js_values/ser.rs writes, read by crates/napi/src/js_values/de.rs.
use ohos_rs.Common.{
  ℕ, ◌*◌, ◌^◌, ltb, false, ◌≤◌, ◌<◌, ◌≡◌, refl, ap, sym, ◌∙◌, subst, none, some, List, [], ◌∷◌,
  arith, ◌==◌,
}
use ohos_rs.Common.Int.{ℤ, pos, negsuc, abs, InRange}
use ohos_rs.Common.Text.{Text}
use ohos_rs.BigInt.{i128_to_words, u128_to_words}
use ohos_rs.BigInt.Value.{signed, magnitude, IsValid}
use ohos_rs.BigInt.RoundTrip.{i128_to_words_value, u128_to_words_value}
use ohos_rs.Serde.{
  Double, nan, infinite, neg_zero, fraction, Js, string, array, object, whole, number, bigint,
  IntType, i8, i16, i32, i64, i128, u8, u16, u32, u64, u128, SerValue, bool, integer, float, char,
  str, bytes, absent, present, unit, unit_struct, unit_variant, newtype_struct, newtype_variant,
  seq, tuple, tuple_struct, tuple_variant, map, struct, struct_variant, SerValues, nil, cons,
  SerEntries, no_entries, entry, SerFields, no_fields, field, visit_integer, visit_seq, visit_map,
  ContentFields, no_pairs, pair, done, and_then, Engine, IsDocumented,
}
use ohos_rs.Serde.Ser.{
  to_list, to_fields, count, serialize, serialize_entries, serialize_fields, serialize_integer,
  serialize_u64, create_words,
}
use ohos_rs.Serde.De.{
  near_whole, as_i64, deserialize_number, deserialize_any, deserialize_elements, deserialize_fields,
}
use ohos_rs.Serde.Expected.{
  Kept, FloatKept, expected_float, expected_integer, key_text, entry_names, InOrder, IsKept,
  AllKept, EntriesKept, FieldsKept, expected, expected_elements, expected_entries, expected_fields,
}
use ohos_rs.Serde.Integers.{kind, IsReadable, deserialize_bigint-IsReadable}
use ohos_rs.Serde.Elements.{
  all_serialized, serialize_elements-new_array, serialize_elements-array_for,
}
use ohos_rs.Serde.Fields.{
  keys, IsFresh, field_names, all_fields, serialize_fields-append, names_of-to_fields, all_done,
  pair_names, read_pairs-all_done,
}

deserialize_number-whole :
    (z : ℤ) → abs z ≤ 2 ^ 53 → deserialize_number (whole z) ≡ visit_integer i64 z
unfolding deserialize_number near_whole as_i64
deserialize_number-whole (pos n) h = ground arith
deserialize_number-whole (negsuc n) h = ground arith

ltb-of_le : (a b : ℕ) → a ≤ b → ltb b a ≡ false
ltb-of_le a b h = ground arith

deserialize_number-FloatKept : (d : Double) → FloatKept d → deserialize_number d ≡ expected_float d
unfolding deserialize_number near_whole as_i64
deserialize_number-FloatKept nan h = refl
deserialize_number-FloatKept (infinite s) h = refl
deserialize_number-FloatKept neg_zero h = refl
deserialize_number-FloatKept (whole (pos n)) h = ground arith
deserialize_number-FloatKept (whole (negsuc n)) h = ground arith
deserialize_number-FloatKept (fraction s i n e) h = rw (ltb-of_le (2 ^ e) (n * 2 ^ 52) h) refl

-- A map with such keys as a struct.
abbrev as_fields : SerEntries → SerFields
as_fields no_entries = no_fields
as_fields (entry k v es) = elim (key_text k) [
  | none ↦ no_fields
  | some s ↦ field s v (as_fields es)
]

as_fields-some :
    (k v : SerValue) (es : SerEntries) (s : Text)
    → key_text k ≡ some s
    → as_fields (entry k v es) ≡ field s v (as_fields es)
as_fields-some k v es s e =
    ap (λ o. elim o [ none ↦ no_fields | some t ↦ field t v (as_fields es) ]) e

expected_entries-some :
    (k v : SerValue) (es : SerEntries) (s : Text)
    → key_text k ≡ some s
    → expected_entries (entry k v es) ≡ pair s (expected v) (expected_entries es)
unfolding expected_entries
expected_entries-some k v es s e =
    ap (λ o. elim o [ none ↦ no_pairs | some t ↦ pair t (expected v) (expected_entries es) ]) e

field_names-as_fields : (es : SerEntries) → field_names (as_fields es) ≡ entry_names es
field_names-as_fields no_entries = refl
field_names-as_fields (entry key v es) = ground (arith, field_names-as_fields es)

pair_names-expected_entries : (es : SerEntries) → pair_names (expected_entries es) ≡ entry_names es
unfolding expected_entries
pair_names-expected_entries no_entries = refl
pair_names-expected_entries (entry key v es) = ground (arith, pair_names-expected_entries es)

module _ (engine : Engine) (doc : IsDocumented engine) where
  small_kept :
      (z : ℤ)
      → abs z ≤ 2 ^ 53
      → deserialize_any engine (number (engine.create_number z)) ≡ done (visit_integer i64 z)
  unfolding deserialize_any
  small_kept z h =
      ap (λ d. done (deserialize_number d)) (doc.exact z h) ∙ ap done (deserialize_number-whole z h)

  bigint_kept :
      (z : ℤ) → IsReadable z → deserialize_any engine (bigint z) ≡ done (visit_integer (kind z) z)
  unfolding deserialize_any
  bigint_kept z h = deserialize_bigint-IsReadable engine doc z h

  words_kept :
      (z : ℤ) (sign : ℕ) (ws : List ℕ)
      → IsValid ws
      → signed (sign == 1) (magnitude ws) ≡ z
      → IsReadable z
      → deserialize_any engine (create_words engine (sign, ws)) ≡ done (visit_integer (kind z) z)
  words_kept z sign ws v e h =
      ap (λ y. deserialize_any engine (bigint y)) (doc.created sign ws v ∙ e) ∙ bigint_kept z h

  i128_kept :
      (z : ℤ)
      → InRange (2 ^ 127) z
      → IsReadable z
      → deserialize_any engine (create_words engine (i128_to_words z))
        ≡ done (visit_integer (kind z) z)
  i128_kept z r h =
      let (valid, two, value, zero_sign) = i128_to_words_value z r in words_kept z _ _ valid value h

  u128_kept :
      (n : ℕ)
      → n < 2 ^ 128
      → deserialize_any engine (create_words engine (u128_to_words n))
        ≡ done (visit_integer (kind (pos n)) (pos n))
  u128_kept n h =
      let (positive, valid, value, same) = u128_to_words_value n h in
      words_kept (pos n) _ _ valid
        (ap (λ s. signed (s == 1) (magnitude (u128_to_words n).1)) positive ∙ ap pos value) h

  u64_kept :
      (n : ℕ)
      → n < 2 ^ 64
      → deserialize_any engine (serialize_u64 engine n) ≡ done (expected_integer u64 (pos n))
  unfolding serialize_u64
  u64_kept n h = ground (arith, small_kept (pos n), bigint_kept (pos n))

  integer-Kept :
      (t : IntType) (z : ℤ)
      → Kept t z
      → deserialize_any engine (serialize_integer engine t z) ≡ done (expected_integer t z)
  unfolding serialize_integer
  integer-Kept i8 z h = small_kept z h
  integer-Kept i16 z h = small_kept z h
  integer-Kept i32 z h = small_kept z h
  integer-Kept i64 z h = small_kept z h
  integer-Kept u8 z h = small_kept z h
  integer-Kept u16 z h = small_kept z h
  integer-Kept u32 z h = small_kept z h
  integer-Kept u64 (pos n) h = u64_kept n h
  integer-Kept u64 (negsuc n) h = absurd h
  integer-Kept u128 (pos n) h = u128_kept n h
  integer-Kept u128 (negsuc n) h = absurd h
  integer-Kept i128 (pos n) h = i128_kept (pos n) h (omega arith)
  integer-Kept i128 (negsuc n) h = i128_kept (negsuc n) (ground arith) h

  seq_kept :
      (vs : SerValues) (elements : List Js)
      → elements ≡ all_serialized engine vs
      → deserialize_elements engine (to_list (all_serialized engine vs))
        ≡ done (expected_elements vs)
      → deserialize_any engine (array (to_list elements)) ≡ done (visit_seq (expected_elements vs))
  unfolding deserialize_any and_then
  seq_kept vs elements e h = rw (e, h) refl

  -- An object whose properties are read as these pairs.
  object_kept :
      (ps : List (Text × Js)) (cs : ContentFields)
      → InOrder engine (pair_names cs)
      → keys ps ≡ pair_names cs
      → deserialize_fields engine (to_fields ps) ≡ all_done cs
      → deserialize_any engine (object (to_fields ps)) ≡ done (visit_map cs)
  unfolding deserialize_any and_then
  object_kept ps cs o n h =
      let same = ap engine.property_names (names_of-to_fields ps ∙ n) ∙ o.1 in
      rw (same, h, read_pairs-all_done cs o.0) refl

  serialize-key_text :
      (v : SerValue) (s : Text) → key_text v ≡ some s → serialize engine v ≡ string s
  unfolding serialize
  serialize-key_text (str t) s h = ground arith
  serialize-key_text (char c) s h = ground arith
  serialize-key_text (unit_variant name) s h = ground arith
  serialize-key_text _ s h = absurd (cc)

  serialize_entries-as_fields :
      (es : SerEntries) (obj : List (Text × Js))
      → EntriesKept engine es
      → serialize_entries engine es obj ≡ serialize_fields engine (as_fields es) obj
  unfolding serialize_entries serialize_fields EntriesKept
  serialize_entries-as_fields no_entries obj k = refl
  serialize_entries-as_fields (entry key v es) obj ((s, e), kv, ks) =
      let plain = ap engine.property_key (serialize-key_text key s e) ∙ doc.string_key s in
      rw (as_fields-some key v es s e, plain) (serialize_entries-as_fields es _ ks)

  serialize_entries-append :
      (es : SerEntries)
      → IsFresh [] (field_names (as_fields es))
      → EntriesKept engine es
      → serialize_entries engine es [] ≡ all_fields engine (as_fields es)
  serialize_entries-append es f k =
      serialize_entries-as_fields es [] k ∙ serialize_fields-append engine (as_fields es) [] f

  keys-as_fields :
      (es : SerEntries) → keys (all_fields engine (as_fields es)) ≡ pair_names (expected_entries es)
  unfolding expected_entries
  keys-as_fields no_entries = refl
  keys-as_fields (entry key v es) = ground (arith, keys-as_fields es)

  -- The same for an object that was written by steps.
  written_kept :
      (obj ps : List (Text × Js)) (cs : ContentFields)
      → obj ≡ ps
      → InOrder engine (pair_names cs)
      → keys ps ≡ pair_names cs
      → deserialize_fields engine (to_fields ps) ≡ all_done cs
      → deserialize_any engine (object (to_fields obj)) ≡ done (visit_map cs)
  written_kept obj ps cs e o n h = rw e (object_kept ps cs o n h)

  pair_names-expected_fields : (fs : SerFields) → pair_names (expected_fields fs) ≡ field_names fs
  unfolding expected
  pair_names-expected_fields no_fields = refl
  pair_names-expected_fields (field k v fs) = ap (λ l. k ∷ l) (pair_names-expected_fields fs)

  keys-all_fields : (fs : SerFields) → keys (all_fields engine fs) ≡ pair_names (expected_fields fs)
  unfolding expected
  keys-all_fields no_fields = refl
  keys-all_fields (field k v fs) = ap (λ l. k ∷ l) (keys-all_fields fs)

  mutual
    unfolding serialize deserialize_any deserialize_elements deserialize_fields serialize_entries
        IsKept expected and_then to_list to_fields

    value_kept :
        (v : SerValue)
        → IsKept engine v
        → deserialize_any engine (serialize engine v) ≡ done (expected v)
    value_kept (bool b) k = refl
    value_kept (integer t z) k = integer-Kept t z k
    value_kept (float d) k = ap done (deserialize_number-FloatKept d k)
    value_kept (char c) k = refl
    value_kept (str s) k = refl
    value_kept (bytes bs) k = refl
    value_kept absent k = refl
    value_kept (present v) k = value_kept v k
    value_kept unit k = refl
    value_kept unit_struct k = refl
    value_kept (unit_variant name) k = refl
    value_kept (newtype_struct v) k = value_kept v k
    value_kept (newtype_variant name v) k =
        let inner = value_kept v k.1 in
        object_kept ((name, serialize engine v) ∷ []) (pair name (expected v) no_pairs) k.0 refl
          (rw inner refl)
    value_kept (seq hint vs) k =
        seq_kept vs _ (serialize_elements-array_for engine vs hint k.0) (elements_kept vs k.1)
    value_kept (tuple vs) k =
        seq_kept vs _ (serialize_elements-new_array engine vs (count vs) (omega arith))
          (elements_kept vs k)
    value_kept (tuple_struct vs) k =
        seq_kept vs _ (serialize_elements-new_array engine vs (count vs) (omega arith))
          (elements_kept vs k)
    value_kept (tuple_variant name vs) k =
        seq_kept vs _ (serialize_elements-new_array engine vs (count vs) (omega arith))
          (elements_kept vs k)
    value_kept (map es) k =
        written_kept _ (all_fields engine (as_fields es)) (expected_entries es)
          (serialize_entries-append es (subst (IsFresh []) (sym (field_names-as_fields es)) k.0.0)
            k.1)
          (subst (InOrder engine) (sym (pair_names-expected_entries es)) k.0) (keys-as_fields es)
          (entries_kept es k.1)
    value_kept (struct fs) k =
        written_kept _ (all_fields engine fs) (expected_fields fs)
          (serialize_fields-append engine fs [] k.0.0)
          (subst (InOrder engine) (sym (pair_names-expected_fields fs)) k.0) (keys-all_fields fs)
          (fields_kept fs k.1)
    value_kept (struct_variant name fs) k =
        written_kept _ (all_fields engine fs) (expected_fields fs)
          (serialize_fields-append engine fs [] k.0.0)
          (subst (InOrder engine) (sym (pair_names-expected_fields fs)) k.0) (keys-all_fields fs)
          (fields_kept fs k.1)

    elements_kept :
        (vs : SerValues)
        → AllKept engine vs
        → deserialize_elements engine (to_list (all_serialized engine vs))
          ≡ done (expected_elements vs)
    elements_kept nil k = refl
    elements_kept (cons v vs) k =
        let head = value_kept v k.0 in let rest = elements_kept vs k.1 in rw (head, rest) refl

    fields_kept :
        (fs : SerFields)
        → FieldsKept engine fs
        → deserialize_fields engine (to_fields (all_fields engine fs))
          ≡ all_done (expected_fields fs)
    fields_kept no_fields k = refl
    fields_kept (field n v fs) k =
        let head = value_kept v k.0 in let rest = fields_kept fs k.1 in rw (head, rest) refl

    entries_kept :
        (es : SerEntries)
        → EntriesKept engine es
        → deserialize_fields engine (to_fields (all_fields engine (as_fields es)))
          ≡ all_done (expected_entries es)
    entries_kept no_entries k = refl
    entries_kept (entry key v es) k =
        let head = value_kept v k.1 in
        let rest = entries_kept es k.2 in
        let (s, e) = k.0 in
        rw (as_fields-some key v es s e, expected_entries-some key v es s e, head, rest) refl
