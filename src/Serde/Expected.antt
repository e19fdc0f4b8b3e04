-- ===== src/Serde/Expected.antt =====
-- Which trees of calls of crates/napi/src/js_values/ser.rs come back, and as what, when
-- crates/napi/src/js_values/de.rs reads them for a visitor that accepts everything.
use ohos_rs.Common.{◌*◌, ◌^◌, ◌≤◌, ◌<◌, ◌≡◌, ltb, if◌then◌else◌, Option, none, some, List, [], ◌∷◌}
use ohos_rs.Common.Int.{ℤ, pos, negsuc, abs}
use ohos_rs.Common.Text.{Text}
use ohos_rs.Serde.{
  Double, nan, infinite, neg_zero, whole, fraction, IntType, i64, i128, u64, u128, SerValue, bool,
  integer, float, char, str, bytes, absent, present, unit, unit_struct, unit_variant,
  newtype_struct, newtype_variant, seq, tuple, tuple_struct, tuple_variant, map, struct,
  struct_variant, SerValues, nil, cons, SerEntries, no_entries, entry, SerFields, no_fields, field,
  Content, visit_unit, visit_bool, visit_integer, visit_float, visit_str, visit_bytes, visit_seq,
  visit_map, Contents, no_elements, element, ContentFields, no_pairs, pair, Engine,
}
use ohos_rs.Serde.Integers.{kind, IsReadable}
use ohos_rs.Serde.Elements.{IsHint}
use ohos_rs.Serde.Fields.{IsFresh, field_names}

-- The integers that come back: those that a double holds, and the bigints that are read.
abbrev pub Kept : IntType → ℤ → Type 0
Kept u64 (pos n) = n < 2 ^ 64
Kept u64 (negsuc n) = ⊥
Kept u128 (pos n) = n < 2 ^ 128
Kept u128 (negsuc n) = ⊥
Kept i128 (pos n) = n < 2 ^ 127
Kept i128 (negsuc n) = IsReadable (negsuc n)
Kept t z = abs z ≤ 2 ^ 53

-- The numbers with a floating point that come back: without a fraction they are those of an i64, and a
-- fraction is at least the epsilon 2 ^ -52.
abbrev pub FloatKept : Double → Type 0
FloatKept nan = Unit
FloatKept (infinite s) = Unit
FloatKept neg_zero = Unit
FloatKept (whole (pos n)) = n < 2 ^ 63
FloatKept (whole (negsuc n)) = n < 2 ^ 63
FloatKept (fraction s i n e) = 2 ^ e ≤ n * 2 ^ 52

-- Without a fraction they come as an integer, which has no -0.
abbrev pub expected_float : Double → Content
expected_float neg_zero = visit_integer i64 (pos 0)
expected_float (whole z) = visit_integer i64 z
expected_float d = visit_float d

abbrev pub expected_integer : IntType → ℤ → Content
expected_integer u64 z =
    if ltb (abs z) (2 ^ 32) then visit_integer i64 z else visit_integer (kind z) z
expected_integer u128 z = visit_integer (kind z) z
expected_integer i128 z = visit_integer (kind z) z
expected_integer t z = visit_integer i64 z

-- The text that a key is.
abbrev pub key_text : SerValue → Option Text
key_text (str s) = some s
key_text (char c) = some (c ∷ [])
key_text (unit_variant name) = some name
key_text _ = none

abbrev pub entry_names : SerEntries → List Text
entry_names no_entries = []
entry_names (entry k v es) = elim (key_text k) [ none ↦ [] | some s ↦ s ∷ entry_names es ]

-- The engine lists the names in the order in which they were set: none of them is an index.
abbrev pub InOrder : Engine → List Text → Type 0
InOrder engine ks = IsFresh [] ks × (engine.property_names ks ≡ ks)

unfoldable mutual
  pub IsKept : Engine → SerValue → Type 0
  IsKept engine (integer t z) = Kept t z
  IsKept engine (present v) = IsKept engine v
  IsKept engine (newtype_struct v) = IsKept engine v
  IsKept engine (newtype_variant name v) = InOrder engine (name ∷ []) × IsKept engine v
  IsKept engine (seq hint vs) = IsHint hint vs × AllKept engine vs
  IsKept engine (tuple vs) = AllKept engine vs
  IsKept engine (tuple_struct vs) = AllKept engine vs
  IsKept engine (tuple_variant name vs) = AllKept engine vs
  IsKept engine (map es) = InOrder engine (entry_names es) × EntriesKept engine es
  IsKept engine (struct fs) = InOrder engine (field_names fs) × FieldsKept engine fs
  IsKept engine (struct_variant name fs) = InOrder engine (field_names fs) × FieldsKept engine fs
  IsKept engine (bool b) = Unit
  IsKept engine (float d) = FloatKept d
  IsKept engine (char c) = Unit
  IsKept engine (str s) = Unit
  IsKept engine (bytes bs) = Unit
  IsKept engine absent = Unit
  IsKept engine unit = Unit
  IsKept engine unit_struct = Unit
  IsKept engine (unit_variant name) = Unit

  pub AllKept : Engine → SerValues → Type 0
  AllKept engine nil = Unit
  AllKept engine (cons v vs) = IsKept engine v × AllKept engine vs

  pub EntriesKept : Engine → SerEntries → Type 0
  EntriesKept engine no_entries = Unit
  EntriesKept engine (entry k v es) =
      ((s : Text) × (key_text k ≡ some s)) × IsKept engine v × EntriesKept engine es

  pub FieldsKept : Engine → SerFields → Type 0
  FieldsKept engine no_fields = Unit
  FieldsKept engine (field k v fs) = IsKept engine v × FieldsKept engine fs

-- What the visitor is given in the end: options and newtypes are seen through, and a variant is a
-- text, a map of one pair, or, with more than one field, without its name.
unfoldable mutual
  pub expected : SerValue → Content
  expected (bool b) = visit_bool b
  expected (integer t z) = expected_integer t z
  expected (float d) = expected_float d
  expected (char c) = visit_str (c ∷ [])
  expected (str s) = visit_str s
  expected (bytes bs) = visit_bytes bs
  expected absent = visit_unit
  expected (present v) = expected v
  expected unit = visit_unit
  expected unit_struct = visit_unit
  expected (unit_variant name) = visit_str name
  expected (newtype_struct v) = expected v
  expected (newtype_variant name v) = visit_map (pair name (expected v) no_pairs)
  expected (seq hint vs) = visit_seq (expected_elements vs)
  expected (tuple vs) = visit_seq (expected_elements vs)
  expected (tuple_struct vs) = visit_seq (expected_elements vs)
  expected (tuple_variant name vs) = visit_seq (expected_elements vs)
  expected (map es) = visit_map (expected_entries es)
  expected (struct fs) = visit_map (expected_fields fs)
  expected (struct_variant name fs) = visit_map (expected_fields fs)

  pub expected_elements : SerValues → Contents
  expected_elements nil = no_elements
  expected_elements (cons v vs) = element (expected v) (expected_elements vs)

  pub expected_entries : SerEntries → ContentFields
  expected_entries no_entries = no_pairs
  expected_entries (entry k v es) = elim (key_text k) [
    | none ↦ no_pairs
    | some s ↦ pair s (expected v) (expected_entries es)
  ]

  pub expected_fields : SerFields → ContentFields
  expected_fields no_fields = no_pairs
  expected_fields (field k v fs) = pair k (expected v) (expected_fields fs)
