-- ===== src/Serde.antt =====
-- Values handed between serde and the engine: crates/napi/src/js_values/ser.rs and
-- crates/napi/src/js_values/de.rs, with the feature `napi6`. Here are the values on both sides.
pub mod Ser
pub mod De
pub mod Integers
pub mod Fields
pub mod Elements
pub mod Expected
pub mod RoundTrip
pub mod Variants
mod Tests
use ohos_rs.Common.{ℕ, ◌==◌, ◌^◌, ◌≤◌, ◌≡◌, Bool, Option, List, [], ◌∷◌}
use ohos_rs.Common.Int.{ℤ, abs, is_neg}
use ohos_rs.Common.Text.{Text}
use ohos_rs.Status.{Status}
use ohos_rs.BigInt.{BigInt, from_reply}
use ohos_rs.BigInt.Value.{IsValid, IsTight, magnitude, signed}

-- A number of 64 bits with a floating point: `whole` is a finite one without a fraction, `fraction`
-- the sign, the whole part and n / 2 ^ e behind the point, with 0 < n < 2 ^ e.
pub data Double : Type 0 where
  nan : Double
  infinite : Bool → Double
  neg_zero : Double
  whole : ℤ → Double
  fraction : Bool → ℕ → ℕ → ℕ → Double

-- The values of the engine. Of the typed arrays only those of bytes are here.
mutual
  pub data Js : Type 0 where
    undefined : Js
    null : Js
    boolean : Bool → Js
    number : Double → Js
    string : Text → Js
    bigint : ℤ → Js
    array : JsList → Js
    uint8_array : List ℕ → Js
    buffer : List ℕ → Js
    array_buffer : List ℕ → Js
    object : JsFields → Js
    function : Js
    external : Js
    symbol : Js

  pub data JsList : Type 0 where
    js_nil : JsList
    js_cons : Js → JsList → JsList

  pub data JsFields : Type 0 where
    js_empty : JsFields
    js_field : Text → Js → JsFields → JsFields

pub data IntType : Type 0 where
  i8 i16 i32 i64 i128 u8 u16 u32 u64 u128 : IntType

-- The calls that a `Serialize` makes, as a tree. A sequence comes with its length where that is known;
-- a `float` of 32 bits stands as the one of 64 bits with the same value.
mutual
  pub data SerValue : Type 0 where
    bool : Bool → SerValue
    integer : IntType → ℤ → SerValue
    float : Double → SerValue
    char : ℕ → SerValue
    str : Text → SerValue
    bytes : List ℕ → SerValue
    absent : SerValue
    present : SerValue → SerValue
    unit : SerValue
    unit_struct : SerValue
    unit_variant : Text → SerValue
    newtype_struct : SerValue → SerValue
    newtype_variant : Text → SerValue → SerValue
    seq : Option ℕ → SerValues → SerValue
    tuple : SerValues → SerValue
    tuple_struct : SerValues → SerValue
    tuple_variant : Text → SerValues → SerValue
    map : SerEntries → SerValue
    struct : SerFields → SerValue
    struct_variant : Text → SerFields → SerValue

  pub data SerValues : Type 0 where
    nil : SerValues
    cons : SerValue → SerValues → SerValues

  pub data SerEntries : Type 0 where
    no_entries : SerEntries
    entry : SerValue → SerValue → SerEntries → SerEntries

  pub data SerFields : Type 0 where
    no_fields : SerFields
    field : Text → SerValue → SerFields → SerFields

-- What a visitor is given that accepts everything and keeps it.
mutual
  pub data Content : Type 0 where
    visit_unit : Content
    visit_bool : Bool → Content
    visit_integer : IntType → ℤ → Content
    visit_float : Double → Content
    visit_str : Text → Content
    visit_bytes : List ℕ → Content
    visit_seq : Contents → Content
    visit_map : ContentFields → Content

  pub data Contents : Type 0 where
    no_elements : Contents
    element : Content → Contents → Contents

  pub data ContentFields : Type 0 where
    no_pairs : ContentFields
    pair : Text → Content → ContentFields → ContentFields

pub data Outcome (A : Type 0) : Type 0 where
  done : A → Outcome A
  failed : Status → Outcome A
  panicked : Outcome A

pub and_then : {A B : Type 0} → Outcome A → (A → Outcome B) → Outcome B
and_then (done a) f = f a
and_then (failed s) f = failed s
and_then panicked f = panicked

-- What the engine does with numbers, keys and names; its calls succeed.
pub record Engine : Type 0 where
  pub create_number : ℤ → Double
  pub create_bigint : ℕ → List ℕ → ℤ
  pub bigint_words : ℤ → ℕ × List ℕ
  pub property_key : Js → Text
  pub property_names : List Text → List Text

-- `BigInt::from_napi_value`.
abbrev pub engine_words : Engine → ℤ → BigInt
engine_words engine z = from_reply (engine.bigint_words z).0 (engine.bigint_words z).1

-- Its documentation: numbers up to 2 ^ 53 are exact, a bigint is made of its sign and words and gives
-- them back without leading zeros, and a string is its own key.
pub record IsDocumented (engine : Engine) : Type 0 where
  pub exact : (z : ℤ) → abs z ≤ 2 ^ 53 → engine.create_number z ≡ whole z
  pub created :
      (s : ℕ) (ws : List ℕ)
      → IsValid ws
      → engine.create_bigint s ws ≡ signed (s == 1) (magnitude ws)
  pub valid : (z : ℤ) → IsValid (engine_words engine z).words
  pub tight : (z : ℤ) → IsTight (engine_words engine z).words
  pub sign : (z : ℤ) → (engine_words engine z).sign_bit ≡ is_neg z
  pub read : (z : ℤ) → magnitude (engine_words engine z).words ≡ abs z
  pub string_key : (s : Text) → engine.property_key (string s) ≡ s
