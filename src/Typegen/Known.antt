-- ===== src/Typegen/Known.antt =====
-- The known types of crates/backend/src/typegen.rs and the primitive types of crates/backend/src/lib.rs:
-- a Rust type's TypeScript template, and whether that is a function or a union type. No name occurs
-- twice, so the first entry of a name is the one that a map holds.
use Prim.Native.String.{String}
use ohos_rs.Common.{ℕ, Bool, true, false, Option, none, some, List, [], ◌∷◌, ◌++◌, if◌then◌else◌}
use ohos_rs.Common.Text.{Text, codes, text_eq}

pub record Entry : Type 0 where
  pub name : Text
  pub template : Text
  pub is_fn : Bool
  pub is_union : Bool

abbrev pub entry : String → String → Bool → Bool → Entry
entry n t f u = record { name = codes n; template = codes t; is_fn = f; is_union = u }

-- `PRIMITIVE_TYPES`.
abbrev pub primitive_types : List Entry
primitive_types =
    entry "JsUndefined" "undefined" false false
    ∷ entry "()" "undefined" false false
    ∷ entry "Undefined" "undefined" false false
    ∷ entry "JsNumber" "number" false false
    ∷ entry "i8" "number" false false
    ∷ entry "i16" "number" false false
    ∷ entry "i32" "number" false false
    ∷ entry "i64" "number" false false
    ∷ entry "f32" "number" false false
    ∷ entry "f64" "number" false false
    ∷ entry "u8" "number" false false
    ∷ entry "u16" "number" false false
    ∷ entry "u32" "number" false false
    ∷ entry "Number" "number" false false
    ∷ entry "u64" "bigint" false false
    ∷ entry "i64n" "bigint" false false
    ∷ entry "u128" "bigint" false false
    ∷ entry "i128" "bigint" false false
    ∷ entry "usize" "bigint" false false
    ∷ entry "isize" "bigint" false false
    ∷ entry "JsBigInt" "bigint" false false
    ∷ entry "BigInt" "bigint" false false
    ∷ entry "JsBoolean" "boolean" false false
    ∷ entry "bool" "boolean" false false
    ∷ entry "JsString" "string" false false
    ∷ entry "String" "string" false false
    ∷ entry "RawCString" "string" false false
    ∷ entry "str" "string" false false
    ∷ entry "Latin1String" "string" false false
    ∷ entry "Utf16String" "string" false false
    ∷ entry "JsStringUtf8" "string" false false
    ∷ entry "JsStringUtf16" "string" false false
    ∷ entry "JsStringLatin1" "string" false false
    ∷ entry "char" "string" false false
    ∷ entry "Null" "null" false false
    ∷ entry "JsNull" "null" false false
    ∷ entry "null" "null" false false
    ∷ entry "Symbol" "symbol" false false
    ∷ entry "JsSymbol" "symbol" false false
    ∷ entry "SymbolRef" "symbol" false false
    ∷ entry "JsFunction" "(...args: any[]) => any" true false
    ∷ []

-- The `map.extend`s of `KNOWN_TYPES`.
abbrev pub other_types : List Entry
other_types =
    entry "JsObject" "object" false false
    ∷ entry "Object" "object" false false
    ∷ entry "ObjectRef" "object" false false
    ∷ entry "Array" "unknown[]" false false
    ∷ entry "Value" "any" false false
    ∷ entry "ClassInstance" "{}" false false
    ∷ entry "Map" "Record<string, any>" false false
    ∷ entry "HashMap" "Record<{}, {}>" false false
    ∷ entry "BTreeMap" "Record<{}, {}>" false false
    ∷ entry "IndexMap" "Record<{}, {}>" false false
    ∷ entry "HashSet" "Set<{}>" false false
    ∷ entry "BTreeSet" "Set<{}>" false false
    ∷ entry "IndexSet" "Set<{}>" false false
    ∷ entry "Vec" "Array<{}>" false false
    ∷ entry "ArrayBuffer" "ArrayBuffer" false false
    ∷ entry "JsArrayBuffer" "ArrayBuffer" false false
    ∷ entry "Int8Array" "Int8Array" false false
    ∷ entry "Int8ArraySlice" "Int8Array" false false
    ∷ entry "Uint8Array" "Uint8Array" false false
    ∷ entry "Uint8ArraySlice" "Uint8Array" false false
    ∷ entry "Uint8ClampedArray" "Uint8ClampedArray" false false
    ∷ entry "Uint8ClampedSlice" "Uint8ClampedArray" false false
    ∷ entry "Int16Array" "Int16Array" false false
    ∷ entry "Int16ArraySlice" "Int16Array" false false
    ∷ entry "Uint16Array" "Uint16Array" false false
    ∷ entry "Uint16ArraySlice" "Uint16Array" false false
    ∷ entry "Int32Array" "Int32Array" false false
    ∷ entry "Int32ArraySlice" "Int32Array" false false
    ∷ entry "Uint32Array" "Uint32Array" false false
    ∷ entry "Uint32ArraySlice" "Uint32Array" false false
    ∷ entry "Float32Array" "Float32Array" false false
    ∷ entry "Float32ArraySlice" "Float32Array" false false
    ∷ entry "Float64Array" "Float64Array" false false
    ∷ entry "Float64ArraySlice" "Float64Array" false false
    ∷ entry "BigInt64Array" "BigInt64Array" false false
    ∷ entry "BigInt64ArraySlice" "BigInt64Array" false false
    ∷ entry "BigUint64Array" "BigUint64Array" false false
    ∷ entry "BigUint64ArraySlice" "BigUint64Array" false false
    ∷ entry "DataView" "DataView" false false
    ∷ entry "DateTime" "Date" false false
    ∷ entry "NaiveDateTime" "Date" false false
    ∷ entry "Date" "Date" false false
    ∷ entry "JsDate" "Date" false false
    ∷ entry "JsBuffer" "Buffer" false false
    ∷ entry "BufferSlice" "Buffer" false false
    ∷ entry "Buffer" "Buffer" false false
    ∷ entry "Result" "Error | {}" false true
    ∷ entry "Error" "Error" false false
    ∷ entry "JsError" "Error" false false
    ∷ entry "JsTypeError" "TypeError" false false
    ∷ entry "JsRangeError" "RangeError" false false
    ∷ entry "Function" "({}) => {}" true false
    ∷ entry "FunctionRef" "({}) => {}" true false
    ∷ entry "ReadableStream" "ReadableStream<{}>" false false
    ∷ entry "WriteableStream" "WritableStream" false false
    ∷ entry "WritableStream" "WritableStream" false false
    ∷ entry "Either" "{} | {}" false true
    ∷ entry "Either3" "{} | {} | {}" false true
    ∷ entry "Either4" "{} | {} | {} | {}" false true
    ∷ entry "Either5" "{} | {} | {} | {} | {}" false true
    ∷ entry "Either6" "{} | {} | {} | {} | {} | {}" false true
    ∷ entry "Either7" "{} | {} | {} | {} | {} | {} | {}" false true
    ∷ entry "Either8" "{} | {} | {} | {} | {} | {} | {} | {}" false true
    ∷ entry "Either9" "{} | {} | {} | {} | {} | {} | {} | {} | {}" false true
    ∷ entry "Either10" "{} | {} | {} | {} | {} | {} | {} | {} | {} | {}" false true
    ∷ entry "Either11" "{} | {} | {} | {} | {} | {} | {} | {} | {} | {} | {}" false true
    ∷ entry "Either12" "{} | {} | {} | {} | {} | {} | {} | {} | {} | {} | {} | {}" false true
    ∷ entry "Either13" "{} | {} | {} | {} | {} | {} | {} | {} | {} | {} | {} | {} | {}" false true
    ∷ entry "Either14" "{} | {} | {} | {} | {} | {} | {} | {} | {} | {} | {} | {} | {} | {}" false
        true
    ∷ entry "Either15" "{} | {} | {} | {} | {} | {} | {} | {} | {} | {} | {} | {} | {} | {} | {}"
        false true
    ∷ entry "Either16"
        "{} | {} | {} | {} | {} | {} | {} | {} | {} | {} | {} | {} | {} | {} | {} | {}" false true
    ∷ entry "Either17"
        "{} | {} | {} | {} | {} | {} | {} | {} | {} | {} | {} | {} | {} | {} | {} | {} | {}" false
        true
    ∷ entry "Either18"
        "{} | {} | {} | {} | {} | {} | {} | {} | {} | {} | {} | {} | {} | {} | {} | {} | {} | {}"
        false true
    ∷ entry "Either19"
        "{} | {} | {} | {} | {} | {} | {} | {} | {} | {} | {} | {} | {} | {} | {} | {} | {} | {} | {}"
        false true
    ∷ entry "Either20"
        "{} | {} | {} | {} | {} | {} | {} | {} | {} | {} | {} | {} | {} | {} | {} | {} | {} | {} | {} | {}"
        false true
    ∷ entry "Either21"
        "{} | {} | {} | {} | {} | {} | {} | {} | {} | {} | {} | {} | {} | {} | {} | {} | {} | {} | {} | {} | {}"
        false true
    ∷ entry "Either22"
        "{} | {} | {} | {} | {} | {} | {} | {} | {} | {} | {} | {} | {} | {} | {} | {} | {} | {} | {} | {} | {} | {}"
        false true
    ∷ entry "Either23"
        "{} | {} | {} | {} | {} | {} | {} | {} | {} | {} | {} | {} | {} | {} | {} | {} | {} | {} | {} | {} | {} | {} | {}"
        false true
    ∷ entry "Either24"
        "{} | {} | {} | {} | {} | {} | {} | {} | {} | {} | {} | {} | {} | {} | {} | {} | {} | {} | {} | {} | {} | {} | {} | {}"
        false true
    ∷ entry "Either25"
        "{} | {} | {} | {} | {} | {} | {} | {} | {} | {} | {} | {} | {} | {} | {} | {} | {} | {} | {} | {} | {} | {} | {} | {} | {}"
        false true
    ∷ entry "Either26"
        "{} | {} | {} | {} | {} | {} | {} | {} | {} | {} | {} | {} | {} | {} | {} | {} | {} | {} | {} | {} | {} | {} | {} | {} | {} | {}"
        false true
    ∷ entry "Promise" "Promise<{}>" false false
    ∷ entry "PromiseRaw" "Promise<{}>" false false
    ∷ entry "AbortSignal" "AbortSignal" false false
    ∷ entry "JsGlobal" "typeof global" false false
    ∷ entry "JsExternal" "object" false false
    ∷ entry "external" "object" false false
    ∷ entry "External" "ExternalObject<{}>" false false
    ∷ entry "ExternalRef" "ExternalObject<{}>" false false
    ∷ entry "unknown" "unknown" false false
    ∷ entry "Unknown" "unknown" false false
    ∷ entry "UnknownRef" "unknown" false false
    ∷ entry "UnknownReturnValue" "unknown" false false
    ∷ entry "JsUnknown" "unknown" false false
    ∷ entry "This" "this" false false
    ∷ entry "Rc" "{}" false false
    ∷ entry "Arc" "{}" false false
    ∷ entry "Mutex" "{}" false false
    ∷ []

find_entry : Text → List Entry → Option Entry
unfolding text_eq
find_entry t [] = none
find_entry t (e ∷ es) = if text_eq e.name t then some e else find_entry t es

-- `KNOWN_TYPES.get(..)`.
unfoldable pub known_type : Text → Option Entry
unfolding find_entry
known_type t = find_entry t (primitive_types ++ other_types)

unfoldable pub is_ts_union_type : Text → Bool
unfolding known_type
is_ts_union_type t = elim (known_type t) [ none ↦ false | some e ↦ e.is_union ]

unfoldable pub is_known_fn : Text → Bool
unfolding known_type
is_known_fn t = elim (known_type t) [ none ↦ false | some e ↦ e.is_fn ]

-- `KNOWN_TYPES_IGNORE_ARG`.
unfoldable pub ignored_args : Text → Option (List ℕ)
unfolding text_eq
ignored_args t =
    if text_eq t (codes "HashMap")
    then some (2 ∷ [])
    else if text_eq t (codes "HashSet")
    then some (1 ∷ [])
    else if text_eq t (codes "IndexMap")
    then some (2 ∷ [])
    else if text_eq t (codes "IndexSet")
    then some (1 ∷ [])
    else none

-- `TYPEDARRAY_SLICE_TYPES.get(..)`.
unfoldable pub typedarray_slice : Text → Option Text
unfolding text_eq
typedarray_slice t =
    if text_eq t (codes "u8")
    then some (codes "Uint8Array")
    else if text_eq t (codes "i8")
    then some (codes "Int8Array")
    else if text_eq t (codes "u16")
    then some (codes "Uint16Array")
    else if text_eq t (codes "i16")
    then some (codes "Int16Array")
    else if text_eq t (codes "u32")
    then some (codes "Uint32Array")
    else if text_eq t (codes "i32")
    then some (codes "Int32Array")
    else if text_eq t (codes "f32")
    then some (codes "Float32Array")
    else if text_eq t (codes "f64")
    then some (codes "Float64Array")
    else if text_eq t (codes "u64")
    then some (codes "BigUint64Array")
    else if text_eq t (codes "i64")
    then some (codes "BigInt64Array")
    else none
