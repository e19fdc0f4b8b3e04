-- ===== src/Buffers.antt =====
-- Who frees the memory behind a typed array or a `Buffer`: `impl_typed_array` of
-- crates/napi/src/bindgen_runtime/js_values/arraybuffer.rs, and
-- crates/napi/src/bindgen_runtime/js_values/buffer.rs. Here are the values, `Drop`, and the garbage
-- collector of crates/napi/src/bindgen_runtime/module_register.rs for other threads.
pub mod Lengths
pub mod Owned
pub mod Borrowed
pub mod Reading
pub mod Buffer
pub mod Slice
mod Tests
use ohos_rs.Common.{
  ℕ, zero, suc, ◌+◌, if◌then◌else◌, Bool, true, false, Option, none, some, List, [], ◌∷◌, ◌++◌,
}
use ohos_rs.Status.{Status}

-- A pointer, a reference and an environment are numbers, and `none` when they are null.
pub record TypedArray : Type 0 where
  pub data_ptr : Option ℕ
  pub length : ℕ
  pub capacity : ℕ
  pub byte_offset : ℕ
  pub raw : Option (Option ℕ × Option ℕ)
  pub finalizer_notify : Option ℕ

-- `released` is `Vec::from_raw_parts`, `notified` the call of the finalizer of external data, `sent` a
-- reference for the garbage collector, `asserted` a panic with a status.
pub data Effect : Type 0 where
  released : ℕ → ℕ → ℕ → Effect
  notified : ℕ → Option ℕ → ℕ → Effect
  sent unreferenced deleted : ℕ → Effect
  threw asserted : Status → Effect

-- The thread that drops a value, and what the engine answers.
pub record Thread : Type 0 where
  pub gc_destroyed : Bool
  pub can_access_env : Bool
  pub gc_status : Status
  pub unref_status : Status
  pub delete_status : Status

unfoldable pub succeeded : Status → Bool
succeeded Status.ok = true
succeeded _ = false

unfoldable pub is_closing : Status → Bool
is_closing Status.closing = true
is_closing _ = false

unfoldable pub forbids_external : Status → Bool
forbids_external Status.no_external_buffers_allowed = true
forbids_external _ = false

-- `check_status_or_throw`.
unfoldable pub or_throw : Status → List Effect
unfolding succeeded
or_throw s = if succeeded s then [] else threw s ∷ []

-- `napi_reference_unref` and `napi_delete_reference`.
unfoldable pub delete_reference : Thread → ℕ → List Effect
unfolding or_throw
delete_reference thread ref =
    unreferenced ref
    ∷ (or_throw thread.unref_status ++ (deleted ref ∷ or_throw thread.delete_status))

unfoldable pub send_reference : Thread → ℕ → List Effect
unfolding succeeded is_closing
send_reference thread ref =
    if succeeded thread.gc_status
    then sent ref ∷ []
    else if is_closing thread.gc_status
    then []
    else asserted thread.gc_status ∷ []

unfoldable pub drop_reference : Thread → ℕ → List Effect
unfolding delete_reference send_reference
drop_reference thread ref =
    if thread.gc_destroyed
    then []
    else if thread.can_access_env
    then delete_reference thread ref
    else send_reference thread ref

unfoldable pub drop_data : TypedArray → List Effect
drop_data val = elim val.finalizer_notify [
  | some f ↦ notified f val.data_ptr val.length ∷ []
  | none ↦ elim val.data_ptr [ some d ↦ released d val.length val.capacity ∷ [] | none ↦ [] ]
]

unfoldable pub drop_typed_array : Thread → TypedArray → List Effect
unfolding drop_reference drop_data
drop_typed_array thread val = elim val.raw [
  | none ↦ drop_data val
  | some (some ref, some env) ↦ drop_reference thread ref
  | some (some ref, none) ↦ []
  | some (none, env) ↦ []
]

-- `custom_gc` on what was sent to it, on the thread of the environment.
unfoldable pub custom_gc : Thread → List Effect → List Effect
unfolding delete_reference
custom_gc thread [] = []
custom_gc thread (sent ref ∷ es) =
    let rest = custom_gc thread es in
    if thread.can_access_env then delete_reference thread ref ++ rest else rest
custom_gc thread (e ∷ es) = custom_gc thread es

-- The three constructors.
unfoldable pub new_typed_array : ℕ → ℕ → ℕ → TypedArray
new_typed_array d length capacity = record {
  data_ptr = some d;
  length = length;
  capacity = capacity;
  byte_offset = 0;
  raw = none;
  finalizer_notify = none;
}

unfoldable pub with_external_data : Option ℕ → ℕ → ℕ → TypedArray
with_external_data d length notify = record {
  data_ptr = d;
  length = length;
  capacity = length;
  byte_offset = 0;
  raw = none;
  finalizer_notify = some notify;
}

-- How often data was freed, by a release or by its finalizer.
unfoldable pub releases : List Effect → ℕ
releases [] = 0
releases (released d l c ∷ es) = suc (releases es)
releases (notified f d l ∷ es) = suc (releases es)
releases (_ ∷ es) = releases es

-- `finalizer`, for every boxed value that the engine holds.
unfoldable pub finalize_all : Thread → List TypedArray → List Effect
unfolding drop_typed_array
finalize_all thread [] = []
finalize_all thread (hint ∷ hints) = drop_typed_array thread hint ++ finalize_all thread hints

-- What the engine answers to the calls of a conversion, and the reference that it makes.
pub record Replies : Type 0 where
  pub reference_value : Status
  pub delete_reference_status : Status
  pub external : Status
  pub arraybuffer : Status
  pub typedarray : Status
  pub create_reference : Status
  pub reference : ℕ

-- The answer, what was done, the boxed values that the engine will finalize, and what is left of the
-- value.
pub record Conversion : Type 0 where
  pub answer : Status
  pub effects : List Effect
  pub hints : List TypedArray
  pub left : Option TypedArray

-- The rest of the value is dropped, and the engine finalizes.
unfoldable pub ending : Thread → Conversion → List Effect
unfolding drop_typed_array finalize_all
ending thread c =
    let after : List Effect = elim c.left [ none ↦ [] | some val ↦ drop_typed_array thread val ] in
    after ++ finalize_all thread c.hints

unfoldable pub in_the_end : Thread → Conversion → List Effect
unfolding ending
in_the_end thread c = c.effects ++ ending thread c
