-- ===== src/Buffers/Borrowed.antt =====
-- `to_napi_value` of a typed array that Rust keeps, `&mut`: `impl_typed_array` of
-- crates/napi/src/bindgen_runtime/js_values/arraybuffer.rs.
use ohos_rs.Common.{
  ℕ, ◌+◌, ◌==◌, if◌then◌else◌, not, ◌&&◌, Option, none, some, [], ◌∷◌, ◌++◌, ◌≡◌, refl, arith,
  Bool-cases, inl, inr,
}
use ohos_rs.Status.{Status}
use ohos_rs.Buffers.{
  TypedArray, deleted, Thread, succeeded, forbids_external, drop_typed_array, drop_reference,
  drop_data, releases, or_throw, delete_reference, send_reference, Replies, Conversion, ending,
  in_the_end,
}
use ohos_rs.Buffers.Owned.{
  finish, IsOwned, drop_typed_array-owned, finish-releases, hint-releases, releases-append,
}

-- The value without its data.
abbrev pub without_data : TypedArray → TypedArray
without_data val = record val { data_ptr = none; length = 0; capacity = 0; finalizer_notify = none }

-- The end: the value takes the reference, and what was copied takes it without an environment.
unfoldable pub keep_reference : ℕ → Replies → TypedArray → Conversion
keep_reference env replies val =
    finish Status.ok [] (record val { raw = some (some replies.reference, some env) })

unfoldable pub share_reference : ℕ → Replies → TypedArray → Conversion
share_reference env replies val = record {
  answer = Status.ok;
  effects = [];
  hints = record val { raw = some (some replies.reference, none) } ∷ [];
  left = some (record (without_data val) { raw = some (some replies.reference, some env) });
}

-- From `napi_create_typedarray` on, where nothing was copied, or `copied_val` is held by the engine.
unfoldable pub view_kept : ℕ → Replies → TypedArray → Conversion
unfolding succeeded keep_reference
view_kept env replies val =
    if not (succeeded replies.typedarray)
    then finish replies.typedarray [] val
    else if not (succeeded replies.create_reference)
    then finish replies.create_reference [] val
    else keep_reference env replies val

unfoldable pub view_shared : ℕ → Replies → TypedArray → Conversion
unfolding succeeded share_reference
view_shared env replies val =
    if not (succeeded replies.typedarray)
    then finish replies.typedarray (val ∷ []) val
    else if not (succeeded replies.create_reference)
    then finish replies.create_reference (val ∷ []) val
    else share_reference env replies val

-- The box was reclaimed: it owns the data and is dropped at the end of its block, also on an error.
unfoldable pub drop_box : Thread → TypedArray → Conversion → Conversion
unfolding drop_typed_array
drop_box thread hint c = record c { effects = drop_typed_array thread hint ++ c.effects }

unfoldable pub lend_data : ℕ → Thread → Replies → TypedArray → Conversion
unfolding succeeded forbids_external view_kept view_shared drop_box
lend_data env thread replies val =
    if val.length == 0
    then (if succeeded replies.arraybuffer
        then view_kept env replies val
        else finish replies.arraybuffer [] val)
    else if forbids_external replies.external
    then drop_box thread val (
        if succeeded replies.arraybuffer
        then view_kept env replies (without_data val)
        else finish replies.arraybuffer [] (without_data val))
    else if succeeded replies.external
    then view_shared env replies val
    else finish replies.external [] val

unfoldable pub to_napi_value_mut : ℕ → Thread → Replies → TypedArray → Conversion
unfolding lend_data succeeded
to_napi_value_mut env thread replies val = elim val.raw [
  | some (ref, owner) ↦
      if succeeded replies.reference_value
      then finish Status.ok [] val
      else finish replies.reference_value [] val
  | none ↦ lend_data env thread replies val
]

-- The engine has the data of its own, and the rest of the conversion fails, or does not.
abbrev pub lent_releases : Replies → TypedArray → ℕ
lent_releases replies val =
    let viewed = succeeded replies.typedarray && succeeded replies.create_reference in
    if val.length == 0
    then (if succeeded replies.arraybuffer && viewed then 0 else 1)
    else if forbids_external replies.external
    then 1
    else if succeeded replies.external
    then (if viewed then 0 else 2)
    else 1

or_throw-releases : (s : Status) → releases (or_throw s) ≡ 0
unfolding or_throw releases
or_throw-releases s = ground arith

delete_reference-releases : (thread : Thread) (ref : ℕ) → releases (delete_reference thread ref) ≡ 0
unfolding delete_reference releases
delete_reference-releases thread ref = omega (
  arith,
  releases-append (or_throw thread.unref_status) (deleted ref ∷ or_throw thread.delete_status),
  or_throw-releases thread.unref_status,
  or_throw-releases thread.delete_status,
)

drop_reference-releases : (thread : Thread) (ref : ℕ) → releases (drop_reference thread ref) ≡ 0
unfolding drop_reference send_reference releases
drop_reference-releases thread ref = ground (arith, delete_reference-releases thread ref)

drop_typed_array-referenced :
    (thread : Thread) (val : TypedArray) (ref : ℕ) (env : Option ℕ)
    → releases (drop_typed_array thread (record val { raw = some (some ref, env) })) ≡ 0
unfolding drop_typed_array releases
drop_typed_array-referenced thread val ref none = refl
drop_typed_array-referenced thread val ref (some env) = drop_reference-releases thread ref

drop_typed_array-without_data :
    (thread : Thread) (val : TypedArray)
    → val.raw ≡ none
    → releases (drop_typed_array thread (without_data val)) ≡ 0
unfolding drop_typed_array drop_data releases
drop_typed_array-without_data thread val h = ground arith

module _ (thread : Thread) (replies : Replies) (env : ℕ) (val : TypedArray) where
  view_kept-releases : releases (in_the_end thread (view_kept env replies val)) ≡ (
      if succeeded replies.typedarray && succeeded replies.create_reference
      then 0
      else releases (drop_typed_array thread val))
  unfolding view_kept keep_reference
  view_kept-releases = ground (
    arith,
    finish-releases thread replies.typedarray val,
    finish-releases thread replies.create_reference val,
    finish-releases thread Status.ok (record val { raw = some (some replies.reference, some env) }),
    drop_typed_array-referenced thread val replies.reference (some env),
  )

  view_shared-releases :
      IsOwned val
      → releases (in_the_end thread (view_shared env replies val))
        ≡ (if succeeded replies.typedarray && succeeded replies.create_reference then 0 else 2)
  unfolding view_shared share_reference
  view_shared-releases h = ground (
    arith,
    hint-releases thread replies.typedarray val (some val),
    hint-releases thread replies.create_reference val (some val),
    hint-releases thread Status.ok (record val { raw = some (some replies.reference, none) })
        (some (record (without_data val) { raw = some (some replies.reference, some env) })),
    drop_typed_array-referenced thread (without_data val) replies.reference (some env),
    drop_typed_array-referenced thread val replies.reference none,
    drop_typed_array-owned thread val,
  )

drop_box-releases :
    (thread : Thread) (hint : TypedArray) (c : Conversion)
    → releases (in_the_end thread (drop_box thread hint c))
      ≡ releases (drop_typed_array thread hint) + releases (in_the_end thread c)
unfolding drop_box in_the_end ending
drop_box-releases thread hint c = omega (
  arith,
  releases-append (drop_typed_array thread hint ++ c.effects) (ending thread c),
  releases-append (drop_typed_array thread hint) c.effects,
  releases-append c.effects (ending thread c),
)

module _ (thread : Thread) (replies : Replies) (env : ℕ) (val : TypedArray) where
  emptied-releases :
      val.raw ≡ none
      → releases (
          in_the_end thread (
            if succeeded replies.arraybuffer
            then view_kept env replies (without_data val)
            else finish replies.arraybuffer [] (without_data val)))
        ≡ 0
  emptied-releases h = ground (
    arith,
    view_kept-releases thread replies env (without_data val),
    finish-releases thread replies.arraybuffer (without_data val),
    drop_typed_array-without_data thread val,
  )

  lend_data-releases :
      IsOwned val
      → releases (in_the_end thread (lend_data env thread replies val)) ≡ lent_releases replies val
  unfolding lend_data
  lend_data-releases h = elim (Bool-cases (val.length == 0)) [
    | inl e ↦ rw e (
        ground (
          arith,
          drop_typed_array-owned thread val,
          finish-releases thread replies.arraybuffer val,
          view_kept-releases thread replies env val,
        ))
    | inr e ↦ rw e (
        ground (
          arith,
          drop_typed_array-owned thread val,
          finish-releases thread replies.external val,
          view_shared-releases thread replies env val,
          emptied-releases h.0,
          drop_box-releases thread val (
              if succeeded replies.arraybuffer
              then view_kept env replies (without_data val)
              else finish replies.arraybuffer [] (without_data val)),
        ))
  ]

-- The data of a value that Rust keeps is freed once when the engine copies it, and when it refuses the
-- external buffer. Where the engine takes the data as it is, it is never freed if all calls succeed,
-- and freed twice if a later call fails. Without elements it is not freed if all calls succeed.
pub to_napi_value_mut-releases :
    (env : ℕ) (thread : Thread) (replies : Replies) (val : TypedArray)
    → IsOwned val
    → releases (in_the_end thread (to_napi_value_mut env thread replies val))
      ≡ lent_releases replies val
unfolding to_napi_value_mut
to_napi_value_mut-releases env thread replies val h =
    ground (arith, lend_data-releases thread replies env val)
