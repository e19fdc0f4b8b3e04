-- ===== src/Buffers/Owned.antt =====
-- `to_napi_value` of a typed array that is given away: `impl_typed_array` of
-- crates/napi/src/bindgen_runtime/js_values/arraybuffer.rs.
use ohos_rs.Common.{
  ℕ, ◌+◌, ◌==◌, if◌then◌else◌, not, ◌&&◌, Option, none, some, List, [], ◌∷◌, ◌++◌, ◌≡◌, ◌≢◌, ◌⊎◌,
  refl, arith,
}
use ohos_rs.Status.{Status}
use ohos_rs.Buffers.{
  TypedArray, Effect, released, notified, sent, unreferenced, deleted, threw, asserted, Thread,
  succeeded, forbids_external, drop_typed_array, drop_data, releases, finalize_all, Replies,
  Conversion, ending, in_the_end,
}

-- An early return, or the end: what is left of the value is dropped.
abbrev pub finish : Status → List TypedArray → TypedArray → Conversion
finish answer hints val = record { answer = answer; effects = []; hints = hints; left = some val }

-- The value is moved into a box, which is lost, reclaimed, or held by the engine.
abbrev pub moved : Status → List TypedArray → Conversion
moved answer hints = record { answer = answer; effects = []; hints = hints; left = none }

-- A value that came from JavaScript: its reference is deleted, and is null then.
unfoldable pub give_reference : Thread → Replies → TypedArray → Option ℕ → Conversion
unfolding succeeded
give_reference thread replies val ref =
    if not (succeeded replies.reference_value)
    then finish replies.reference_value [] val
    else if not (succeeded replies.delete_reference_status)
    then finish replies.delete_reference_status [] val
    else record {
      answer = Status.ok;
      effects = elim ref [ none ↦ [] | some r ↦ deleted r ∷ [] ];
      hints = [];
      left = some (record val { raw = some (none, none) });
    }

-- A value of Rust. The box that is reclaimed is dropped at the end of its block, also on an error.
unfoldable pub give_data : Replies → TypedArray → Conversion
unfolding succeeded forbids_external
give_data replies val =
    if val.length == 0
    then (if succeeded replies.arraybuffer
        then finish replies.typedarray [] val
        else finish replies.arraybuffer [] val)
    else if forbids_external replies.external
    then (if succeeded replies.arraybuffer
        then finish replies.typedarray [] val
        else finish replies.arraybuffer [] val)
    else if succeeded replies.external
    then moved replies.typedarray (val ∷ [])
    else moved replies.external []

unfoldable pub to_napi_value : Thread → Replies → TypedArray → Conversion
unfolding give_reference give_data
to_napi_value thread replies val = elim val.raw [
  | some (ref, env) ↦ give_reference thread replies val ref
  | none ↦ give_data replies val
]

-- How often the data of a value is freed that Rust made and gave away.
abbrev pub given_releases : Replies → TypedArray → ℕ
given_releases replies val =
    if not (val.length == 0)
      && (not (forbids_external replies.external) && not (succeeded replies.external))
    then 0
    else 1

abbrev pub IsOwned : TypedArray → Type 0
IsOwned val = (val.raw ≡ none) × ((val.data_ptr ≢ none) ⊎ (val.finalizer_notify ≢ none))

pub drop_typed_array-owned :
    (thread : Thread) (val : TypedArray) → IsOwned val → releases (drop_typed_array thread val) ≡ 1
unfolding drop_typed_array drop_data releases
drop_typed_array-owned thread val h = ground arith

pub releases-append : (es fs : List Effect) → releases (es ++ fs) ≡ releases es + releases fs
unfolding releases
releases-append [] fs = omega arith
releases-append (released d l c ∷ es) fs = omega (arith, releases-append es fs)
releases-append (notified f d l ∷ es) fs = omega (arith, releases-append es fs)
releases-append (sent r ∷ es) fs = releases-append es fs
releases-append (unreferenced r ∷ es) fs = releases-append es fs
releases-append (deleted r ∷ es) fs = releases-append es fs
releases-append (threw s ∷ es) fs = releases-append es fs
releases-append (asserted s ∷ es) fs = releases-append es fs

-- What is freed in the end: by the rest of the value, and by the boxes.
pub finish-releases :
    (thread : Thread) (answer : Status) (val : TypedArray)
    → releases (in_the_end thread (finish answer [] val)) ≡ releases (drop_typed_array thread val)
unfolding in_the_end ending finalize_all releases
finish-releases thread answer val = omega (arith, releases-append (drop_typed_array thread val) [])

pub hint-releases :
    (thread : Thread) (answer : Status) (hint : TypedArray) (left : Option TypedArray)
    → releases (
        in_the_end thread
          (record { answer = answer; effects = []; hints = hint ∷ []; left = left }))
      ≡ elim left [ none ↦ 0 | some val ↦ releases (drop_typed_array thread val) ]
        + releases (drop_typed_array thread hint)
unfolding in_the_end ending finalize_all releases
hint-releases thread answer hint none =
    omega (arith, releases-append (drop_typed_array thread hint) [])
hint-releases thread answer hint (some val) = omega (
  arith,
  releases-append (drop_typed_array thread hint) [],
  releases-append (drop_typed_array thread val) (drop_typed_array thread hint ++ []),
)

lost-releases :
    (thread : Thread) (answer : Status) → releases (in_the_end thread (moved answer [])) ≡ 0
unfolding in_the_end ending finalize_all releases
lost-releases thread answer = refl

-- The data of a value that is given away is freed exactly once, by the engine or at once, whichever
-- call of the engine fails; only when the engine refuses the external buffer for another reason than
-- that it has none, the data is never freed.
pub to_napi_value-releases :
    (thread : Thread) (replies : Replies) (val : TypedArray)
    → IsOwned val
    → releases (in_the_end thread (to_napi_value thread replies val)) ≡ given_releases replies val
unfolding to_napi_value give_data
to_napi_value-releases thread replies val h = ground (
  arith,
  drop_typed_array-owned thread val,
  finish-releases thread replies.typedarray val,
  finish-releases thread replies.arraybuffer val,
  hint-releases thread replies.typedarray val none,
  lost-releases thread replies.external,
)
