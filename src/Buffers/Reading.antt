-- ===== src/Buffers/Reading.antt =====
-- `from_napi_value` of a typed array: `impl_typed_array` of
-- crates/napi/src/bindgen_runtime/js_values/arraybuffer.rs, and what becomes of its reference.
use ohos_rs.Common.{
  append-nil, ℕ, suc, ◌+◌, ◌-◌, ◌*◌, ◌^◌, ◌≤◌, ◌<◌, if◌then◌else◌, Bool, true, false, not, Option,
  none, some, List, [], ◌∷◌, ◌++◌, length, ◌≡◌, ◌⊎◌, inl, inr, arith, sym, ap, ◌∙◌, Bool-cases,
}
use ohos_rs.Status.{Status}
use ohos_rs.Buffers.{
  TypedArray, Effect, released, notified, sent, unreferenced, deleted, threw, asserted, Thread,
  succeeded, or_throw, delete_reference, send_reference, drop_reference, drop_typed_array,
  custom_gc,
}
use ohos_rs.Buffers.Lengths.{
  TypedArrayType, typed_array_element_size, normalize_typed_array_lengths,
  normalize_typed_array_lengths-Fits,
}

-- What the engine says of a value.
pub record Described : Type 0 where
  pub create_reference : Status
  pub reference : ℕ
  pub info : Status
  pub same_type : Bool
  pub data_ptr : Option ℕ
  pub reported_length : ℕ
  pub byte_offset : ℕ
  pub buffer_info : Status
  pub buffer_length : ℕ

-- `typed_array_type != $typed_array_type` is `same_type`. The references that were made stand beside the
-- answer.
pub data Answer : Type 0 where
  read : TypedArray → Answer
  refused : Status → Answer

unfoldable pub viewed : ℕ → TypedArrayType → Described → TypedArray
unfolding normalize_typed_array_lengths
viewed env t d =
    let (elements, bytes) =
      normalize_typed_array_lengths d.buffer_length d.byte_offset d.reported_length t in
    record {
      data_ptr = d.data_ptr;
      length = elements;
      capacity = elements;
      byte_offset = d.byte_offset;
      raw = some (some d.reference, some env);
      finalizer_notify = none;
    }

unfoldable pub from_napi_value : ℕ → TypedArrayType → Described → Answer × List ℕ
unfolding succeeded viewed
from_napi_value env t d =
    if not (succeeded d.create_reference)
    then (refused d.create_reference, [])
    else if not (succeeded d.info)
    then (refused d.info, d.reference ∷ [])
    else if not d.same_type
    then (refused Status.invalid_arg, d.reference ∷ [])
    else if not (succeeded d.buffer_info)
    then (refused d.buffer_info, d.reference ∷ [])
    else (read (viewed env t d), d.reference ∷ [])

-- How often references are deleted.
unfoldable pub deletions : List Effect → ℕ
deletions [] = 0
deletions (deleted r ∷ es) = suc (deletions es)
deletions (_ ∷ es) = deletions es

-- The end of an answer: a value is dropped on its thread, and what that thread sends is collected on
-- the thread of the environment.
unfoldable pub afterwards : Thread → Thread → Answer → List Effect
unfolding drop_typed_array custom_gc
afterwards thread main (refused s) = []
afterwards thread main (read val) = let es = drop_typed_array thread val in es ++ custom_gc main es

deletions-append : (es fs : List Effect) → deletions (es ++ fs) ≡ deletions es + deletions fs
unfolding deletions
deletions-append [] fs = omega arith
deletions-append (released d l c ∷ es) fs = deletions-append es fs
deletions-append (notified f d l ∷ es) fs = deletions-append es fs
deletions-append (sent r ∷ es) fs = deletions-append es fs
deletions-append (unreferenced r ∷ es) fs = deletions-append es fs
deletions-append (deleted r ∷ es) fs = omega (arith, deletions-append es fs)
deletions-append (threw s ∷ es) fs = deletions-append es fs
deletions-append (asserted s ∷ es) fs = deletions-append es fs

or_throw-deletions : (s : Status) → deletions (or_throw s) ≡ 0
unfolding or_throw deletions
or_throw-deletions s = ground arith

delete_reference-deletions :
    (thread : Thread) (ref : ℕ) → deletions (delete_reference thread ref) ≡ 1
unfolding delete_reference deletions
delete_reference-deletions thread ref = omega (
  arith,
  or_throw-deletions thread.unref_status,
  or_throw-deletions thread.delete_status,
  deletions-append (or_throw thread.unref_status) (deleted ref ∷ or_throw thread.delete_status),
)

or_throw-custom_gc :
    (main : Thread) (s : Status) (es : List Effect)
    → custom_gc main (or_throw s ++ es) ≡ custom_gc main es
unfolding or_throw custom_gc
or_throw-custom_gc main s es = ground arith

-- A deletion at once leaves nothing for the collector.
delete_reference-custom_gc :
    (thread main : Thread) (ref : ℕ) → custom_gc main (delete_reference thread ref) ≡ []
unfolding delete_reference custom_gc
delete_reference-custom_gc thread main ref =
    or_throw-custom_gc main thread.unref_status (deleted ref ∷ or_throw thread.delete_status)
    ∙ (ap (custom_gc main) (sym (append-nil (or_throw thread.delete_status)))
        ∙ or_throw-custom_gc main thread.delete_status [])

-- The thread of the environment, and one whose references reach it: it is that thread, or its call of
-- the collector succeeds.
abbrev pub IsLive : Thread → Thread → Type 0
IsLive thread main =
    (main.can_access_env ≡ true)
    × (thread.gc_destroyed ≡ false)
    × ((thread.can_access_env ≡ true) ⊎ (succeeded thread.gc_status ≡ true))

drop_reference-cases :
    (thread main : Thread) (ref : ℕ)
    → IsLive thread main
    → (drop_reference thread ref ≡ delete_reference thread ref)
      ⊎ (drop_reference thread ref ≡ sent ref ∷ [])
unfolding drop_reference send_reference
drop_reference-cases thread main ref h = elim (Bool-cases thread.can_access_env) [
  | inl here ↦ inl (ground arith)
  | inr there ↦ inr (ground arith)
]

sent-deletions :
    (main : Thread) (ref : ℕ)
    → main.can_access_env ≡ true
    → deletions (sent ref ∷ custom_gc main (sent ref ∷ [])) ≡ 1
unfolding deletions custom_gc
sent-deletions main ref h =
    rw h
      (ap deletions (append-nil (delete_reference main ref)) ∙ delete_reference-deletions main ref)

abbrev collected : Thread → List Effect → List Effect
collected main es = es ++ custom_gc main es

pub drop_reference-deletions :
    (thread main : Thread) (ref : ℕ)
    → IsLive thread main
    → deletions (collected main (drop_reference thread ref)) ≡ 1
drop_reference-deletions thread main ref h = elim (drop_reference-cases thread main ref h) [
  | inl e ↦
      ap (λ es. deletions (collected main es)) e
      ∙ ap (λ es. deletions (delete_reference thread ref ++ es))
          (delete_reference-custom_gc thread main ref)
      ∙ ap deletions (append-nil (delete_reference thread ref))
      ∙ delete_reference-deletions thread ref
  | inr e ↦ ap (λ es. deletions (collected main es)) e ∙ sent-deletions main ref h.0
]

-- The references that are made are those that are deleted, and those of a failed reading.
abbrev Balanced : Thread → Thread → Described → Answer × List ℕ → Type 0
Balanced thread main d (answer, created) =
    length created
    ≡ deletions (afterwards thread main answer)
      + elim answer [ read val ↦ 0 | refused s ↦ if succeeded d.create_reference then 1 else 0 ]

refused-Balanced :
    (thread main : Thread) (d : Described) (s : Status)
    → succeeded d.create_reference ≡ true
    → Balanced thread main d (refused s, d.reference ∷ [])
unfolding afterwards deletions
refused-Balanced thread main d s c = rw c (omega arith)

viewed-Balanced :
    (thread main : Thread) (env : ℕ) (t : TypedArrayType) (d : Described)
    → IsLive thread main
    → Balanced thread main d (read (viewed env t d), d.reference ∷ [])
unfolding afterwards drop_typed_array viewed
viewed-Balanced thread main env t d h =
    omega (arith, drop_reference-deletions thread main d.reference h)

-- The reference of a value that is read is deleted exactly once, on whatever thread the value is
-- dropped, as long as the custom collector is not destroyed, the thread of the environment can still
-- access it, and the call of the collector from another thread is accepted. The one of a reading that fails behind `napi_create_reference`, as for a typed array of
-- another type, is never deleted.
pub from_napi_value-deletions :
    (thread main : Thread) (env : ℕ) (t : TypedArrayType) (d : Described)
    → IsLive thread main
    → let (answer, created) = from_napi_value env t d in
      length created
      ≡ deletions (afterwards thread main answer)
        + elim answer [ read val ↦ 0 | refused s ↦ if succeeded d.create_reference then 1 else 0 ]
unfolding from_napi_value
from_napi_value-deletions thread main env t d h = elim (Bool-cases (succeeded d.create_reference)) [
  | inr c ↦ rw c (unfold afterwards deletions in rw c (omega arith))
  | inl c ↦ rw c (elim (Bool-cases (succeeded d.info)) [
    | inr i ↦ rw i (refused-Balanced thread main d d.info c)
    | inl i ↦ rw i (elim (Bool-cases d.same_type) [
      | inr y ↦ rw y (refused-Balanced thread main d Status.invalid_arg c)
      | inl y ↦ rw y (elim (Bool-cases (succeeded d.buffer_info)) [
        | inr b ↦ rw b (refused-Balanced thread main d d.buffer_info c)
        | inl b ↦ rw b (viewed-Balanced thread main env t d h)
      ])
    ])
  ])
]

-- A value that is read lies in its buffer, and its elements are whole.
pub from_napi_value-Fits :
    (env : ℕ) (t : TypedArrayType) (d : Described) (val : TypedArray)
    → d.buffer_length < 2 ^ 64 - 1
    → (from_napi_value env t d).0 ≡ read val
    → val.length * typed_array_element_size t ≤ d.buffer_length - d.byte_offset
unfolding from_napi_value viewed
from_napi_value-Fits env t d val h e =
    let (inside, whole, kept) =
      normalize_typed_array_lengths-Fits d.buffer_length d.byte_offset d.reported_length t h in
    ground arith
