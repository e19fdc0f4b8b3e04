-- ===== src/Buffers/Buffer.antt =====
-- `Buffer` of crates/napi/src/bindgen_runtime/js_values/buffer.rs, and `drop_buffer` of
-- crates/napi/src/bindgen_runtime/mod.rs, in a build without debug assertions.
use ohos_rs.Common.{
  ℕ, ◌==◌, if◌then◌else◌, not, ◌&&◌, Option, none, some, List, [], ◌∷◌, ◌++◌, ◌≡◌, arith,
}
use ohos_rs.Status.{Status}
use ohos_rs.Buffers.{
  Effect, released, deleted, Thread, succeeded, forbids_external, drop_reference, releases,
}

-- `inner` is never null.
pub record Buffer : Type 0 where
  pub inner : ℕ
  pub len : ℕ
  pub capacity : ℕ
  pub raw : Option (Option ℕ × ℕ)

unfoldable pub drop_buffer : Thread → Buffer → List Effect
unfolding drop_reference
drop_buffer thread buffer = elim buffer.raw [
  | none ↦ released buffer.inner buffer.len buffer.capacity ∷ []
  | some (none, env) ↦ []
  | some (some ref, env) ↦ drop_reference thread ref
]

unfoldable pub from_vec : ℕ → ℕ → ℕ → Buffer
from_vec pointer len capacity = record {
  inner = pointer;
  len = len;
  capacity = capacity;
  raw = none;
}

-- The statuses of `napi_create_reference` and `napi_get_buffer_info`, and what they give; a pointer
-- that is null, or of no bytes, is replaced by a dangling one.
pub record Info : Type 0 where
  pub create_reference : Status
  pub reference : ℕ
  pub info : Status
  pub bytes : Option ℕ
  pub byte_length : ℕ

unfoldable pub inner_of : ℕ → Option ℕ → ℕ → ℕ
inner_of dangling none len = dangling
inner_of dangling (some pointer) len = if len == 0 then dangling else pointer

unfoldable pub from_napi_value : ℕ → ℕ → Info → Option Buffer
unfolding succeeded inner_of
from_napi_value dangling env i =
    if succeeded i.create_reference && succeeded i.info
    then some (record {
      inner = inner_of dangling i.bytes i.byte_length;
      len = i.byte_length;
      capacity = i.byte_length;
      raw = some (some i.reference, env);
    })
    else none

pub record BufferReplies : Type 0 where
  pub reference_value : Status
  pub delete_reference_status : Status
  pub copy : Status
  pub external : Status

-- The status, what is done up to the return, and the box that the engine finalizes.
pub record Given : Type 0 where
  pub answer : Status
  pub effects : List Effect
  pub boxed : Option Buffer

unfoldable pub to_napi_value : Thread → BufferReplies → Buffer → Given
unfolding drop_buffer succeeded forbids_external
to_napi_value thread replies val = elim val.raw [
  | some (ref, env) ↦
      if not (succeeded replies.reference_value)
      then record {
        answer = replies.reference_value;
        effects = drop_buffer thread val;
        boxed = none;
      }
      else if not (succeeded replies.delete_reference_status)
      then record {
        answer = replies.delete_reference_status;
        effects = drop_buffer thread val;
        boxed = none;
      }
      else record {
        answer = Status.ok;
        effects = elim ref [ none ↦ [] | some r ↦ deleted r ∷ [] ];
        boxed = none;
      }
  | none ↦
      if val.len == 0
      then record { answer = replies.copy; effects = drop_buffer thread val; boxed = none }
      else if forbids_external replies.external
      then record { answer = replies.copy; effects = drop_buffer thread val; boxed = none }
      else if succeeded replies.external
      then record { answer = Status.ok; effects = []; boxed = some val }
      else record { answer = replies.external; effects = []; boxed = none }
]

-- `drop_buffer`, the finalizer of the box.
unfoldable pub finalized : Thread → Given → List Effect
unfolding drop_buffer
finalized thread g = g.effects ++ elim g.boxed [ none ↦ [] | some val ↦ drop_buffer thread val ]

-- The memory of a vector is freed exactly once, whatever the engine answers; only if it refuses the
-- external buffer for another reason than that it has none, the memory is never freed.
pub releases-to_napi_value :
    (thread : Thread) (replies : BufferReplies) (pointer len capacity : ℕ)
    → releases (finalized thread (to_napi_value thread replies (from_vec pointer len capacity))) ≡ (
        if not (len == 0)
          && (not (forbids_external replies.external) && not (succeeded replies.external))
        then 0
        else 1)
unfolding to_napi_value from_vec finalized drop_buffer releases
releases-to_napi_value thread replies pointer len capacity = ground arith
