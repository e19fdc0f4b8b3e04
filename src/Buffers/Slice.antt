-- ===== src/Buffers/Slice.antt =====
-- `BufferSlice` of crates/napi/src/bindgen_runtime/js_values/buffer.rs, and `drop_buffer_slice` of
-- crates/napi/src/bindgen_runtime/mod.rs, in a build without debug assertions.
use ohos_rs.Common.{ℕ, ◌==◌, if◌then◌else◌, Bool, false, some, List, [], ◌∷◌, ◌≡◌, ◌≢◌, arith}
use ohos_rs.Status.{Status}
use ohos_rs.Buffers.{Effect, released, notified, succeeded, forbids_external}

-- Where the bytes of a slice are said to be: at a pointer that was given, or at the address that a
-- handle of the engine is.
pub data Bytes : Type 0 where
  no_bytes : Bytes
  at_pointer : ℕ → ℕ → Bytes
  at_handle : ℕ → ℕ → Bytes

pub record BufferSlice : Type 0 where
  pub inner : Bytes
  pub raw_value : ℕ

pub data Answer : Type 0 where
  sliced : BufferSlice → Answer
  refused : Status → Answer

-- What is freed before the return, and what the finalizer of the engine frees later.
pub record Made : Type 0 where
  pub answer : Answer
  pub effects : List Effect
  pub later : List Effect

-- The engine's answers to the two calls that make a buffer, and the handle that they give.
pub record Buffers : Type 0 where
  pub external : Status
  pub copy : Status
  pub buf : ℕ

unfoldable pub slice_at : ℕ → ℕ → BufferSlice
slice_at buf len = record {
  inner = if len == 0 then no_bytes else at_handle buf len;
  raw_value = buf;
}

unfoldable pub answer_of : Status → ℕ → ℕ → Answer
unfolding succeeded slice_at
answer_of status buf len = if succeeded status then sliced (slice_at buf len) else refused status

-- The vector is forgotten unless the engine has no external buffers.
unfoldable pub from_data : Buffers → ℕ → ℕ → ℕ → Made
unfolding answer_of forbids_external succeeded
from_data engine pointer len capacity =
    if len == 0
    then record {
      answer = answer_of engine.copy engine.buf len;
      effects = released pointer len capacity ∷ [];
      later = [];
    }
    else if forbids_external engine.external
    then record {
      answer = answer_of engine.copy engine.buf len;
      effects = released pointer len capacity ∷ [];
      later = [];
    }
    else record {
      answer = answer_of engine.external engine.buf len;
      effects = [];
      later = if succeeded engine.external then released pointer len capacity ∷ [] else [];
    }

-- `borrowed` says whether the pointer is null or the one of an empty vector; then nothing is done, and
-- the finalizer is not called.
unfoldable pub from_external : Buffers → Bool → ℕ → ℕ → ℕ → Made
unfolding answer_of forbids_external succeeded
from_external engine is_empty pointer len finalize =
    if is_empty
    then record { answer = refused Status.invalid_arg; effects = []; later = [] }
    else if forbids_external engine.external
    then record {
      answer = answer_of engine.copy engine.buf len;
      effects = notified finalize (some pointer) len ∷ [];
      later = [];
    }
    else record {
      answer = answer_of engine.external engine.buf len;
      effects = [];
      later = if succeeded engine.external then notified finalize (some pointer) len ∷ [] else [];
    }

unfoldable pub copy_from : Buffers → ℕ → Made
unfolding answer_of
copy_from engine len = record {
  answer = answer_of engine.copy engine.buf len;
  effects = [];
  later = [];
}

-- Here the pointer is the one that `napi_get_buffer_info` gives.
unfoldable pub from_napi_value : Status → ℕ → ℕ → ℕ → Answer
unfolding succeeded
from_napi_value info napi_val pointer len =
    if succeeded info
    then sliced (record {
      inner = if len == 0 then no_bytes else at_pointer pointer len;
      raw_value = napi_val;
    })
    else refused info

-- A slice that was made from bytes, unlike one that was read, has the handle of its buffer as the
-- address of its bytes, as soon as it has any.
pub made_at_handle :
    (engine : Buffers) (pointer len capacity : ℕ) (s : BufferSlice)
    → len ≢ 0
    → ((from_data engine pointer len capacity).answer ≡ sliced s
        → s.inner ≡ at_handle s.raw_value len)
      × ((from_external engine false pointer len capacity).answer ≡ sliced s
          → s.inner ≡ at_handle s.raw_value len)
      × ((copy_from engine len).answer ≡ sliced s → s.inner ≡ at_handle s.raw_value len)
unfolding from_data from_external copy_from answer_of slice_at
made_at_handle engine pointer len capacity s h = (ground arith, ground arith, ground arith)
