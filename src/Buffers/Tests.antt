-- ===== src/Buffers/Tests.antt =====
-- Runs of the conversions of typed arrays and buffers, and their theorems at concrete inputs.
use ohos_rs.Common.{
  ◌-◌, ◌+◌, ◌*◌, ◌≤◌, if◌then◌else◌, true, false, some, [], ◌∷◌, length, ◌≡◌, inl, inr, refl, arith,
}
use ohos_rs.Status.{Status}
use ohos_rs.Buffers.{
  TypedArray, released, Thread, Replies, new_typed_array, releases, in_the_end, succeeded,
  forbids_external,
}
use ohos_rs.Buffers.Lengths.{
  uint8, uint16, float64, normalize_typed_array_lengths, typed_array_element_size,
}
use ohos_rs.Buffers.Owned.{to_napi_value, to_napi_value-releases, IsOwned}
use ohos_rs.Buffers.Borrowed.{to_napi_value_mut, to_napi_value_mut-releases}
use ohos_rs.Buffers.Reading.{
  Described, read, refused, from_napi_value, deletions, afterwards, from_napi_value-deletions,
  from_napi_value-Fits, viewed,
}
use ohos_rs.Buffers.Slice.{Buffers, BufferSlice, sliced, at_handle, from_data}

-- 24 bytes as three doubles, also when their number is reported, and cut to the buffer.
lengths_read :
    (normalize_typed_array_lengths 24 0 3 float64 ≡ (3, 24))
    × (normalize_typed_array_lengths 24 0 24 float64 ≡ (3, 24))
    × (normalize_typed_array_lengths 24 8 3 float64 ≡ (2, 16))
unfolding normalize_typed_array_lengths
lengths_read = (refl, refl, refl)

abbrev js_thread : Thread
js_thread = record {
  gc_destroyed = false;
  can_access_env = true;
  gc_status = Status.ok;
  unref_status = Status.ok;
  delete_status = Status.ok;
}

abbrev other_thread : Thread
other_thread = record js_thread { can_access_env = false }

abbrev all_well : Replies
all_well = record {
  reference_value = Status.ok;
  delete_reference_status = Status.ok;
  external = Status.ok;
  arraybuffer = Status.ok;
  typedarray = Status.ok;
  create_reference = Status.ok;
  reference = 70;
}

abbrev late_failure : Replies
late_failure = record all_well { typedarray = Status.generic_failure }

abbrev array : TypedArray
array = new_typed_array 100 4 4

array-IsOwned : IsOwned array
unfolding new_typed_array
array-IsOwned = (refl, inl (λ e. cc))

freed_late : in_the_end js_thread (to_napi_value js_thread all_well array) ≡ released 100 4 4 ∷ []
unfolding in_the_end to_napi_value new_typed_array
freed_late = refl

to_napi_value-releases_example :
    releases (in_the_end js_thread (to_napi_value js_thread all_well array)) ≡ 1
unfolding new_typed_array succeeded forbids_external
to_napi_value-releases_example = to_napi_value-releases js_thread all_well array array-IsOwned

-- The data is freed by the engine and by Rust.
to_napi_value_mut-releases_example :
    releases (in_the_end js_thread (to_napi_value_mut 1 js_thread late_failure array)) ≡ 2
unfolding new_typed_array succeeded forbids_external
to_napi_value_mut-releases_example =
    to_napi_value_mut-releases 1 js_thread late_failure array array-IsOwned

abbrev bytes_of : Described
bytes_of = record {
  create_reference = Status.ok;
  reference = 70;
  info = Status.ok;
  same_type = true;
  data_ptr = some 100;
  reported_length = 4;
  byte_offset = 0;
  buffer_info = Status.ok;
  buffer_length = 16;
}

from_napi_value-deletions_example :
    length (from_napi_value 1 uint8 bytes_of).1
    ≡ deletions (afterwards other_thread js_thread (from_napi_value 1 uint8 bytes_of).0)
      + elim (from_napi_value 1 uint8 bytes_of).0 [
        | read val ↦ 0
        | refused s ↦ if succeeded Status.ok then 1 else 0
      ]
unfolding succeeded
from_napi_value-deletions_example =
    from_napi_value-deletions other_thread js_thread 1 uint8 bytes_of (refl, refl, inr refl)

-- A typed array of another type: its reference stays.
reference_lost :
    (from_napi_value 1 uint16 (record bytes_of { same_type = false })
      ≡ (refused Status.invalid_arg, 70 ∷ []))
    × (afterwards other_thread js_thread (refused Status.invalid_arg) ≡ [])
unfolding from_napi_value afterwards
reference_lost = (refl, refl)

from_napi_value-Fits_example : 4 * typed_array_element_size uint8 ≤ 16 - 0
unfolding from_napi_value viewed normalize_typed_array_lengths typed_array_element_size
from_napi_value-Fits_example =
    from_napi_value-Fits 1 uint8 bytes_of (viewed 1 uint8 bytes_of) (omega arith) refl

abbrev node : Buffers
node = record { external = Status.ok; copy = Status.ok; buf = 7 }

abbrev three_bytes : BufferSlice
three_bytes = record { inner = at_handle 7 3; raw_value = 7 }

sliced_at_handle : (from_data node 100 3 3).answer ≡ sliced three_bytes
unfolding from_data
sliced_at_handle = refl
