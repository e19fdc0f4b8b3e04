-- ===== src/Buffers/Lengths.antt =====
-- `normalize_typed_array_lengths` of crates/napi/src/bindgen_runtime/js_values/arraybuffer.rs: some
-- engines report the length of a typed array in bytes.
use ohos_rs.Common.{
  ℕ, ◌-◌, ◌*◌, ◌/◌, ◌%◌, ◌^◌, ◌≤◌, ◌<◌, min, leb, ◌==◌, ◌&&◌, ◌||◌, if◌then◌else◌, ◌≡◌, arith,
}

pub data TypedArrayType : Type 0 where
  int8 uint8 uint8_clamped int16 uint16 int32 uint32 float32 float64 : TypedArrayType
  big_int64 big_uint64 unknown : TypedArrayType

unfoldable pub typed_array_element_size : TypedArrayType → ℕ
typed_array_element_size int16 = 2
typed_array_element_size uint16 = 2
typed_array_element_size int32 = 4
typed_array_element_size uint32 = 4
typed_array_element_size float32 = 4
typed_array_element_size float64 = 8
typed_array_element_size big_int64 = 8
typed_array_element_size big_uint64 = 8
typed_array_element_size _ = 1

-- Of a `usize`.
abbrev pub saturating_mul : ℕ → ℕ → ℕ
saturating_mul a b = min (a * b) (2 ^ 64 - 1)

-- The number of elements and of bytes, when the buffer has `arraybuffer_length` bytes.
unfoldable pub lengths_of : ℕ → ℕ → ℕ → ℕ × ℕ
lengths_of available_byte_length reported_length element_size =
    let reported_byte_length = saturating_mul reported_length element_size in
    if reported_length == 0 || element_size == 1
    then (min reported_length available_byte_length, min reported_length available_byte_length)
    else if leb reported_byte_length available_byte_length
    then (reported_length, reported_byte_length)
    else if leb reported_length available_byte_length && reported_length % element_size == 0
    then (reported_length / element_size, reported_length)
    else (available_byte_length / element_size, available_byte_length / element_size * element_size)

unfoldable pub normalize_typed_array_lengths : ℕ → ℕ → ℕ → TypedArrayType → ℕ × ℕ
unfolding lengths_of typed_array_element_size
normalize_typed_array_lengths arraybuffer_length byte_offset reported_length typed_array_type =
    lengths_of (arraybuffer_length - byte_offset) reported_length
      (typed_array_element_size typed_array_type)

-- What is promised of the elements and the bytes.
abbrev pub Fits : ℕ → ℕ → ℕ → ℕ × ℕ → Type 0
Fits available reported size (elements, bytes) =
    (bytes ≤ available)
    × (elements * size ≡ bytes)
    × (reported * size ≤ available → elements ≡ reported)

module _ (available reported : ℕ) (h : available < 2 ^ 64 - 1) where
  Fits-one : Fits available reported 1 (lengths_of available reported 1)
  unfolding lengths_of
  Fits-one = ground arith

  Fits-two : Fits available reported 2 (lengths_of available reported 2)
  unfolding lengths_of
  Fits-two = ground arith

  Fits-four : Fits available reported 4 (lengths_of available reported 4)
  unfolding lengths_of
  Fits-four = ground arith

  Fits-eight : Fits available reported 8 (lengths_of available reported 8)
  unfolding lengths_of
  Fits-eight = ground arith

-- The view that results lies in the buffer, whatever length and offset were reported; its elements
-- fill its bytes exactly; and a length in elements that fits is kept as it is.
pub normalize_typed_array_lengths-Fits :
    (buffer offset reported : ℕ) (t : TypedArrayType)
    → buffer < 2 ^ 64 - 1
    → Fits
        (buffer - offset)
        reported
        (typed_array_element_size t)
        (normalize_typed_array_lengths buffer offset reported t)
unfolding normalize_typed_array_lengths typed_array_element_size
normalize_typed_array_lengths-Fits b o r int8 h = Fits-one (b - o) r (omega arith)
normalize_typed_array_lengths-Fits b o r uint8 h = Fits-one (b - o) r (omega arith)
normalize_typed_array_lengths-Fits b o r uint8_clamped h = Fits-one (b - o) r (omega arith)
normalize_typed_array_lengths-Fits b o r int16 h = Fits-two (b - o) r (omega arith)
normalize_typed_array_lengths-Fits b o r uint16 h = Fits-two (b - o) r (omega arith)
normalize_typed_array_lengths-Fits b o r int32 h = Fits-four (b - o) r (omega arith)
normalize_typed_array_lengths-Fits b o r uint32 h = Fits-four (b - o) r (omega arith)
normalize_typed_array_lengths-Fits b o r float32 h = Fits-four (b - o) r (omega arith)
normalize_typed_array_lengths-Fits b o r float64 h = Fits-eight (b - o) r (omega arith)
normalize_typed_array_lengths-Fits b o r big_int64 h = Fits-eight (b - o) r (omega arith)
normalize_typed_array_lengths-Fits b o r big_uint64 h = Fits-eight (b - o) r (omega arith)
normalize_typed_array_lengths-Fits b o r unknown h = Fits-one (b - o) r (omega arith)
