-- ===== src/Status.antt =====
-- Status codes: crates/napi/src/status.rs, and the constants of crates/sys/src/types.rs. The engine
-- and the library exchange them as an i32.
mod Tests
use Prim.Native.String.{String}
use ohos_rs.Common.{◌⊎◌, inl, inr, ℕ, ◌==◌, if◌then◌else◌, ◌≡◌, ◌≢◌, refl, arith, true, false, Bool}
use ohos_rs.Common.Int.{ℤ, pos, negsuc}

pub data Status : Type 0 where
  ok : Status
  invalid_arg : Status
  object_expected : Status
  string_expected : Status
  name_expected : Status
  function_expected : Status
  number_expected : Status
  boolean_expected : Status
  array_expected : Status
  generic_failure : Status
  pending_exception : Status
  cancelled : Status
  escape_called_twice : Status
  handle_scope_mismatch : Status
  callback_scope_mismatch : Status
  queue_full : Status
  closing : Status
  bigint_expected : Status
  date_expected : Status
  array_buffer_expected : Status
  detachable_arraybuffer_expected : Status
  would_deadlock : Status
  no_external_buffers_allowed : Status
  unknown : Status

-- `From<Status> for i32`.
pub to_code : Status → ℤ
to_code ok = pos 0
to_code invalid_arg = pos 1
to_code object_expected = pos 2
to_code string_expected = pos 3
to_code name_expected = pos 4
to_code function_expected = pos 5
to_code number_expected = pos 6
to_code boolean_expected = pos 7
to_code array_expected = pos 8
to_code generic_failure = pos 9
to_code pending_exception = pos 10
to_code cancelled = pos 11
to_code escape_called_twice = pos 12
to_code handle_scope_mismatch = pos 13
to_code callback_scope_mismatch = pos 14
to_code queue_full = pos 15
to_code closing = pos 16
to_code bigint_expected = pos 17
to_code date_expected = pos 18
to_code array_buffer_expected = pos 19
to_code detachable_arraybuffer_expected = pos 20
to_code would_deadlock = pos 21
to_code no_external_buffers_allowed = pos 22
to_code unknown = pos 9

-- The match of `From<i32> for Status` on a code that is not negative.
match_code : ℕ → Status
match_code c =
    if c == 0
    then ok
    else if c == 1
    then invalid_arg
    else if c == 2
    then object_expected
    else if c == 3
    then string_expected
    else if c == 4
    then name_expected
    else if c == 5
    then function_expected
    else if c == 6
    then number_expected
    else if c == 7
    then boolean_expected
    else if c == 8
    then array_expected
    else if c == 9
    then generic_failure
    else if c == 10
    then pending_exception
    else if c == 11
    then cancelled
    else if c == 12
    then escape_called_twice
    else if c == 13
    then handle_scope_mismatch
    else if c == 14
    then callback_scope_mismatch
    else if c == 15
    then queue_full
    else if c == 16
    then closing
    else if c == 17
    then bigint_expected
    else if c == 18
    then date_expected
    else if c == 19
    then array_buffer_expected
    else if c == 20
    then detachable_arraybuffer_expected
    else if c == 21
    then would_deadlock
    else if c == 22
    then no_external_buffers_allowed
    else unknown

pub from_code : ℤ → Status
unfolding match_code
from_code (pos c) = match_code c
from_code (negsuc _) = unknown

-- `AsRef<str>`, the code that a JavaScript error shows.
unfoldable pub as_ref : Status → String
as_ref ok = "Ok"
as_ref invalid_arg = "InvalidArg"
as_ref object_expected = "ObjectExpected"
as_ref string_expected = "StringExpected"
as_ref name_expected = "NameExpected"
as_ref function_expected = "FunctionExpected"
as_ref number_expected = "NumberExpected"
as_ref boolean_expected = "BooleanExpected"
as_ref array_expected = "ArrayExpected"
as_ref generic_failure = "GenericFailure"
as_ref pending_exception = "PendingException"
as_ref cancelled = "Cancelled"
as_ref escape_called_twice = "EscapeCalledTwice"
as_ref handle_scope_mismatch = "HandleScopeMismatch"
as_ref callback_scope_mismatch = "CallbackScopeMismatch"
as_ref queue_full = "QueueFull"
as_ref closing = "Closing"
as_ref bigint_expected = "BigintExpected"
as_ref date_expected = "DateExpected"
as_ref array_buffer_expected = "ArrayBufferExpected"
as_ref detachable_arraybuffer_expected = "DetachableArraybufferExpected"
as_ref would_deadlock = "WouldDeadlock"
as_ref no_external_buffers_allowed = "NoExternalBuffersAllowed"
as_ref unknown = "Unknown"

-- Every status but `unknown` survives the way to the engine's code and back.
pub from_code-to_code : (s : Status) → s ≢ unknown → from_code (to_code s) ≡ s
unfolding from_code to_code
from_code-to_code ok h = refl
from_code-to_code invalid_arg h = refl
from_code-to_code object_expected h = refl
from_code-to_code string_expected h = refl
from_code-to_code name_expected h = refl
from_code-to_code function_expected h = refl
from_code-to_code number_expected h = refl
from_code-to_code boolean_expected h = refl
from_code-to_code array_expected h = refl
from_code-to_code generic_failure h = refl
from_code-to_code pending_exception h = refl
from_code-to_code cancelled h = refl
from_code-to_code escape_called_twice h = refl
from_code-to_code handle_scope_mismatch h = refl
from_code-to_code callback_scope_mismatch h = refl
from_code-to_code queue_full h = refl
from_code-to_code closing h = refl
from_code-to_code bigint_expected h = refl
from_code-to_code date_expected h = refl
from_code-to_code array_buffer_expected h = refl
from_code-to_code detachable_arraybuffer_expected h = refl
from_code-to_code would_deadlock h = refl
from_code-to_code no_external_buffers_allowed h = refl
from_code-to_code unknown h = absurd (h refl)

match_code-known :
    (c : ℕ)
    → (to_code (match_code c) ≡ pos c) ⊎ (match_code c ≡ unknown) × (to_code (match_code c) ≡ pos 9)
unfolding match_code to_code
match_code-known c = ground arith

-- A code that the library knows is sent back as it came, and every other code becomes a generic
-- failure.
pub to_code-from_code :
    (c : ℤ)
    → (to_code (from_code c) ≡ c) ⊎ (from_code c ≡ unknown) × (to_code (from_code c) ≡ pos 9)
unfolding from_code
to_code-from_code (pos c) = match_code-known c
to_code-from_code (negsuc n) = inr (refl, unfold to_code in refl)

-- A status is `ok` exactly when its code is 0.
pub from_code-ok : (c : ℤ) → from_code c ≡ ok → c ≡ pos 0
unfolding from_code
from_code-ok (pos c) h = ground arith
from_code-ok (negsuc n) h = cc

pub from_code-ten : from_code (pos 10) ≡ pending_exception
unfolding from_code
from_code-ten = refl
