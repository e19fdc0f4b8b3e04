-- ===== src/Error/Import.antt =====
-- `From<Unknown> for Error` and `extract_error_cause` of crates/napi/src/error.rs: an error with its
-- causes, made of a JavaScript value. The two functions call each other, once for each cause; the model
-- runs on fuel, one unit for each value.
pub mod Back
pub mod Causes
use mathlib.Core.Option
use Prim.Native.String.{String}
use ohos_rs.Common.{ℕ, zero, suc, if◌then◌else◌, Option, none, some}
use ohos_rs.Common.Int.{ℤ}
use ohos_rs.Status.{Status, from_code}
use ohos_rs.Error.{Error, Result, ok, err, new, is_ok}
use ohos_rs.Error.Chain.{Chain, single, caused}

-- crates/napi/src/value_type.rs.
pub data ValueType : Type 0 where
  undefined null boolean number string symbol object function external bigint unknown : ValueType

-- What the read of the property `cause` answers: a value, an exception, or another status.
pub data Property : Type 0 where
  value : ℕ → Property
  exception : ℕ → Property
  refused : ℤ → Property

-- What the engine answers about a value: the reference that `napi_create_reference` makes, its text,
-- its type and its property `cause`. An exception that is pending can be taken.
pub record Values : Type 0 where
  pub reference : ℕ → ℤ × ℕ
  pub text : ℕ → Result String
  pub get_type : ℕ → Result ValueType
  pub get_cause : ℕ → Property

-- The value that is converted next, and what it is: the cause, or an exception whose error is ignored.
pub data Next : Type 0 where
  stop : Next
  cause : ℕ → Next
  ignored : ℕ → Next

abbrev cause_unless_null : ℕ → Result ValueType → Next
cause_unless_null w (err _) = stop
cause_unless_null w (ok undefined) = stop
cause_unless_null w (ok null) = stop
cause_unless_null w (ok _) = cause w

-- `extract_error_cause`, up to the conversions; any error of it counts as no cause.
unfoldable pub extract_error_cause : Values → ℕ → Next
extract_error_cause h v = elim (h.get_type v) [
  | ok object ↦ elim (h.get_cause v) [
    | value w ↦ cause_unless_null w (h.get_type w)
    | exception w ↦ ignored w
    | refused _ ↦ stop
  ]
  | ok _ ↦ stop
  | err _ ↦ stop
]

-- The error of the value itself; a text that cannot be had is empty.
unfoldable pub own_error : Values → ℕ → Error
own_error h v = record {
  status = Status.generic_failure;
  reason = elim (h.text v) [ ok m ↦ m | err _ ↦ "" ];
  maybe_raw = (h.reference v).1;
}

-- The error of a value, and what is converted next.
unfoldable pub import_value : Values → ℕ → Error × Next
unfolding extract_error_cause own_error new
import_value h v =
    if is_ok (h.reference v).0
    then (own_error h v, extract_error_cause h v)
    else (new (from_code (h.reference v).0) "Create Error reference failed", stop)

unfoldable pub with_next : Error → Next → (ℕ → Option Chain) → Option Chain
with_next e stop inner = some (single e)
with_next e (cause w) inner = Option.map (caused e) (inner w)
with_next e (ignored w) inner = Option.map (λ _. single e) (inner w)

-- `none` is a stack that overflows.
unfoldable pub from_unknown : Values → ℕ → ℕ → Option Chain
unfolding import_value with_next
from_unknown h zero v = none
from_unknown h (suc n) v =
    with_next (import_value h v).0 (import_value h v).1 (λ w. from_unknown h n w)
