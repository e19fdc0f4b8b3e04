-- ===== src/Either.antt =====
-- `EitherN` of crates/napi/src/bindgen_runtime/js_values/either.rs: a value of JavaScript that is one of
-- several types. The members of an `EitherN` are a list, and a value of it is the position of its
-- member with the member's value.
pub mod First
mod Tests
use Prim.Native.String.{String}
use ohos_rs.Common.{
  ℕ, suc, ◌==◌, if◌then◌else◌, Bool, true, false, Option, none, some, List, [], ◌∷◌,
}
use ohos_rs.Common.Int.{ℤ}
use ohos_rs.Status.{Status}
use ohos_rs.Error.{Error, Result, ok, err, ◌>>=◌, new, check_status}

-- What the types of the members answer about the value: `validate`, with 0 for the null pointer or a
-- promise that was rejected, and `from_napi_value`.
pub record Member (V : Type 0) : Type 0 where
  pub validate : Result ℕ
  pub from_napi_value : Result V

-- The statuses of the three steps of `silence_rejected_promise`.
pub record SilenceReplies : Type 0 where
  pub property : ℤ
  pub function : ℤ
  pub called : ℤ

unfoldable pub silence_rejected_promise : SilenceReplies → Result (Unit {0})
unfolding check_status
silence_rejected_promise r =
    check_status r.property ""
    >>= (λ _. check_status r.function "")
    >>= (λ _. check_status r.called "")

-- Whether a member takes the value: its test passed, or failed, or a promise could not be silenced.
unfoldable pub accepts : SilenceReplies → Result ℕ → Result Bool
unfolding silence_rejected_promise
accepts r (ok promise) =
    if promise == 0 then ok true else (silence_rejected_promise r >>= (λ _. ok false))
accepts r (err _) = ok false

-- The chain of the generated `if`s, from the member at the position `i`; `none_of` is the text of the
-- error that the macro puts together.
unfoldable pub from_members :
    {V : Type 0} → SilenceReplies → String → ℕ → List (Member V) → Result (ℕ × V)
unfolding accepts new
from_members r none_of i [] = err (new Status.invalid_arg none_of)
from_members r none_of i (m ∷ ms) =
    let rest = from_members r none_of (suc i) ms in
    elim (accepts r m.validate) [
      | err e ↦ err e
      | ok false ↦ rest
      | ok true ↦ elim m.from_napi_value [ ok v ↦ ok (i, v) | err _ ↦ rest ]
    ]

unfoldable pub from_napi_value :
    {V : Type 0} → SilenceReplies → String → List (Member V) → Result (ℕ × V)
unfolding from_members
from_napi_value r none_of ms = from_members r none_of 0 ms

-- `validate`, of members behind one whose result is `ret`.
unfoldable pub validate_from : {V : Type 0} → SilenceReplies → Result ℕ → List (Member V) → Result ℕ
unfolding accepts
validate_from r ret [] = ret
validate_from r ret (m ∷ ms) =
    let rest = validate_from r m.validate ms in
    elim (accepts r m.validate) [ err e ↦ err e | ok true ↦ m.validate | ok false ↦ rest ]
