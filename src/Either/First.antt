-- ===== src/Either/First.antt =====
-- Which member of an `EitherN` a value becomes.
use Prim.Native.String.{String}
use ohos_rs.Common.{
  ℕ, suc, ◌==◌, if◌then◌else◌, Option, none, some, List, [], ◌∷◌, ◌≡◌, refl, arith,
}
use ohos_rs.Status.{Status}
use ohos_rs.Error.{Error, Result, ok, err, new}
use ohos_rs.Either.{
  Member, SilenceReplies, silence_rejected_promise, accepts, from_members, from_napi_value,
}

-- The value of a member that can be had: its test passes without a promise, and its conversion succeeds.
unfoldable pub member_value : {V : Type 0} → Member V → Option V
member_value m = elim m.validate [
  | ok promise ↦
      if promise == 0 then (elim m.from_napi_value [ ok v ↦ some v | err _ ↦ none ]) else none
  | err _ ↦ none
]

-- The first member that has a value, with its position.
unfoldable pub first_value : {V : Type 0} → ℕ → List (Member V) → Option (ℕ × V)
first_value i [] = none
first_value i (m ∷ ms) =
    let rest = first_value (suc i) ms in
    elim (member_value m) [ some v ↦ some (i, v) | none ↦ rest ]

abbrev pub or_error {ℓ} : {A : Type ℓ} → Error → Option A → Result A
or_error e none = err e
or_error e (some a) = ok a

from_members-first :
    {V : Type 0} (r : SilenceReplies) (none_of : String) (i : ℕ) (ms : List (Member V))
    → silence_rejected_promise r ≡ ok tt
    → from_members r none_of i ms ≡ or_error (new Status.invalid_arg none_of) (first_value i ms)
unfolding from_members first_value member_value accepts
from_members-first r none_of i [] h = refl
from_members-first r none_of i (m ∷ ms) h =
    let q = from_members-first r none_of (suc i) ms h in ground arith

-- A value becomes the first member, in the order of the declaration, whose test it passes and whose
-- conversion succeeds; a member whose conversion fails after its test is passed over, and so is one
-- whose test makes a rejected promise. When there is none, the error is an invalid argument. Such
-- promises have to be silenced without a failure.
pub from_napi_value-first :
    {V : Type 0} (r : SilenceReplies) (none_of : String) (ms : List (Member V))
    → silence_rejected_promise r ≡ ok tt
    → from_napi_value r none_of ms ≡ or_error (new Status.invalid_arg none_of) (first_value 0 ms)
unfolding from_napi_value
from_napi_value-first r none_of ms h = from_members-first r none_of 0 ms h
