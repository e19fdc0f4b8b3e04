-- ===== src/Either/Tests.antt =====
-- An `Either3`, and the theorem at a concrete input.
use ohos_rs.Common.{ℕ, List, [], ◌∷◌, ◌≡◌, refl}
use ohos_rs.Common.Int.{pos}
use ohos_rs.Status.{Status}
use ohos_rs.Error.{Error, ok, err, new, check_status}
use ohos_rs.Either.{Member, SilenceReplies, from_napi_value, silence_rejected_promise}
use ohos_rs.Either.First.{first_value, or_error, from_napi_value-first}

abbrev refusal : Error
refusal = new Status.invalid_arg "refused"

abbrev silent : SilenceReplies
silent = record { property = pos 0; function = pos 0; called = pos 0 }

-- The first is a promise, which is rejected, the second cannot be converted, and the third can.
abbrev members : List (Member ℕ)
members =
    record { validate = ok 6; from_napi_value = ok 1 }
    ∷ record { validate = ok 0; from_napi_value = err refusal }
    ∷ record { validate = ok 0; from_napi_value = ok 3 }
    ∷ []

third : from_napi_value silent "no member" members ≡ ok (2, 3)
unfolding from_napi_value check_status
third = refl

from_napi_value-first_example :
    from_napi_value silent "no member" members
    ≡ or_error (new Status.invalid_arg "no member") (first_value 0 members)
from_napi_value-first_example =
    from_napi_value-first silent "no member" members
      (unfold silence_rejected_promise check_status in refl)
