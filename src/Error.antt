-- ===== src/Error.antt =====
-- `Error`, `Result` and `check_status!` of crates/napi/src/error.rs. An error keeps its status, its
-- reason and the engine's reference to the JavaScript error that it came from (0 is the null
-- reference). `Chain` is an error with its causes, and what becomes of it in JavaScript; `Import` makes
-- a chain of a JavaScript value; `Counting` is the reference under a sequence of events.
pub mod Chain
pub mod Import
pub mod Counting
mod Tests
use Prim.Native.String.{String}
use ohos_rs.Common.{◌≡◌, refl, ◌⊎◌, inl, inr, ℕ, ◌==◌, if◌then◌else◌, Bool, false}
use ohos_rs.Common.Int.{ℤ, pos, negsuc}
use ohos_rs.Status.{Status, from_code}

pub record Error : Type 0 where
  pub status : Status
  pub reason : String
  pub maybe_raw : ℕ

-- `Error::new`, and `Error::from_status`.
unfoldable pub new : Status → String → Error
new s r = record { status = s; reason = r; maybe_raw = 0 }

unfoldable pub from_status : Status → Error
from_status s = record { status = s; reason = ""; maybe_raw = 0 }

-- `Error::from_reason`.
unfoldable pub from_reason : String → Error
from_reason r = record { status = Status.generic_failure; reason = r; maybe_raw = 0 }

pub data Result {ℓ} (A : Type ℓ) : Type ℓ where
  ok : A → Result A
  err : Error → Result A

pub Result-cases {ℓ} :
    {A : Type ℓ} (r : Result A) → ((a : A) × (r ≡ ok a)) ⊎ ((e : Error) × (r ≡ err e))
Result-cases (ok a) = inl (a, refl)
Result-cases (err e) = inr (e, refl)

infixl 5 ◌>>=◌
abbrev pub ◌>>=◌ {ℓ κ} : {A : Type ℓ} {B : Type κ} → Result A → (A → Result B) → Result B
ok a >>= f = f a
err e >>= f = err e

-- `code == napi_ok`.
abbrev pub is_ok : ℤ → Bool
is_ok (pos c) = c == 0
is_ok (negsuc _) = false

-- `check_status!(code, message)`.
unfoldable pub check_status : ℤ → String → Result (Unit {0})
unfolding new
check_status c m = if is_ok c then ok tt else err (new (from_code c) m)
