-- ===== src/Error/Import/Causes.antt =====
-- The chain of an error that JavaScript values form by their property `cause`.
use mathlib.Core.Option
use ohos_rs.Common.{ℕ, suc, ◌≡◌, ◌≢◌, true, false, Option}
use ohos_rs.Common.Int.{ℤ}
use ohos_rs.Status.{from_code}
use ohos_rs.Error.{Error, ok, err, new, is_ok}
use ohos_rs.Error.Chain.{Chain, single, caused}
use ohos_rs.Error.Import.{
  ValueType, undefined, null, object, value, exception, refused, Values, stop, cause, ignored,
  own_error, import_value,
}

-- A value ends its chain if it is no object, or its `cause` is undefined or null, or one of these is
-- refused by the engine.
pub data IsLast (h : Values) (v : ℕ) : Type 0 where
  no_object : {t : ValueType} → h.get_type v ≡ ok t → t ≢ object → IsLast h v
  cause_undefined :
      {w : ℕ}
      → h.get_type v ≡ ok object
      → h.get_cause v ≡ value w
      → h.get_type w ≡ ok undefined
      → IsLast h v
  cause_null :
      {w : ℕ}
      → h.get_type v ≡ ok object
      → h.get_cause v ≡ value w
      → h.get_type w ≡ ok null
      → IsLast h v
  untyped : {e : Error} → h.get_type v ≡ err e → IsLast h v
  cause_untyped :
      {w : ℕ} {e : Error}
      → h.get_type v ≡ ok object
      → h.get_cause v ≡ value w
      → h.get_type w ≡ err e
      → IsLast h v
  unreadable : {s : ℤ} → h.get_type v ≡ ok object → h.get_cause v ≡ refused s → IsLast h v

abbrev reference_error : Values → ℕ → Error
reference_error h v = new (from_code (h.reference v).0) "Create Error reference failed"

-- The error of a value with the errors of its causes, the outermost first, and the number of values that
-- are converted for it. An exception that the read of `cause` raises is converted as well, but it is
-- not a cause. A value whose reference is refused has the error of that, and no cause.
pub data Caused (h : Values) : ℕ → ℕ → Chain → Type 0 where
  last :
      {v : ℕ} → is_ok (h.reference v).0 ≡ true → IsLast h v → Caused h 1 v (single (own_error h v))
  unreferenced :
      {v : ℕ} → is_ok (h.reference v).0 ≡ false → Caused h 1 v (single (reference_error h v))
  with_cause :
      {n v w : ℕ} {t : ValueType} {c : Chain}
      → is_ok (h.reference v).0 ≡ true
      → h.get_type v ≡ ok object
      → h.get_cause v ≡ value w
      → h.get_type w ≡ ok t
      → t ≢ undefined
      → t ≢ null
      → Caused h n w c
      → Caused h (suc n) v (caused (own_error h v) c)
  raising :
      {n v w : ℕ} {c : Chain}
      → is_ok (h.reference v).0 ≡ true
      → h.get_type v ≡ ok object
      → h.get_cause v ≡ exception w
      → Caused h n w c
      → Caused h (suc n) v (single (own_error h v))

-- What a value is converted to, given what its next value is.
data View (h : Values) (v : ℕ) : Type 0 where
  ends : (e : Error) → import_value h v ≡ (e, stop) → Caused h 1 v (single e) → View h v
  goes_on :
      (e : Error) (w : ℕ)
      → import_value h v ≡ (e, cause w)
      → ((n : ℕ) (c : Chain) → Caused h n w c → Caused h (suc n) v (caused e c))
      → View h v
  goes_aside :
      (e : Error) (w : ℕ)
      → import_value h v ≡ (e, ignored w)
      → ((n : ℕ) (c : Chain) → Caused h n w c → Caused h (suc n) v (single e))
      → View h v
