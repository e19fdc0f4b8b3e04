-- ===== src/Error/Chain.antt =====
-- An `Error` with its chain of causes, and its conversions to JavaScript: `Drop`, `to_napi_value`,
-- `JsError::into_value` and `throw_into` of crates/napi/src/error.rs, in a build without debug
-- assertions. The engine makes the strings and the errors that it is asked for; what else it answers is
-- an argument, for each link of the chain by its depth.
pub mod GivenBack
use mathlib.Core.Option
use Prim.Native.String.{String}
use ohos_rs.Common.{ℕ, suc, ◌==◌, if◌then◌else◌, Bool, Option, none, some, List, [], ◌∷◌, ◌++◌}
use ohos_rs.Common.Int.{ℤ, pos}
use ohos_rs.Status.{Status, as_ref}
use ohos_rs.Error.{Error, Result, ok, err, check_status, is_ok}

-- `cause` is `none` for `single`, and a boxed error for `caused`.
pub data Chain : Type 0 where
  single : Error → Chain
  caused : Error → Chain → Chain

abbrev pub head : Chain → Error
head (single e) = e
head (caused e _) = e

unfoldable pub set_cause : Chain → Chain → Chain
set_cause (single e) c = caused e c
set_cause (caused e _) c = caused e c

-- The engine's functions on references.
pub data RefCall : Type 0 where
  get_value increase unref delete : ℕ → RefCall

-- What the engine answers about a reference, and to the calls of `Drop`. A count is written only when
-- the call succeeds.
pub record RefReplies : Type 0 where
  pub value : ℤ × ℕ
  pub unref_reply : ℤ × ℕ
  pub deleted : ℤ
  pub drop_unref : ℤ × ℕ
  pub is_error : Bool
  pub cause_set : ℤ

-- The variable `ref_count` after `napi_reference_unref`.
abbrev pub count_after : ℤ × ℕ → ℕ
count_after r = if is_ok r.0 then r.1 else 0

-- `Drop for Error`; that a call fails is only printed.
unfoldable pub drop_error : Error → ℤ × ℕ → List RefCall
drop_error e r =
    if e.maybe_raw == 0
    then []
    else (unref e.maybe_raw ∷ (if count_after r == 0 then delete e.maybe_raw ∷ [] else []))

-- The fields are dropped after the error itself.
unfoldable pub drop_chain : Chain → (ℕ → RefReplies) → ℕ → List RefCall
drop_chain (single e) ans d = drop_error e ((ans d).drop_unref)
drop_chain (caused e c) ans d = drop_error e ((ans d).drop_unref) ++ drop_chain c ans (suc d)

unfoldable pub drop_cause : Chain → (ℕ → RefReplies) → ℕ → List RefCall
unfolding drop_chain
drop_cause (single _) ans d = []
drop_cause (caused _ c) ans d = drop_chain c ans (suc d)

-- The constructor of the error in JavaScript, one for each type that `impl_object_methods!` names.
pub data Kind : Type 0 where
  js_error js_type_error js_range_error js_syntax_error : Kind

-- A value of the engine, or an error that was made: its kind, code, message and cause.
pub data JsValue : Type 0 where
  existing : ℕ → JsValue
  made : Kind → String → String → JsValue
  made_with_cause : Kind → String → String → JsValue → JsValue

-- `to_napi_value` where `maybe_raw` is set. A failed step returns before the reference is reset, so
-- `Drop` gives it back once more.
unfoldable pub take_value : Error → RefReplies → Result JsValue × List RefCall
unfolding drop_error
take_value e r =
    let raw = e.maybe_raw in
    let dropped = drop_error e r.drop_unref in
    elim (check_status r.value.0 "Get error reference in `to_napi_value` failed") [
      | err x ↦ (err x, get_value raw ∷ dropped)
      | ok _ ↦
          elim (check_status r.unref_reply.0 "Unref error reference in `to_napi_value` failed") [
            | err x ↦ (err x, get_value raw ∷ unref raw ∷ dropped)
            | ok _ ↦
                if r.unref_reply.1 == 0
                then elim (check_status r.deleted
                    "Delete error reference in `to_napi_value` failed") [
                      | err x ↦ (err x, get_value raw ∷ unref raw ∷ delete raw ∷ dropped)
                      | ok _ ↦
                          (ok (existing r.value.1), get_value raw ∷ unref raw ∷ delete raw ∷ [])
                    ]
                else (ok (existing r.value.1), get_value raw ∷ unref raw ∷ [])
          ]
    ]

-- The three calls of `into_value` on a reference, whatever they answer.
unfoldable pub give_back : ℕ → RefReplies → List RefCall
give_back raw r =
    get_value raw ∷ unref raw ∷ (if count_after r.unref_reply == 0 then delete raw ∷ [] else [])

-- `into_value` where the value of a reference is used as it is.
unfoldable pub is_existing : Error → RefReplies → Option ℕ
is_existing e r = if e.maybe_raw == 0 then none else if r.is_error then some r.value.1 else none

unfoldable pub begin_value : Error → RefReplies → List RefCall
unfolding give_back
begin_value e r = if e.maybe_raw == 0 then [] else give_back e.maybe_raw r

-- The error that `into_value` makes, and then the property `cause` of it.
unfoldable pub make_error : Kind → Error → JsValue
make_error k e = made k (as_ref e.status) e.reason

unfoldable pub make_with_cause : Kind → Error → ℤ → JsValue → JsValue
unfolding make_error
make_with_cause k e set cause =
    if is_ok set then made_with_cause k (as_ref e.status) e.reason cause else make_error k e

-- `to_napi_value`, with what `into_value` makes of the same error.
unfoldable pub to_value_with :
    Option JsValue × List RefCall
    → Chain
    → (ℕ → RefReplies)
    → ℕ
    → Option (Result JsValue) × List RefCall
unfolding take_value drop_cause
to_value_with whole c ans d =
    if (head c).maybe_raw == 0
    then (Option.map ok whole.0, whole.1)
    else (let (r, calls) = take_value (head c) (ans d) in (some r, calls ++ drop_cause c ans d))

-- `JsError::into_value`, and the other kinds; `none` is the panic of `expect`. The causes are made by
-- `napi_create_error`.
unfoldable pub into_value : Kind → Chain → (ℕ → RefReplies) → ℕ → Option JsValue × List RefCall
unfolding begin_value is_existing make_error make_with_cause to_value_with drop_cause
into_value k (single e) ans d = elim (is_existing e (ans d)) [
  | some v ↦ (some (existing v), begin_value e (ans d))
  | none ↦ (some (make_error k e), begin_value e (ans d))
]
into_value k (caused e c) ans d = elim (is_existing e (ans d)) [
  | some v ↦ (some (existing v), begin_value e (ans d) ++ drop_cause (caused e c) ans d)
  | none ↦
      (let (cause, calls) = to_value_with (into_value js_error c ans (suc d)) c ans (suc d) in
        (
          elim cause [
            | none ↦ none
            | some (err _) ↦ none
            | some (ok v) ↦ some (make_with_cause k e ((ans d).cause_set) v)
          ],
          begin_value e (ans d) ++ calls,
        ))
]

-- `ToNapiValue for Error`.
unfoldable pub to_napi_value : Chain → (ℕ → RefReplies) → ℕ → Option (Result JsValue) × List RefCall
unfolding to_value_with
to_napi_value c ans d = to_value_with (into_value js_error c ans d) c ans d

-- `try_clone`: the same reference, without the cause.
unfoldable pub try_clone : Chain → ℤ → Result Chain × List RefCall
try_clone c reply =
    let e = head c in
    if e.maybe_raw == 0
    then (ok (single e), [])
    else elim (check_status reply "Failed to increase error reference count") [
      | err x ↦ (err x, increase e.maybe_raw ∷ [])
      | ok _ ↦ (ok (single e), increase e.maybe_raw ∷ [])
    ]

-- What `throw_into` does about an exception that is pending.
pub data Throw : Type 0 where
  left_pending : Throw
  thrown_again : Throw
  thrown : JsValue → Throw

-- `throw_into`; the engine answers whether an exception is pending.
unfoldable pub throw_into : Kind → Chain → (ℕ → RefReplies) → Bool → Option Throw × List RefCall
unfolding into_value
throw_into k c ans pending = elim (head c).status [
  | Status.pending_exception ↦ (some left_pending, drop_chain c ans 0)
  | _ ↦
      if pending
      then (some thrown_again, drop_chain c ans 0)
      else (let (v, calls) = into_value k c ans 0 in (Option.map thrown v, calls))
]
