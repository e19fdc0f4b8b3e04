-- ===== src/Tsfn/Callback.antt =====
-- `call_js_cb`: the engine hands the queued box back on the main thread, and the JavaScript function
-- is called. `T` is the payload, `R` the awaited return value, `J` a value of the engine.
pub mod Convention
pub mod Returns
pub mod Answer
use Prim.Native.String.{String}
use ohos_rs.Common.{ℕ, ◌==◌, if◌then◌else◌, Bool, true, false, ◌||◌, List, [], ◌∷◌, ◌++◌, map}
use ohos_rs.Common.Int.{ℤ, pos, negsuc}
use ohos_rs.Status.{Status, from_code}
use ohos_rs.Error.{Error, Result, ok, err, new, ◌>>=◌}
use ohos_rs.Tsfn.Handle.{Outcome, finished, panicked}
use ohos_rs.Tsfn.Call.{
  CallVariant, direct, with_callback, ReturnCallback, ignore, own, send, CallJsBackData,
}
use ohos_rs.Tsfn.Report.{ReportReplies, ReportEffect, handle_call_js_cb_status, is_pending}

module _ (T R J : Type 0) where
  -- An argument of the JavaScript function.
  pub data Arg : Type 0 where
    null : Arg
    value : J → Arg
    error : Error → Arg

  pub data Effect : Type 0 where
    took_box cleared_exception : Effect
    called : List Arg → Effect
    referenced : ℕ → Effect
    returned : ReturnCallback → Result R → Effect
    raised : Error → Effect

  -- What the engine, the user's conversion and the callers' own return callbacks answer.
  pub record Site : Type 0 where
    pub env_null : Bool
    pub callback_null : Bool
    pub convert : T → Result (List J)
    pub call_function : List Arg → ℤ × J
    pub exception : J
    pub reference : ℤ × ℕ
    pub message : J → Result String
    pub from_value : J → Result R
    pub own_callback : ℕ → Result R → Result (Unit {0})
    pub fatal_status : ℤ
    pub report : ReportReplies

  -- `val.and_then(..)`: the arguments, or the error with its status and reason alone.
  convert_value : Site → Result (CallJsBackData T) → Result (List J × CallVariant × ReturnCallback)
  convert_value s (err e) = err e
  convert_value s (ok d) = elim (s.convert d.payload) [
    | ok vs ↦ ok (vs, d.call_variant, d.callback)
    | err e ↦ err (new e.status e.reason)
  ]

  -- The status to go on with, the argument of the return callback and what was done for it. The causes
  -- of the exception, which become the cause of its error as in Error.Import, are left out.
  callback_arg : Site → ℤ → J → ℤ × Result R × List Effect
  callback_arg s status return_value =
      if is_pending status
      then (
        s.reference.0,
        s.message s.exception >>= λ reason.
            err (record { status = from_code status; reason = reason; maybe_raw = s.reference.1 }),
        cleared_exception ∷ referenced s.reference.1 ∷ [],
      )
      else (status, s.from_value return_value, [])

  -- The boxed return callbacks: the sender of a function whose callee handles errors sends them too,
  -- the other one hands them on. That the receiver is gone is ignored.
  pub run_callback : Bool → Site → ReturnCallback → Result R → Result (Unit {0})
  run_callback handled s ignore r = ok tt
  run_callback handled s (own i) r = s.own_callback i r
  run_callback true s send r = ok tt
  run_callback false s send (ok _) = ok tt
  run_callback false s send (err e) = err e

  raised_by : Result (Unit {0}) → List Effect
  raised_by (ok _) = []
  raised_by (err e) = raised e ∷ []

  pub args_of : Bool → List J → List Arg
  args_of true vs = null ∷ map value vs
  args_of false vs = map value vs

  -- The branch of a value that was converted.
  pub deliver : Bool → Site → List J → CallVariant → ReturnCallback → ℤ × List Effect
  unfolding args_of callback_arg raised_by
  deliver handled s vs variant cb =
      let args = args_of handled vs in
      let (status, return_value) = s.call_function args in
      elim variant [
        | direct ↦ (status, called args ∷ [])
        | with_callback ↦
            let (status', arg, done) = callback_arg s status return_value in
            (
              status',
              called args ∷ done ++ returned cb arg ∷ raised_by (run_callback handled s cb arg),
            )
      ]

  -- The branches of an error.
  pub refuse : Bool → Site → Error → ℤ × List Effect
  refuse true s e = ((s.call_function (error e ∷ [])).0, called (error e ∷ []) ∷ [])
  refuse false s e = (s.fatal_status, raised e ∷ [])

  pub dispatch : Bool → Site → Result (CallJsBackData T) → ℤ × List Effect
  unfolding convert_value deliver refuse
  dispatch handled s box = elim (convert_value s box) [
    | ok (vs, variant, cb) ↦ deliver handled s vs variant cb
    | err e ↦ refuse handled s e
  ]

  unfoldable pub call_js_cb :
      Bool → Site → Result (CallJsBackData T) → Outcome (Unit {0}) × List Effect × List ReportEffect
  unfolding dispatch
  call_js_cb handled s box =
      if s.env_null || s.callback_null
      then (finished tt, [], [])
      else let (status, done) = dispatch handled s box in
        let (end, reported) = handle_call_js_cb_status status s.report in
        (end, took_box ∷ done, reported)
