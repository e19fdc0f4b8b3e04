-- ===== src/Tsfn/Callback/Returns.antt =====
-- What the return callback of a queued box sees.
use Prim.Native.String.{String}
use ohos_rs.Common.{
  if◌then◌else◌, Bool, true, false, List, [], ◌∷◌, ◌≡◌, refl, sym, ap, ◌∙◌, arith, inl, inr,
  Bool-cases,
}
use ohos_rs.Common.Int.{ℤ}
use ohos_rs.Status.{Status}
use ohos_rs.Error.{Error, Result, ok, err}
use ohos_rs.Tsfn.Call.{CallVariant, direct, with_callback, ReturnCallback, CallJsBackData}
use ohos_rs.Tsfn.Report.{handle_call_js_cb_status, is_pending, from_code-pending}
use ohos_rs.Tsfn.Callback.{
  Site, call_js_cb, callback_arg, raised_by, args_of, deliver, run_callback,
}
use ohos_rs.Tsfn.Callback.Convention.{queued, returns, effects_alive, reported_alive, dispatch_ok}

module _ {T R J : Type 0} where
  returns-refused : (s : Site T R J) (x : Result (Unit {0})) → returns (raised_by T R J x) ≡ []
  unfolding raised_by
  returns-refused s (ok _) = refl
  returns-refused s (err e) = refl

  -- The error that a pending exception becomes.
  abbrev pub exception_error : Site T R J → String → Error
  exception_error s m = record {
    status = Status.pending_exception;
    reason = m;
    maybe_raw = s.reference.1;
  }

  -- The answer of the JavaScript function to the converted values.
  abbrev pub answer : Bool → Site T R J → List J → ℤ × J
  answer handled s vs = s.call_function (args_of T R J handled vs)

  -- What the return callback is to get; `m` is the message of the exception.
  pub js_result : Bool → Site T R J → List J → String → Result R
  js_result handled s vs m =
      if is_pending (answer handled s vs).0
      then err (exception_error s m)
      else s.from_value (answer handled s vs).1

  deliver_value :
      (handled : Bool) (s : Site T R J) (vs : List J) (k : ReturnCallback)
      → is_pending (answer handled s vs).0 ≡ false
      → returns (deliver T R J handled s vs with_callback k).1
        ≡ (k, s.from_value (answer handled s vs).1) ∷ []
  unfolding deliver callback_arg
  deliver_value handled s vs k p =
      rw (p, callback_arg)
        (cc (
          returns-refused s
            (run_callback T R J handled s k (s.from_value (answer handled s vs).1))))

  deliver_exception :
      (handled : Bool) (s : Site T R J) (vs : List J) (k : ReturnCallback) (m : String)
      → is_pending (answer handled s vs).0 ≡ true
      → s.message s.exception ≡ ok m
      → (returns (deliver T R J handled s vs with_callback k).1
          ≡ (k, err (exception_error s m)) ∷ [])
        × ((deliver T R J handled s vs with_callback k).0 ≡ s.reference.0)
  unfolding deliver callback_arg
  deliver_exception handled s vs k m p q = ground (
    arith,
    from_code-pending (answer handled s vs).0,
    returns-refused s (run_callback T R J handled s k (err (exception_error s m))),
  )

  deliver_result :
      (handled : Bool) (s : Site T R J) (vs : List J) (k : ReturnCallback) (m : String)
      → s.message s.exception ≡ ok m
      → returns (deliver T R J handled s vs with_callback k).1 ≡ (k, js_result handled s vs m) ∷ []
  unfolding js_result
  deliver_result handled s vs k m q = elim (Bool-cases (is_pending (answer handled s vs).0)) [
    | inl p ↦
        (deliver_exception handled s vs k m p q).0
        ∙ ap
            (λ b.
              (k, if b then err (exception_error s m) else s.from_value (answer handled s vs).1)
              ∷ [])
            (sym p)
    | inr p ↦
        deliver_value handled s vs k p
        ∙ ap
            (λ b.
              (k, if b then err (exception_error s m) else s.from_value (answer handled s vs).1)
              ∷ [])
            (sym p)
  ]

  -- The return callback runs exactly once for a converted value that was queued with one, and never
  -- for one that was queued without. It gets what the function returned, or the pending exception
  -- as an error. The environment and the function have to be there, and the exception has to have
  -- a message.
  pub returns_once :
      (handled : Bool) (s : Site T R J) (t : T) (k : ReturnCallback) (vs : List J) (m : String)
      → s.env_null ≡ false
      → s.callback_null ≡ false
      → s.convert t ≡ ok vs
      → s.message s.exception ≡ ok m
      → (returns (call_js_cb T R J handled s (queued t direct k)).1 ≡ [])
        × (returns (call_js_cb T R J handled s (queued t with_callback k)).1
            ≡ (k, js_result handled s vs m) ∷ [])
  unfolding deliver
  returns_once handled s t k vs m env cb c q = (
    rw (
      effects_alive handled s (queued t direct k) env cb,
      dispatch_ok handled s (item direct) vs c,
    ),
    rw
        (
          effects_alive handled s (queued t with_callback k) env cb,
          dispatch_ok handled s (item with_callback) vs c,
        )
        (deliver_result handled s vs k m q),
  )
    where
      item : CallVariant → CallJsBackData T
      item v = record { payload = t; call_variant = v; callback = k }

  -- An exception that a return callback gets is not reported: the status that goes on is the one of
  -- the reference to the exception. The environment and the function have to be there, and the
  -- exception has to have a message.
  pub exception_not_reported :
      (handled : Bool) (s : Site T R J) (t : T) (k : ReturnCallback) (vs : List J) (m : String)
      → s.env_null ≡ false
      → s.callback_null ≡ false
      → s.convert t ≡ ok vs
      → s.message s.exception ≡ ok m
      → is_pending (answer handled s vs).0 ≡ true
      → (call_js_cb T R J handled s (queued t with_callback k)).2
        ≡ (handle_call_js_cb_status s.reference.0 s.report).1
  exception_not_reported handled s t k vs m env cb c q p = rw (
    reported_alive handled s (queued t with_callback k) env cb,
    dispatch_ok handled s item vs c,
    (deliver_exception handled s vs k m p q).1,
  )
    where
      item : CallJsBackData T
      item = record { payload = t; call_variant = with_callback; callback = k }
