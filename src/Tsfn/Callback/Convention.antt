-- ===== src/Tsfn/Callback/Convention.antt =====
-- What the JavaScript function sees of a queued box.
use ohos_rs.Common.{
  Bool, true, false, List, [], ◌∷◌, ◌++◌, map, ◌≡◌, refl, sym, ap, ◌∙◌, arith, ◌⊎◌, inl, inr,
}
use ohos_rs.Error.{Error, Result, Result-cases, ok, err, new}
use ohos_rs.Tsfn.Call.{CallVariant, direct, with_callback, ReturnCallback, CallJsBackData}
use ohos_rs.Tsfn.Report.{handle_call_js_cb_status}
use ohos_rs.Tsfn.Callback.{
  Arg, null, value, error, Effect, took_box, cleared_exception, called, referenced, returned,
  raised, Site, call_js_cb, convert_value, callback_arg, raised_by, args_of, deliver, refuse,
  dispatch,
}

abbrev pub queued : {T : Type 0} → T → CallVariant → ReturnCallback → Result (CallJsBackData T)
queued t v k = ok (record { payload = t; call_variant = v; callback = k })

module _ {T R J : Type 0} where
  -- The argument lists of the JavaScript calls, and the arguments of the return callbacks.
  abbrev pub calls : List (Effect T R J) → List (List (Arg T R J))
  calls [] = []
  calls (called args ∷ es) = args ∷ calls es
  calls (_ ∷ es) = calls es

  abbrev pub returns : List (Effect T R J) → List (ReturnCallback × Result R)
  returns [] = []
  returns (returned cb r ∷ es) = (cb, r) ∷ returns es
  returns (_ ∷ es) = returns es

  pub calls-append : (es fs : List (Effect T R J)) → calls (es ++ fs) ≡ calls es ++ calls fs
  calls-append [] fs = refl
  calls-append (called args ∷ es) fs = cc (calls-append es fs)
  calls-append (took_box ∷ es) fs = calls-append es fs
  calls-append (cleared_exception ∷ es) fs = calls-append es fs
  calls-append (referenced r ∷ es) fs = calls-append es fs
  calls-append (returned cb r ∷ es) fs = calls-append es fs
  calls-append (raised e ∷ es) fs = calls-append es fs

  calls-deliver :
      (handled : Bool) (s : Site T R J) (vs : List J) (v : CallVariant) (cb : ReturnCallback)
      → calls (deliver T R J handled s vs v cb).1 ≡ args_of T R J handled vs ∷ []
  unfolding deliver callback_arg raised_by
  calls-deliver handled s vs direct cb = refl
  calls-deliver handled s vs with_callback cb = ground arith

  pub effects_alive :
      (handled : Bool) (s : Site T R J) (box : Result (CallJsBackData T))
      → s.env_null ≡ false
      → s.callback_null ≡ false
      → (call_js_cb T R J handled s box).1 ≡ took_box ∷ (dispatch T R J handled s box).1
  unfolding call_js_cb
  effects_alive handled s box env cb = simp (env, cb)

  pub reported_alive :
      (handled : Bool) (s : Site T R J) (box : Result (CallJsBackData T))
      → s.env_null ≡ false
      → s.callback_null ≡ false
      → (call_js_cb T R J handled s box).2
        ≡ (handle_call_js_cb_status (dispatch T R J handled s box).0 s.report).1
  unfolding call_js_cb
  reported_alive handled s box env cb = simp (env, cb)

  pub dispatch_ok :
      (handled : Bool) (s : Site T R J) (d : CallJsBackData T) (vs : List J)
      → s.convert d.payload ≡ ok vs
      → dispatch T R J handled s (ok d) ≡ deliver T R J handled s vs d.call_variant d.callback
  unfolding dispatch convert_value
  dispatch_ok handled s d vs c = ground arith

  pub dispatch_err :
      (handled : Bool) (s : Site T R J) (d : CallJsBackData T) (e : Error)
      → s.convert d.payload ≡ err e
      → dispatch T R J handled s (ok d) ≡ refuse T R J handled s (new e.status e.reason)
  unfolding dispatch convert_value
  dispatch_err handled s d e c = ground arith

  pub converted_args : Result (List J) → List (Arg T R J)
  converted_args (ok vs) = null ∷ map value vs
  converted_args (err e) = error (new e.status e.reason) ∷ []

  -- What a function with the error-first convention is given for a box.
  pub node_args : Site T R J → Result (CallJsBackData T) → List (Arg T R J)
  node_args s (err e) = error e ∷ []
  node_args s (ok d) = converted_args (s.convert d.payload)

  -- With `CalleeHandled` the JavaScript function is called exactly once: with null and the
  -- converted values, or with the error alone, be it the caller's or the conversion's. The
  -- environment and the function have to be there.
  pub error_first :
      (s : Site T R J) (box : Result (CallJsBackData T))
      → s.env_null ≡ false
      → s.callback_null ≡ false
      → calls (call_js_cb T R J true s box).1 ≡ node_args s box ∷ []
  unfolding dispatch convert_value refuse args_of node_args converted_args
  error_first s (err e) env cb = rw (effects_alive true s (err e) env cb)
  error_first s (ok d) env cb = elim (Result-cases (s.convert d.payload)) [
    | inl (vs, c) ↦
        rw (effects_alive true s (ok d) env cb, dispatch_ok true s d vs c)
          (calls-deliver true s vs d.call_variant d.callback)
        ∙ ap (λ r. converted_args r ∷ []) (sym c)
    | inr (e, c) ↦
        rw (effects_alive true s (ok d) env cb, dispatch_err true s d e c) refl
        ∙ ap (λ r. converted_args r ∷ []) (sym c)
  ]

  -- Without it the function is called exactly once with the converted values alone; an error of the
  -- conversion is raised, and the function is not called. The environment and the function have to
  -- be there.
  pub values_only :
      (s : Site T R J) (d : CallJsBackData T)
      → s.env_null ≡ false
      → s.callback_null ≡ false
      → ((vs : List J) × (s.convert d.payload ≡ ok vs)
          × (calls (call_js_cb T R J false s (ok d)).1 ≡ map value vs ∷ []))
        ⊎ ((e : Error) × (s.convert d.payload ≡ err e)
            × ((call_js_cb T R J false s (ok d)).1
                ≡ took_box ∷ raised (new e.status e.reason) ∷ []))
  unfolding refuse args_of
  values_only s d env cb = elim (Result-cases (s.convert d.payload)) [
    | inl (vs, c) ↦ inl (
      vs,
      c,
      rw (effects_alive false s (ok d) env cb, dispatch_ok false s d vs c)
          (calls-deliver false s vs d.call_variant d.callback),
    )
    | inr (e, c) ↦ inr (e, c, rw (effects_alive false s (ok d) env cb, dispatch_err false s d e c))
  ]
