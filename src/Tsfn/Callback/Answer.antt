-- ===== src/Tsfn/Callback/Answer.antt =====
-- What an awaiting `call_async` receives, from the call on its thread through the queue and the
-- JavaScript function back to the oneshot channel.
use Prim.Native.String.{String}
use ohos_rs.Common.{Bool, true, false, List, [], ◌∷◌, ◌≡◌, refl, ap, ◌∙◌, Option, none, some}
use ohos_rs.Common.Int.{ℤ, pos}
use ohos_rs.Status.{Status}
use ohos_rs.Error.{Result, ok, err, new, check_status}
use ohos_rs.Tsfn.Handle.{Handle}
use ohos_rs.Tsfn.Call.{
  with_callback, ReturnCallback, ignore, own, send, Queued, in_mode, call_async, call_async_fatal,
  mode_code,
}
use ohos_rs.Tsfn.Callback.{Site, call_js_cb}
use ohos_rs.Tsfn.Callback.Convention.{returns, queued}
use ohos_rs.Tsfn.Callback.Returns.{js_result, returns_once}

-- What the sender in the box has sent: with `CalleeHandled` the result, else a value only.
abbrev pub first_sent : {R : Type 0} → List (ReturnCallback × Result R) → Option (Result R)
first_sent [] = none
first_sent ((send, r) ∷ _) = some r
first_sent ((ignore, _) ∷ rs) = first_sent rs
first_sent ((own _, _) ∷ rs) = first_sent rs

abbrev pub value_of : {R : Type 0} → Option (Result R) → Option R
value_of (some (ok r)) = some r
value_of (some (err _)) = none
value_of none = none

-- What the awaiting thread is left with of a result when only values are sent.
pub value_or_canceled : {R : Type 0} → String → Result R → Result R
unfolding new
value_or_canceled canceled (ok r) = ok r
value_or_canceled canceled (err _) = err (new Status.generic_failure canceled)

module _ {T R J : Type 0} where
  abbrev pub sent_through : Bool → Site T R J → List (Queued T) → Option (Result R)
  sent_through handled s [] = none
  sent_through handled s (q ∷ _) = first_sent (returns (call_js_cb T R J handled s q.boxed).1)

  -- The whole way of one call: its box runs at the site before the receiver is read.
  abbrev pub await : Handle → Result T → ℤ → Site T R J → Result R
  await h v reply s =
      (call_async T R h v reply (sent_through true s (call_async T R h v reply none).1)).0

  abbrev pub await_fatal : String → Handle → T → ℤ → Site T R J → Result R
  await_fatal canceled h t reply s =
      (call_async_fatal T R canceled h t reply
        (value_of (sent_through false s (call_async_fatal T R canceled h t reply none).1))).0

  accepted :
      (h : Handle) (t : T) (s : Site T R J) (o : Option (Result R))
      → h.aborted ≡ false
      → call_async T R h (ok t) (pos 0) o ≡ (
        elim o [
          | some r ↦ r
          | none ↦
              err
                (new Status.generic_failure "Receive value from threadsafe function sender failed")
        ],
        record { raw = h.raw; boxed = queued t with_callback send; via = in_mode 0 } ∷ [],
      )
  unfolding call_async check_status mode_code
  accepted h t s (some r) live = simp live
  accepted h t s none live = simp live

  -- With `CalleeHandled`: once the engine accepts the call and the value is converted, the await
  -- yields what the function returned, or its exception as an error. The environment, the function
  -- and the handle have to be there, and the exception has to have a message.
  pub await_answer :
      (h : Handle) (t : T) (s : Site T R J) (vs : List J) (m : String)
      → h.aborted ≡ false
      → s.env_null ≡ false
      → s.callback_null ≡ false
      → s.convert t ≡ ok vs
      → s.message s.exception ≡ ok m
      → await h (ok t) (pos 0) s ≡ js_result true s vs m
  await_answer h t s vs m live env cb c q =
      ap (λ o. (call_async T R h (ok t) (pos 0) o).0)
        (ap (λ p. sent_through true s p.1) (accepted h t s none live)
          ∙ ap first_sent (returns_once true s t send vs m env cb c q).1)
      ∙ ap (λ p. p.0) (accepted h t s (some (js_result true s vs m)) live)

  accepted_fatal :
      (canceled : String) (h : Handle) (t : T) (s : Site T R J) (o : Option R)
      → h.aborted ≡ false
      → call_async_fatal T R canceled h t (pos 0) o ≡ (
        elim o [ some r ↦ ok r | none ↦ err (new Status.generic_failure canceled) ],
        record { raw = h.raw; boxed = queued t with_callback send; via = in_mode 0 } ∷ [],
      )
  unfolding call_async_fatal check_status mode_code
  accepted_fatal canceled h t s (some r) live = simp live
  accepted_fatal canceled h t s none live = simp live

  -- Without `CalleeHandled`: the await yields a value that was returned and read, and a generic
  -- failure in place of an exception or of a value that cannot be read; their messages are lost to
  -- the awaiting thread. The environment, the function and the handle have to be there, and the
  -- exception has to have a message.
  pub await_fatal_answer :
      (canceled : String) (h : Handle) (t : T) (s : Site T R J) (vs : List J) (m : String)
      → h.aborted ≡ false
      → s.env_null ≡ false
      → s.callback_null ≡ false
      → s.convert t ≡ ok vs
      → s.message s.exception ≡ ok m
      → await_fatal canceled h t (pos 0) s ≡ value_or_canceled canceled (js_result false s vs m)
  unfolding value_or_canceled new
  await_fatal_answer canceled h t s vs m live env cb c q =
      ap (λ o. (call_async_fatal T R canceled h t (pos 0) o).0)
        (ap (λ p. value_of (sent_through false s p.1)) (accepted_fatal canceled h t s none live)
          ∙ ap (λ x. value_of (first_sent x)) (returns_once false s t send vs m env cb c q).1)
      ∙ ap (λ p. p.0)
          (accepted_fatal canceled h t s (value_of (some (js_result false s vs m))) live)
      ∙ left (js_result false s vs m)
    where
      left :
          (r : Result R)
          → elim (value_of (some r)) [
            | some v ↦ ok v
            | none ↦ err (new Status.generic_failure canceled)
          ]
            ≡ value_or_canceled canceled r
      left (ok r) = refl
      left (err e) = refl
