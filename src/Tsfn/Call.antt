-- ===== src/Tsfn/Call.antt =====
-- The calls of a thread-safe function: `call`, `call_with_return_value`, `call_async` and
-- `call_with_priority`, for functions whose callee handles errors and for those whose does not.
pub mod Closing
use Prim.Native.String.{String}
use ohos_rs.Common.{
  ℕ, ◌==◌, if◌then◌else◌, Bool, true, false, List, [], ◌∷◌, ◌≡◌, refl, ◌≢◌, ◌↔◌, Option, none, some,
  arith,
}
use ohos_rs.Common.Int.{ℤ, pos, negsuc}
use ohos_rs.Status.{Status, from_code, from_code-ok}
use ohos_rs.Error.{Error, Result, ok, err, new, from_status, check_status}
use ohos_rs.Tsfn.Handle.{Handle}

pub data CallMode : Type 0 where
  non_blocking blocking : CallMode

pub data Priority : Type 0 where
  immediate high low idle : Priority

unfoldable pub mode_code : CallMode → ℕ
mode_code blocking = 1
mode_code non_blocking = 0

unfoldable pub priority_code : Priority → ℕ
priority_code immediate = 0
priority_code high = 1
priority_code low = 2
priority_code idle = 3

pub data CallVariant : Type 0 where
  direct with_callback : CallVariant

-- The boxed `callback`: the one that ignores its argument, the caller's own, or the sender of an
-- awaiting `call_async`.
pub data ReturnCallback : Type 0 where
  ignore : ReturnCallback
  own : ℕ → ReturnCallback
  send : ReturnCallback

-- How a call reaches the engine's queue.
pub data Via : Type 0 where
  in_mode : ℕ → Via
  with_priority : ℕ → Bool → Via

module _ (T : Type 0) where
  pub record CallJsBackData : Type 0 where
    pub payload : T
    pub call_variant : CallVariant
    pub callback : ReturnCallback

  -- A box that the engine was handed, with the raw function and the way.
  pub record Queued : Type 0 where
    pub raw : ℕ
    pub boxed : Result CallJsBackData
    pub via : Via

  pack : T → CallVariant → ReturnCallback → CallJsBackData
  pack t v cb = record { payload = t; call_variant = v; callback = cb }

  -- `value.map(..)`; a function whose callee does not handle errors boxes an `ok`.
  box_value : Result T → CallVariant → ReturnCallback → Result CallJsBackData
  unfolding pack
  box_value (ok t) v cb = ok (pack t v cb)
  box_value (err e) v cb = err e

  -- The common shape: nothing is queued once the handle is aborted.
  enqueue : Handle → Result CallJsBackData → Via → ℤ → Status × List Queued
  enqueue h box via reply =
      if h.aborted
      then (Status.closing, [])
      else (from_code reply, record { raw = h.raw; boxed = box; via = via } ∷ [])

  -- The functions with `CalleeHandled`.
  unfoldable pub call : Handle → Result T → CallMode → ℤ → Status × List Queued
  unfolding box_value enqueue mode_code
  call h value mode = enqueue h (box_value value direct ignore) (in_mode (mode_code mode))

  unfoldable pub call_with_return_value :
      Handle → Result T → CallMode → ℕ → ℤ → Status × List Queued
  unfolding box_value enqueue mode_code
  call_with_return_value h value mode cb =
      enqueue h (box_value value with_callback (own cb)) (in_mode (mode_code mode))

  unfoldable pub call_with_priority : Handle → Result T → Priority → ℤ → Status × List Queued
  unfolding box_value enqueue priority_code
  call_with_priority h value p =
      enqueue h (box_value value direct ignore) (with_priority (priority_code p) true)

  -- The functions without.
  unfoldable pub call_fatal : Handle → T → CallMode → ℤ → Status × List Queued
  unfolding box_value enqueue mode_code
  call_fatal h t mode = enqueue h (ok (pack t direct ignore)) (in_mode (mode_code mode))

  unfoldable pub call_with_return_value_fatal : Handle → T → CallMode → ℕ → ℤ → Status × List Queued
  unfolding box_value enqueue mode_code
  call_with_return_value_fatal h t mode cb =
      enqueue h (ok (pack t with_callback (own cb))) (in_mode (mode_code mode))

  unfoldable pub call_with_priority_fatal : Handle → T → Priority → ℤ → Status × List Queued
  unfolding box_value enqueue priority_code
  call_with_priority_fatal h t p =
      enqueue h (ok (pack t direct ignore)) (with_priority (priority_code p) true)

  -- `call_async` up to its await: a refusal, or a pending receiver.
  begin_async : Handle → Result CallJsBackData → String → ℤ → Result (Unit {0}) × List Queued
  begin_async h box message reply = if h.aborted then (err (from_status Status.closing), []) else (
    check_status reply message,
    record { raw = h.raw; boxed = box; via = in_mode (mode_code non_blocking) } ∷ [],
  )

  -- What the oneshot receiver yields: the sent value, or `none` once the sender is dropped.
  module _ (R : Type 0) where
    receive : Option (Result R) → Result R
    receive (some r) = r
    receive none =
        err (new Status.generic_failure "Receive value from threadsafe function sender failed")

    -- `canceled` is how the oneshot channel prints its error.
    receive_fatal : String → Option R → Result R
    receive_fatal canceled (some r) = ok r
    receive_fatal canceled none = err (new Status.generic_failure canceled)

    unfoldable pub call_async : Handle → Result T → ℤ → Option (Result R) → Result R × List Queued
    unfolding box_value begin_async receive
    call_async h value reply sent =
        let (begun, queued) =
          begin_async h (box_value value with_callback send) "Threadsafe function call_async failed"
            reply in
        (elim begun [ ok _ ↦ receive sent | err e ↦ err e ], queued)

    unfoldable pub call_async_fatal : String → Handle → T → ℤ → Option R → Result R × List Queued
    unfolding box_value begin_async receive_fatal
    call_async_fatal canceled h t reply sent =
        let (begun, queued) = begin_async h (ok (pack t with_callback send)) "" reply in
        (elim begun [ ok _ ↦ receive_fatal canceled sent | err e ↦ err e ], queued)
