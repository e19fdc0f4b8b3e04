-- ===== src/Promise/Deferred/Settled.antt =====
-- How a promise that is bound to a future is settled.
use ohos_rs.Common.{ℕ, true, Option, none, some, List, [], ◌∷◌, ◌≡◌, arith}
use ohos_rs.Error.{Error, Result, ok, err, ◌>>=◌, check_status, is_ok}
use ohos_rs.Promise.Deferred.{
  EngineCall, resolve, reject, run_finalizer, NewReplies, new_deferred, set_finalize_callback,
  DeferredData, call_deferred, ResolveReplies, try_resolve, napi_resolve_deferred, FutureEnd,
  completed, panicked, aborted, panic_error, future_call, execute_tokio_future,
}

pub data Settlement (V : Type 0) : Type 0 where
  resolved : ℕ → V → Settlement V
  rejected : ℕ → Error → Settlement V

module _ {V : Type 0} where
  -- The calls that settle a promise, and the finalizers that are run.
  unfoldable pub settlements : List (EngineCall V) → List (Settlement V)
  settlements [] = []
  settlements (resolve d v ∷ cs) = resolved d v ∷ settlements cs
  settlements (reject d e ∷ cs) = rejected d e ∷ settlements cs
  settlements (_ ∷ cs) = settlements cs

  unfoldable pub finalizers : List (EngineCall V) → List ℕ
  finalizers [] = []
  finalizers (run_finalizer f ∷ cs) = f ∷ finalizers cs
  finalizers (_ ∷ cs) = finalizers cs

  unfoldable pub settlement_of : ℕ → Result V → Settlement V
  settlement_of d (ok v) = resolved d v
  settlement_of d (err e) = rejected d e

abbrev pub to_list {ℓ} : {A : Type ℓ} → Option A → List A
to_list none = []
to_list (some a) = a ∷ []

-- Whatever the resolver, the conversion and the engine answer, the call back into the main thread runs
-- the finalizer exactly once, if there is one, and releases the function that it was queued with.
pub napi_resolve_deferred-finalizers :
    {D V : Type 0} (to_napi_value : D → Result V) (deferred : ℕ) (d : DeferredData D)
    (r : ResolveReplies)
    → finalizers (napi_resolve_deferred to_napi_value deferred d r) ≡ to_list d.finalize_callback
unfolding napi_resolve_deferred try_resolve finalizers check_status
napi_resolve_deferred-finalizers to_napi_value deferred d r = ground arith

-- How a future ends for the promise.
unfoldable pub outcome : {D V : Type 0} → (D → Result V) → FutureEnd D → Option (Result V)
outcome resolver (completed r) = some (r >>= resolver)
outcome resolver (panicked p) = some (err (panic_error p))
outcome resolver aborted = none

-- The engine accepts what it is asked for.
pub record Grants (n : NewReplies) (r : ResolveReplies) : Type 0 where
  pub promise_ok : is_ok n.promise_made ≡ true
  pub name_ok : is_ok n.name_made ≡ true
  pub tsfn_ok : is_ok n.tsfn_made ≡ true
  pub called_ok : is_ok r.called ≡ true
  pub released_ok : is_ok r.released ≡ true
  pub resolved_ok : is_ok r.resolved ≡ true

abbrev pub map_option {ℓ κ} : {A : Type ℓ} {B : Type κ} → (A → B) → Option A → Option B
map_option f none = none
map_option f (some a) = some (f a)

-- A promise that is bound to a future is settled exactly once when the future ends: it is resolved with the
-- result as the resolver converts it, or rejected with the first error, or with the error of a
-- panic. Only a future that is dropped with its runtime leaves it open. The engine has to accept what
-- it is asked for.
pub execute_tokio_future-settles :
    {D V : Type 0} (resolver : D → Result V) (end : FutureEnd D) (finalizer : Option ℕ)
    (raw_deferred : ℕ) (n : NewReplies) (r : ResolveReplies)
    → Grants n r
    → ((execute_tokio_future resolver end finalizer raw_deferred n r).0 ≡ ok n.raw_promise)
      × (settlements (execute_tokio_future resolver end finalizer raw_deferred n r).1
          ≡ to_list (map_option (settlement_of raw_deferred) (outcome resolver end)))
unfolding execute_tokio_future new_deferred set_finalize_callback future_call call_deferred
    napi_resolve_deferred try_resolve settlements settlement_of outcome check_status
execute_tokio_future-settles resolver (completed (ok v)) finalizer raw_deferred n r g = ground arith
execute_tokio_future-settles resolver (completed (err e)) finalizer raw_deferred n r g =
    ground arith
execute_tokio_future-settles resolver (panicked p) finalizer raw_deferred n r g = ground arith
execute_tokio_future-settles resolver aborted finalizer raw_deferred n r g = ground arith
