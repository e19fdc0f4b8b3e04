-- ===== src/Promise/Deferred.antt =====
-- A promise that Rust settles from any thread: `JsDeferred` and the engine's call back into
-- `napi_resolve_deferred`, and `execute_tokio_future_with_finalize_callback`, which settles it with the
-- end of a future.
pub mod Settled
use Prim.Native.String.{String}
use ohos_rs.Common.{ℕ, if◌then◌else◌, Option, none, some, List, [], ◌∷◌, ◌++◌}
use ohos_rs.Common.Int.{ℤ}
use ohos_rs.Status.{Status}
use ohos_rs.Error.{Error, Result, ok, err, ◌>>=◌, new, check_status, is_ok}

pub data EngineCall (V : Type 0) : Type 0 where
  create_promise create_name create_tsfn : EngineCall V
  call_tsfn release_tsfn : ℕ → EngineCall V
  resolve : ℕ → V → EngineCall V
  reject : ℕ → Error → EngineCall V
  run_finalizer : ℕ → EngineCall V

-- The handles that the engine makes: the function, and the promise with its deferred. The finalizer is a
-- number; its cell is shared by the clones of a deferred.
pub record JsDeferred : Type 0 where
  pub tsfn : ℕ
  pub finalize_callback : Option ℕ

pub record NewReplies : Type 0 where
  pub promise_made : ℤ
  pub name_made : ℤ
  pub tsfn_made : ℤ
  pub raw_tsfn : ℕ
  pub raw_promise : ℕ

-- `js_deferred_new_raw` and `JsDeferred::new`, with the promise.
unfoldable pub new_deferred :
    {V : Type 0} → NewReplies → Result (JsDeferred × ℕ) × List (EngineCall V)
unfolding check_status
new_deferred r = elim (check_status r.promise_made "Create promise in JsDeferred failed") [
  | err e ↦ (err e, create_promise ∷ [])
  | ok _ ↦ elim (check_status r.name_made "Create async resource name in JsDeferred failed") [
    | err e ↦ (err e, create_promise ∷ create_name ∷ [])
    | ok _ ↦ (
      check_status r.tsfn_made "Create threadsafe function in JsDeferred failed"
          >>= (λ _. ok (record { tsfn = r.raw_tsfn; finalize_callback = none }, r.raw_promise)),
      create_promise ∷ create_name ∷ create_tsfn ∷ [],
    )
  ]
]

unfoldable pub set_finalize_callback : Option ℕ → JsDeferred → JsDeferred
set_finalize_callback f d = record d { finalize_callback = f }

-- What the engine's function is called with. A resolver is what it returns when it is run.
pub record DeferredData (D : Type 0) : Type 0 where
  pub resolver : Result (Result D)
  pub tsfn : ℕ
  pub finalize_callback : Option ℕ

-- `call_tsfn`; `resolve` and `reject` are calls of it.
unfoldable pub call_deferred :
    {D V : Type 0} → JsDeferred → Result (Result D) → DeferredData D × List (EngineCall V)
call_deferred d result = (
  record { resolver = result; tsfn = d.tsfn; finalize_callback = d.finalize_callback },
  call_tsfn d.tsfn ∷ [],
)

pub record ResolveReplies : Type 0 where
  pub called : ℤ
  pub released : ℤ
  pub resolved : ℤ

abbrev finalizer_calls : {V : Type 0} → Option ℕ → List (EngineCall V)
finalizer_calls none = []
finalizer_calls (some f) = run_finalizer f ∷ []

-- The calls up to the settlement, and the error that is left.
unfoldable pub try_resolve :
    {V : Type 0} → ℕ → Result V → ResolveReplies → Result (Unit {0}) × List (EngineCall V)
unfolding check_status
try_resolve deferred result r =
    elim (check_status r.released "Release threadsafe function in JsDeferred failed") [
      | err e ↦ (err e, [])
      | ok _ ↦ elim result [
        | err e ↦ (err e, [])
        | ok v ↦ (check_status r.resolved "Resolve deferred value failed", resolve deferred v ∷ [])
      ]
    ]

-- `napi_resolve_deferred`; the finalizer is taken out of its cell.
unfoldable pub napi_resolve_deferred :
    {D V : Type 0} → (D → Result V) → ℕ → DeferredData D → ResolveReplies → List (EngineCall V)
unfolding try_resolve
napi_resolve_deferred to_napi_value deferred deferred_data r =
    let result = deferred_data.resolver >>= (λ x. x) >>= to_napi_value in
    let (left, calls) = try_resolve deferred result r in
    release_tsfn deferred_data.tsfn ∷ calls ++ (elim left [
      | ok _ ↦ finalizer_calls deferred_data.finalize_callback
      | err e ↦ reject deferred e ∷ finalizer_calls deferred_data.finalize_callback
    ])

-- What a panic carries.
pub data Panic : Type 0 where
  static_str owned_string : String → Panic
  other : Panic

-- How a future ends: with its result, with a panic, or not at all when its runtime is shut down.
pub data FutureEnd (D : Type 0) : Type 0 where
  completed : Result D → FutureEnd D
  panicked : Panic → FutureEnd D
  aborted : FutureEnd D

unfoldable pub panic_error : Panic → Error
unfolding new
panic_error (static_str s) = new Status.generic_failure s
panic_error _ = new Status.generic_failure "Panic in async function"

-- The two tasks of `execute_tokio_future`: the one that awaits the future, and the one that awaits a
-- panic in it. The first has the deferred, the second a clone of it.
unfoldable pub future_call :
    {D V : Type 0} → (D → Result V) → FutureEnd D → Option (Result (Result V))
unfolding panic_error
future_call resolver (completed (ok v)) = some (ok (resolver v))
future_call resolver (completed (err e)) = some (err e)
future_call resolver (panicked p) = some (err (panic_error p))
future_call resolver aborted = none

-- `execute_tokio_future_with_finalize_callback`, and what the engine does with the call: the promise and
-- all the calls. A call that the engine refuses is ignored. An `Unknown` is a value already.
unfoldable pub execute_tokio_future :
    {D V : Type 0}
    → (D → Result V)
    → FutureEnd D
    → Option ℕ
    → ℕ
    → NewReplies
    → ResolveReplies
    → Result ℕ × List (EngineCall V)
unfolding new_deferred set_finalize_callback future_call call_deferred napi_resolve_deferred
execute_tokio_future resolver end finalizer raw_deferred n r =
    let (made, calls) = new_deferred n in
    elim made [
      | err e ↦ (err e, calls)
      | ok (d, promise) ↦ (
        ok promise,
        calls ++ (elim (future_call resolver end) [
          | none ↦ []
          | some result ↦
              (let (deferred_data, called) =
                  call_deferred (set_finalize_callback finalizer d) result in
                if is_ok r.called
                then called ++ napi_resolve_deferred ok raw_deferred deferred_data r
                else called)
        ]),
      )
    ]
