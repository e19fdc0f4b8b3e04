-- ===== src/AsyncWork.antt =====
-- crates/napi/src/async_work.rs, `ScopedTask` of crates/napi/src/task.rs and the abort signal of
-- crates/napi/src/bindgen_runtime/js_values/task.rs, as they are built for OpenHarmony. `Signal` is the
-- abort signal that JavaScript holds, `Settling` says how the promise of a work ends, and `Life` a work
-- under every sequence of events. The engine is not in the sources: what it answers is an argument of
-- each operation, and what it is asked for is listed in the result.
pub mod Settling
pub mod Life
pub mod Signal
mod Tests
use Prim.Native.String.{String}
use ohos_rs.Common.{
  ℕ, ◌==◌, ◌||◌, if◌then◌else◌, Bool, false, Option, none, some, List, [], ◌∷◌, ◌++◌,
}
use ohos_rs.Common.Int.{ℤ, pos, negsuc}
use ohos_rs.Error.{Error, Result, ok, err, ◌>>=◌, check_status}

pub data AsyncWorkQos : Type 0 where
  background utility default user_initiated : AsyncWorkQos

-- `napi_qos_t` of crates/sys/src/types.rs.
pub data NapiQos : Type 0 where
  napi_qos_background napi_qos_utility napi_qos_default napi_qos_user_initiated : NapiQos

unfoldable pub into_qos : AsyncWorkQos → NapiQos
into_qos background = napi_qos_background
into_qos utility = napi_qos_utility
into_qos default = napi_qos_default
into_qos user_initiated = napi_qos_user_initiated

-- `ScopedTask`, with the conversion of its `JsValue`, `J`, to a value of the engine, `V`. The code of
-- `resolve` and `reject` runs on the main thread and may abort a signal: it gets the shared status, and
-- says what the status is afterwards.
pub record Task (O J V : Type 0) : Type 0 where
  pub compute : Result O
  pub resolve : ℕ → O → Result J × ℕ
  pub reject : ℕ → Error → Result J × ℕ
  pub convert : J → Result V
  pub finally : Result (Unit {0})

-- The box that the engine holds. The shared status is 0 at first, 1 when completed, 2 when cancelled;
-- `value` is `none` as long as it is not written.
pub record AsyncWork (O J V : Type 0) : Type 0 where
  pub inner_task : Task O J V
  pub deferred : ℕ
  pub value : Option (Result O)
  pub napi_async_work : ℕ
  pub status : ℕ

-- What a promise is rejected with: the error named `AbortError`, or one made of an `Error`.
pub data Reason : Type 0 where
  abort_error : Reason
  failure : Error → Reason

pub data EngineCall (V : Type 0) : Type 0 where
  get_undefined create_promise create_work : EngineCall V
  queue_work : ℕ → EngineCall V
  queue_work_with_qos : ℕ → NapiQos → EngineCall V
  cancel_work : ℕ → EngineCall V
  create_error set_name : EngineCall V
  resolve_deferred : ℕ → V → EngineCall V
  reject_deferred : ℕ → Reason → EngineCall V
  run_finally : EngineCall V
  delete_work : ℕ → EngineCall V

-- What the engine answers to `run`, with the handles that it makes.
pub record RunReplies : Type 0 where
  pub undefined : ℤ
  pub promise : ℤ
  pub work : ℤ
  pub queued : ℤ
  pub raw_promise : ℕ
  pub raw_deferred : ℕ
  pub raw_work : ℕ

-- What `run` hands out; the status is shared with the work.
pub record AsyncWorkPromise : Type 0 where
  pub napi_async_work : ℕ
  pub raw_promise : ℕ

-- What the engine and the wrappers of it answer to `complete_impl`.
pub record CompleteReplies : Type 0 where
  pub error : Result (Unit {0})
  pub name : Result (Unit {0})
  pub rejected : ℤ
  pub resolved : ℤ
  pub deleted : ℤ

-- `status == napi_cancelled`.
abbrev pub is_cancelled : ℤ → Bool
is_cancelled (pos n) = n == 11
is_cancelled (negsuc _) = false

module _ {O J V : Type 0} where
  -- The last step of `run`.
  unfoldable pub queue :
      AsyncWorkQos
      → RunReplies
      → AsyncWork O J V
      → Result (AsyncWorkPromise × AsyncWork O J V) × List (EngineCall V)
  unfolding into_qos
  queue qos r w =
      let handed : AsyncWorkPromise = record {
        napi_async_work = w.napi_async_work;
        raw_promise = r.raw_promise;
      } in
      elim qos [
        | default ↦ (
          check_status r.queued "Queue async work failed in async_work::run"
              >>= (λ _. ok (handed, w)),
          queue_work w.napi_async_work ∷ [],
        )
        | default_qos ↦ (
          check_status r.queued "Queue async work failed in async_work::run with qos"
              >>= (λ _. ok (handed, w)),
          queue_work_with_qos w.napi_async_work (into_qos default_qos) ∷ [],
        )
      ]

  -- The box; without a signal its status begins with 0.
  unfoldable pub new_work : Task O J V → Option ℕ → RunReplies → AsyncWork O J V
  new_work task abort_status r = record {
    inner_task = task;
    deferred = r.raw_deferred;
    value = none;
    napi_async_work = r.raw_work;
    status = elim abort_status [ none ↦ 0 | some n ↦ n ];
  }

  -- `run`, with the box that the engine is given.
  unfoldable pub run :
      Task O J V
      → Option ℕ
      → Option AsyncWorkQos
      → RunReplies
      → Result (AsyncWorkPromise × AsyncWork O J V) × List (EngineCall V)
  unfolding queue new_work check_status
  run task abort_status qos r =
      elim (check_status r.undefined "Get undefined failed in async_work::run") [
        | err e ↦ (err e, get_undefined ∷ [])
        | ok _ ↦ elim (check_status r.promise "Create promise failed in async_work::run") [
          | err e ↦ (err e, get_undefined ∷ create_promise ∷ [])
          | ok _ ↦ elim (check_status r.work "Create async work failed in async_work::run") [
            | err e ↦ (err e, get_undefined ∷ create_promise ∷ create_work ∷ [])
            | ok _ ↦
                (let (result, calls) =
                    queue (elim qos [ none ↦ default | some q ↦ q ]) r
                      (new_work task abort_status r) in
                  (result, get_undefined ∷ create_promise ∷ create_work ∷ calls))
          ]
        ]
      ]

  -- `AsyncWorkPromise::cancel`.
  unfoldable pub cancel :
      AsyncWorkPromise
      → ℤ
      → AsyncWork O J V
      → Result (Unit {0}) × AsyncWork O J V × List (EngineCall V)
  unfolding check_status
  cancel p reply w = (
    check_status reply "Cancel async work failed",
    record w { status = 2 },
    cancel_work p.napi_async_work ∷ [],
  )

  -- `execute`, on a thread of the engine.
  unfoldable pub execute : AsyncWork O J V → AsyncWork O J V
  execute w = record w { value = some (w.inner_task.compute) }

  -- The end of `complete_impl`.
  unfoldable pub finish :
      AsyncWork O J V → CompleteReplies → Result (Unit {0}) × List (EngineCall V)
  unfolding check_status
  finish w r = elim w.inner_task.finally [
    | err e ↦ (err e, run_finally ∷ [])
    | ok _ ↦ (
      check_status r.deleted "Delete async work failed",
      run_finally ∷ delete_work w.napi_async_work ∷ [],
    )
  ]

  -- The branch of a work that was cancelled.
  unfoldable pub reject_abort :
      AsyncWork O J V → CompleteReplies → Result (Unit {0}) × List (EngineCall V)
  unfolding check_status
  reject_abort w r = elim r.error [
    | err e ↦ (err e, create_error ∷ [])
    | ok _ ↦ elim r.name [
      | err e ↦ (err e, create_error ∷ set_name ∷ [])
      | ok _ ↦ (
        check_status r.rejected "Reject AbortError failed",
        create_error ∷ set_name ∷ reject_deferred w.deferred abort_error ∷ [],
      )
    ]
  ]

  -- What the task makes of its result, and the shared status afterwards.
  unfoldable pub settle_value : AsyncWork O J V → Result O → Result J × ℕ
  settle_value w (ok output) = w.inner_task.resolve w.status output
  settle_value w (err e) = w.inner_task.reject w.status e

  unfoldable pub settle :
      AsyncWork O J V → CompleteReplies → Result V → Result (Unit {0}) × List (EngineCall V)
  unfolding check_status
  settle w r (ok v) =
      (check_status r.resolved "Resolve promise failed", resolve_deferred w.deferred v ∷ [])
  settle w r (err e) =
      (check_status r.rejected "Reject promise failed", reject_deferred w.deferred (failure e) ∷ [])

  unfoldable pub then_finish :
      AsyncWork O J V
      → CompleteReplies
      → ℕ
      → Result (Unit {0}) × List (EngineCall V)
      → Result (Unit {0}) × ℕ × List (EngineCall V)
  unfolding finish
  then_finish w r status (err e, calls) = (err e, w.status, calls)
  then_finish w r status (ok _, calls) =
      (let (result, rest) = finish w r in (result, status, calls ++ rest))

  -- `complete_impl`, with the shared status that it leaves; `none` is the read of a value that was
  -- never written.
  unfoldable pub complete_impl :
      ℤ → CompleteReplies → AsyncWork O J V → Option (Result (Unit {0}) × ℕ × List (EngineCall V))
  unfolding check_status reject_abort settle_value settle then_finish
  complete_impl status r w =
      if is_cancelled status || (w.status == 2)
      then some (then_finish w r w.status (reject_abort w r))
      else elim w.value [
        | none ↦ none
        | some result ↦
            (let (value, shared) = settle_value w result in
              some (
                if shared == 2
                then then_finish (record w { status = shared }) r 1 (ok tt, [])
                else then_finish (record w { status = shared }) r 1
                    (settle w r
                      (check_status status "" >>= (λ _. value) >>= w.inner_task.convert))))
      ]
