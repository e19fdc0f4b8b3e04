-- ===== src/AsyncWork/Tests.antt =====
-- Runs of a work and of an abort signal, and their theorems at concrete inputs.
use ohos_rs.Common.{ℕ, ◌+◌, ◌≤◌, false, none, some, List, [], ◌∷◌, ◌≡◌, refl, length, All}
use ohos_rs.Common.Int.{pos}
use ohos_rs.Error.{ok, err, check_status, ◌>>=◌}
use ohos_rs.AsyncWork.{
  Task, AsyncWork, AsyncWorkPromise, utility, RunReplies, CompleteReplies, run, execute,
  complete_impl, settle_value,
}
use ohos_rs.AsyncWork.Settling.{resolved, settlement_of, promised, settlements, IsRejection}
use ohos_rs.AsyncWork.Life.{
  executed, cancelled, aborted, completion, run_events, start, run_events_settle_once,
}
use ohos_rs.AsyncWork.Life.Cancelled.{run_events-rejects}
use ohos_rs.AsyncWork.Life.Outcome.{run_settles}
use ohos_rs.AsyncWork.Signal.{AbortSignal, on_abort_impl}

-- The output 20 is resolved to 21 and is converted to 42.
abbrev task : Task ℕ ℕ ℕ
task = record {
  compute = ok 20;
  resolve = λ s o. (ok (o + 1), s);
  reject = λ s e. (err e, s);
  convert = λ j. ok (j + j);
  finally = ok tt;
}

abbrev replies : RunReplies
replies = record {
  undefined = pos 0;
  promise = pos 0;
  work = pos 0;
  queued = pos 0;
  raw_promise = 3;
  raw_deferred = 4;
  raw_work = 5;
}

abbrev granted : CompleteReplies
granted = record {
  error = ok tt;
  name = ok tt;
  rejected = pos 0;
  resolved = pos 0;
  deleted = pos 0;
}

abbrev handed : AsyncWorkPromise
handed = record { napi_async_work = 5; raw_promise = 3 }

abbrev work : AsyncWork ℕ ℕ ℕ
work = record { inner_task = task; deferred = 4; value = none; napi_async_work = 5; status = 0 }

settled_value :
    (run_events (executed ∷ completion (pos 0) granted ∷ []) (start work)).settled
    ≡ resolved 4 42 ∷ []
unfolding run_events start complete_impl settlements check_status execute
settled_value = refl

-- A task that aborts its own signal in `resolve` leaves its promise open for ever.
abbrev self_abort : AsyncWork ℕ ℕ ℕ
self_abort = record work { inner_task = record task { resolve = λ s o. (ok o, 2) } }

left_open :
    (run_events (executed ∷ completion (pos 0) granted ∷ []) (start self_abort)).settled ≡ []
unfolding run_events start complete_impl settlements check_status execute
left_open = refl

run_events_settle_once_example :
    (length (run_events (executed ∷ aborted ∷ completion (pos 0) granted ∷ []) (start work)).settled
      ≤ 1)
    × ((run_events (executed ∷ aborted ∷ completion (pos 0) granted ∷ []) (start work)).undefined
        ≡ false)
run_events_settle_once_example =
    run_events_settle_once (executed ∷ aborted ∷ completion (pos 0) granted ∷ []) work

run_events-rejects_example :
    All IsRejection
      (run_events
        (cancelled handed (pos 9) ∷ executed ∷ completion (pos 0) granted ∷ [])
        (start work)).settled
run_events-rejects_example =
    run_events-rejects (executed ∷ completion (pos 0) granted ∷ []) work handed (pos 9)

run_settles_example :
    (run_events (executed ∷ completion (pos 0) granted ∷ []) (start work)).settled
    ≡ settlement_of 4 (promised task 0 (ok 20) >>= task.convert) ∷ []
run_settles_example =
    run_settles task (some utility) replies granted handed work (unfold run check_status in refl)
      (unfold settle_value in refl)

abbrev signals : List AbortSignal
signals =
    record { raw_work = 1; status = 0; abort = 7 ∷ [] }
    ∷ record { raw_work = 2; status = 1; abort = 8 ∷ [] }
    ∷ record { raw_work = 3; status = 0; abort = 9 ∷ [] }
    ∷ []

-- The third task is still running, but behind one that is completed it is not cancelled.
third_not_cancelled :
    (on_abort_impl signals).0
    ≡ record { raw_work = 1; status = 2; abort = 7 ∷ [] }
      ∷ record { raw_work = 2; status = 1; abort = 8 ∷ [] }
      ∷ record { raw_work = 3; status = 0; abort = 9 ∷ [] }
      ∷ []
unfolding on_abort_impl
third_not_cancelled = refl
