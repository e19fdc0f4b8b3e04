-- ===== src/AsyncWork/Life/Outcome.antt =====
-- The way of a work from `run` to the settlement of its promise.
use ohos_rs.Common.{◌==◌, false, Option, none, some, [], ◌∷◌, ◌≡◌, refl, sym, ap, ◌∙◌, subst, arith}
use ohos_rs.Common.Int.{pos}
use ohos_rs.Error.{Result, ok, err, ◌>>=◌, check_status}
use ohos_rs.AsyncWork.{
  Task, AsyncWork, AsyncWorkPromise, AsyncWorkQos, default, RunReplies, CompleteReplies,
  settle_value, complete_impl, execute, run, queue, new_work,
}
use ohos_rs.AsyncWork.Settling.{complete_impl-settles, settlement_of, promised}
use ohos_rs.AsyncWork.Life.{executed, completion, step, run_events, start, after_completion-settled}

queue-work :
    {O J V : Type 0} (q : AsyncWorkQos) (r : RunReplies) (u : AsyncWork O J V)
    (p : AsyncWorkPromise) (w : AsyncWork O J V)
    → (queue q r u).0 ≡ ok (p, w)
    → w ≡ u
unfolding queue
queue-work q r u p w e = ground (arith, e)

-- The work that `run` hands to the engine.
run-work :
    {O J V : Type 0} (task : Task O J V) (qos : Option AsyncWorkQos) (r : RunReplies)
    (p : AsyncWorkPromise) (w : AsyncWork O J V)
    → (run task none qos r).0 ≡ ok (p, w)
    → w ≡ new_work task none r
unfolding run
run-work task qos r p w e =
    ground
      (arith, e, queue-work (elim qos [ none ↦ default | some q ↦ q ]) r (new_work task none r) p w)

settle_value-execute :
    {O J V : Type 0} (w : AsyncWork O J V) (result : Result O)
    → settle_value (execute w) result ≡ settle_value w result
unfolding settle_value execute
settle_value-execute w (ok o) = refl
settle_value-execute w (err e) = refl

new_work_settles :
    {O J V : Type 0} (task : Task O J V) (r : RunReplies) (c : CompleteReplies)
    → ((settle_value (new_work task none r) task.compute).1 == 2) ≡ false
    → (run_events (executed ∷ completion (pos 0) c ∷ []) (start (new_work task none r))).settled
      ≡ settlement_of r.raw_deferred (promised task 0 task.compute >>= task.convert) ∷ []
unfolding run_events step start execute new_work
new_work_settles task r c k =
    let u = execute (new_work task none r) in
    (after_completion-settled (step executed (start (new_work task none r)))
      (complete_impl (pos 0) c u) _
      (complete_impl-settles (pos 0) c u task.compute refl refl
        (ap (λ x. x.1 == 2) (settle_value-execute (new_work task none r) task.compute) ∙ k))).0
    ∙ (unfold check_status in refl)

-- Once `run` has handed a work without a signal to the engine, and the engine has executed and completed
-- it, its promise is settled: with what the task makes of the result of its computation, the first
-- error being what it is rejected with. The code of `resolve` and `reject` must not cancel the work.
pub run_settles :
    {O J V : Type 0} (task : Task O J V) (qos : Option AsyncWorkQos) (r : RunReplies)
    (c : CompleteReplies) (p : AsyncWorkPromise) (w : AsyncWork O J V)
    → (run task none qos r).0 ≡ ok (p, w)
    → ((settle_value w task.compute).1 == 2) ≡ false
    → (run_events (executed ∷ completion (pos 0) c ∷ []) (start w)).settled
      ≡ settlement_of r.raw_deferred (promised task 0 task.compute >>= task.convert) ∷ []
run_settles task qos r c p w e k =
    subst
      (λ u.
        ((settle_value u task.compute).1 == 2) ≡ false
        → (run_events (executed ∷ completion (pos 0) c ∷ []) (start u)).settled
          ≡ settlement_of r.raw_deferred (promised task 0 task.compute >>= task.convert) ∷ [])
      (sym (run-work task qos r p w e)) (new_work_settles task r c) k
