-- ===== src/AsyncWork/Life/Cancelled.antt =====
-- A work that was cancelled before its completion.
use ohos_rs.Common.{All-append, false, List, [], ◌∷◌, ◌≡◌, refl, sym, subst, arith, All}
use ohos_rs.Common.Int.{ℤ}
use ohos_rs.AsyncWork.{
  AsyncWork, AsyncWorkPromise, CompleteReplies, reject_abort, complete_impl, execute, cancel,
}
use ohos_rs.AsyncWork.Settling.{settlements, complete_impl-reject_abort, IsRejection}
use ohos_rs.AsyncWork.Life.{
  World, Event, executed, cancelled, aborted, completion, abort_status, after_completion, step,
  run_events, start, after_completion-settled,
}

module _ {O J V : Type 0} where
  -- A work that was cancelled before its completion.
  record IsCancelled (w : World O J V) : Type 0 where
    marked : w.completed ≡ false → w.work.status ≡ 2
    only_rejections : All IsRejection w.settled

  reject_abort-rejects :
      (w : AsyncWork O J V) (r : CompleteReplies)
      → All IsRejection (settlements (reject_abort w r).1)
  unfolding reject_abort settlements IsRejection
  reject_abort-rejects w r = ground arith

  completion-IsCancelled :
      (status : ℤ) (r : CompleteReplies) (w : World O J V)
      → w.completed ≡ false
      → IsCancelled w
      → IsCancelled (after_completion w (complete_impl status r w.work))
  completion-IsCancelled status r w c s =
      let e = complete_impl-reject_abort status r w.work (ground (arith, s.marked c)) in
      let (f, u, d) =
        after_completion-settled w (complete_impl status r w.work)
          (settlements (reject_abort w.work r).1) e in
      record {
        marked = λ p. absurd (cc);
        only_rejections = subst (All IsRejection) (sym f) (
            All-append IsRejection w.settled (settlements (reject_abort w.work r).1)
              s.only_rejections (reject_abort-rejects w.work r));
      }

  step-IsCancelled : (e : Event) (w : World O J V) → IsCancelled w → IsCancelled (step e w)
  unfolding step execute cancel abort_status
  step-IsCancelled executed w s = ground arith
  step-IsCancelled (cancelled p reply) w s = ground arith
  step-IsCancelled aborted w s = ground arith
  step-IsCancelled (completion status r) w s = ground (arith, completion-IsCancelled status r w)

  run_events-IsCancelled :
      (es : List Event) (w : World O J V) → IsCancelled w → IsCancelled (run_events es w)
  unfolding run_events
  run_events-IsCancelled [] w s = s
  run_events-IsCancelled (e ∷ es) w s =
      run_events-IsCancelled es (step e w) (step-IsCancelled e w s)

  -- Once a work has been cancelled before its completion, its promise is never resolved, whatever the
  -- engine answers to the cancellation and whatever happens later.
  pub run_events-rejects :
      (es : List Event) (w : AsyncWork O J V) (p : AsyncWorkPromise) (reply : ℤ)
      → All IsRejection (run_events (cancelled p reply ∷ es) (start w)).settled
  unfolding run_events step cancel start
  run_events-rejects es w p reply =
      (run_events-IsCancelled es (step (cancelled p reply) (start w))
        (record { marked = λ q. refl; only_rejections = tt })).only_rejections
