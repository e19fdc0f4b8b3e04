-- ===== src/AsyncWork/Life.antt =====
-- A work from its creation to its end, under every sequence of executions, cancellations, aborts and
-- completions. The engine completes a work once, and only after its computation was run unless it says
-- that the work was cancelled.
pub mod Cancelled
pub mod Outcome
use ohos_rs.Common.{
  ℕ, zero, suc, ◌+◌, ◌≤◌, ◌==◌, ◌||◌, ◌&&◌, not, if◌then◌else◌, Bool, true, false, Option, none,
  some, List, [], ◌∷◌, ◌++◌, ◌≡◌, refl, sym, ap, ◌∙◌, subst, arith, length, inl, inr, Bool-cases,
  Option-cases, All,
}
use ohos_rs.Common.Int.{ℤ, pos}
use ohos_rs.Error.{Error, Result, ok, err, ◌>>=◌, check_status, Result-cases}
use ohos_rs.AsyncWork.{
  Task, AsyncWork, AsyncWorkPromise, AsyncWorkQos, RunReplies, Reason, abort_error, EngineCall,
  CompleteReplies, is_cancelled, reject_abort, settle_value, settle, then_finish, complete_impl,
  execute, cancel, run,
}
use ohos_rs.AsyncWork.Settling.{
  Settlement, resolved, rejected, settlements, complete_impl-reject_abort, complete_impl-open,
  complete_impl-settles, complete_impl-cancelled, settlement_of, settled_by, promised,
}

-- `settled` are the settlements of the promise; `undefined` says that a value was read that was never
-- written.
pub record World (O J V : Type 0) : Type 0 where
  pub work : AsyncWork O J V
  pub completed : Bool
  pub undefined : Bool
  pub settled : List (Settlement V)

pub data Event : Type 0 where
  executed : Event
  cancelled : AsyncWorkPromise → ℤ → Event
  aborted : Event
  completion : ℤ → CompleteReplies → Event

-- What the abort of a signal does to the shared status.
unfoldable pub abort_status : ℕ → ℕ
abort_status s = if s == 1 then s else 2

abbrev pub is_written {ℓ} : {A : Type ℓ} → Option A → Bool
is_written none = false
is_written (some _) = true

module _ {O J V : Type 0} where
  -- The state after `complete_impl`.
  unfoldable pub after_completion :
      World O J V → Option (Result (Unit {0}) × ℕ × List (EngineCall V)) → World O J V
  after_completion w none = record w { completed = true; undefined = true }
  after_completion w (some (_, s, calls)) = record w {
    work = record (w.work) { status = s };
    completed = true;
    settled = w.settled ++ settlements calls;
  }

  unfoldable pub step : Event → World O J V → World O J V
  unfolding execute cancel abort_status after_completion
  step executed w = if w.completed then w else record w { work = execute w.work }
  step (cancelled p reply) w = record w { work = (cancel p reply w.work).1 }
  step aborted w = record w { work = record (w.work) { status = abort_status w.work.status } }
  step (completion status r) w =
      if not w.completed && (is_cancelled status || is_written w.work.value)
      then after_completion w (complete_impl status r w.work)
      else w

  unfoldable pub run_events : List Event → World O J V → World O J V
  unfolding step
  run_events [] w = w
  run_events (e ∷ es) w = run_events es (step e w)

  unfoldable pub start : AsyncWork O J V → World O J V
  start w = record { work = w; completed = false; undefined = false; settled = [] }

  -- Before the completion nothing is settled.
  record IsSound (w : World O J V) : Type 0 where
    at_most_once : length w.settled ≤ 1
    defined : w.undefined ≡ false
    open_until : w.completed ≡ false → w.settled ≡ []

  reject_abort-at_most_once :
      (w : AsyncWork O J V) (r : CompleteReplies) → length (settlements (reject_abort w r).1) ≤ 1
  unfolding reject_abort settlements
  reject_abort-at_most_once w r = ground arith

  -- A completion that the engine's discipline allows reads a value that was written, and settles once at
  -- most.
  complete_impl-at_most_once :
      (status : ℤ) (r : CompleteReplies) (w : AsyncWork O J V)
      → (is_cancelled status || is_written w.value) ≡ true
      → (l : List (Settlement V)) × (settled_by (complete_impl status r w) ≡ some l)
        × (length l ≤ 1)
  complete_impl-at_most_once status r w h =
      elim (Bool-cases (is_cancelled status || (w.status == 2))) [
        | inl c ↦ (
          settlements (reject_abort w r).1,
          complete_impl-reject_abort status r w c,
          reject_abort-at_most_once w r,
        )
        | inr c ↦ elim (Option-cases w.value) [
          | inl v ↦ absurd (ground arith)
          | inr (result, v) ↦ elim (Bool-cases ((settle_value w result).1 == 2)) [
            | inl k ↦ ([], complete_impl-open status r w result c v k, omega arith)
            | inr k ↦ (_, complete_impl-settles status r w result c v k, omega arith)
          ]
        ]
      ]

  pub after_completion-settled :
      (w : World O J V) (o : Option (Result (Unit {0}) × ℕ × List (EngineCall V)))
      (l : List (Settlement V))
      → settled_by o ≡ some l
      → ((after_completion w o).settled ≡ w.settled ++ l)
        × ((after_completion w o).undefined ≡ w.undefined)
        × ((after_completion w o).completed ≡ true)
  unfolding after_completion settled_by
  after_completion-settled w none l e = absurd (cc)
  after_completion-settled w (some (_, s, calls)) l e =
      (let q : settlements calls ≡ l = cc in (ap (λ x. w.settled ++ x) q, refl, refl))

  completion-IsSound :
      (status : ℤ) (r : CompleteReplies) (w : World O J V)
      → w.completed ≡ false
      → (is_cancelled status || is_written w.work.value) ≡ true
      → IsSound w
      → IsSound (after_completion w (complete_impl status r w.work))
  completion-IsSound status r w c h s =
      let (l, e, b) = complete_impl-at_most_once status r w.work h in
      let (f, u, d) = after_completion-settled w (complete_impl status r w.work) l e in
      record {
        at_most_once = subst (λ x. length x ≤ 1) (sym (f ∙ ap (λ x. x ++ l) (s.open_until c))) b;
        defined = u ∙ s.defined;
        open_until = λ p. absurd (cc);
      }

  step-IsSound : (e : Event) (w : World O J V) → IsSound w → IsSound (step e w)
  unfolding step
  step-IsSound executed w s = ground arith
  step-IsSound (cancelled p reply) w s = ground arith
  step-IsSound aborted w s = ground arith
  step-IsSound (completion status r) w s = ground (arith, completion-IsSound status r w)

  run_events-IsSound : (es : List Event) (w : World O J V) → IsSound w → IsSound (run_events es w)
  unfolding run_events
  run_events-IsSound [] w s = s
  run_events-IsSound (e ∷ es) w s = run_events-IsSound es (step e w) (step-IsSound e w s)

  -- However a work is executed, cancelled, aborted and completed, its promise is settled at most once,
  -- and no value is read that its computation has not written.
  pub run_events_settle_once :
      (es : List Event) (w : AsyncWork O J V)
      → (length (run_events es (start w)).settled ≤ 1)
        × ((run_events es (start w)).undefined ≡ false)
  run_events_settle_once es w =
      let s = run_events-IsSound es (start w) (
        unfold start in
        record { at_most_once = omega arith; defined = refl; open_until = λ p. refl }) in
      (s.at_most_once, s.defined)
