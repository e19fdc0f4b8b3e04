-- ===== src/AsyncWork/Settling.antt =====
-- How the promise of a work is settled by `complete_impl`.
use mathlib.Core.List.{append-nil}
use ohos_rs.Common.{
  ℕ, ◌==◌, ◌||◌, true, false, Option, none, some, List, [], ◌∷◌, ◌++◌, ◌≡◌, refl, ap, ◌∙◌, arith,
}
use ohos_rs.Common.Int.{ℤ}
use ohos_rs.Error.{Result, ok, err, ◌>>=◌, check_status}
use ohos_rs.AsyncWork.{
  Task, AsyncWork, Reason, abort_error, failure, EngineCall, get_undefined, create_promise,
  create_work, queue_work, queue_work_with_qos, cancel_work, create_error, set_name,
  resolve_deferred, reject_deferred, run_finally, delete_work, CompleteReplies, is_cancelled,
  finish, reject_abort, settle_value, settle, then_finish, complete_impl,
}

pub data Settlement (V : Type 0) : Type 0 where
  resolved : ℕ → V → Settlement V
  rejected : ℕ → Reason → Settlement V

module _ {V : Type 0} where
  -- The calls that settle a promise.
  unfoldable pub settlements : List (EngineCall V) → List (Settlement V)
  settlements [] = []
  settlements (resolve_deferred d v ∷ cs) = resolved d v ∷ settlements cs
  settlements (reject_deferred d r ∷ cs) = rejected d r ∷ settlements cs
  settlements (_ ∷ cs) = settlements cs

-- The engine makes the error that is asked for, and accepts the settlement.
pub record Grants (r : CompleteReplies) : Type 0 where
  pub error_made : r.error ≡ ok tt
  pub name_set : r.name ≡ ok tt

module _ {V : Type 0} where
  unfoldable pub settlement_of : ℕ → Result V → Settlement V
  settlement_of d (ok v) = resolved d v
  settlement_of d (err e) = rejected d (failure e)

  settlements-append :
      (xs ys : List (EngineCall V)) → settlements (xs ++ ys) ≡ settlements xs ++ settlements ys
  unfolding settlements
  settlements-append [] ys = refl
  settlements-append (get_undefined ∷ cs) ys = settlements-append cs ys
  settlements-append (create_promise ∷ cs) ys = settlements-append cs ys
  settlements-append (create_work ∷ cs) ys = settlements-append cs ys
  settlements-append (queue_work _ ∷ cs) ys = settlements-append cs ys
  settlements-append (queue_work_with_qos _ _ ∷ cs) ys = settlements-append cs ys
  settlements-append (cancel_work _ ∷ cs) ys = settlements-append cs ys
  settlements-append (create_error ∷ cs) ys = settlements-append cs ys
  settlements-append (set_name ∷ cs) ys = settlements-append cs ys
  settlements-append (resolve_deferred d v ∷ cs) ys =
      ap (λ l. resolved d v ∷ l) (settlements-append cs ys)
  settlements-append (reject_deferred d r ∷ cs) ys =
      ap (λ l. rejected d r ∷ l) (settlements-append cs ys)
  settlements-append (run_finally ∷ cs) ys = settlements-append cs ys
  settlements-append (delete_work _ ∷ cs) ys = settlements-append cs ys

module _ {V : Type 0} where
  -- The promise is not resolved by this settlement.
  unfoldable pub IsRejection : Settlement V → Type 0
  IsRejection (resolved _ _) = ⊥
  IsRejection (rejected _ _) = Unit

module _ {O J V : Type 0} where
  -- What the task promises for the result of its computation, when the shared status is `shared`.
  unfoldable pub promised : Task O J V → ℕ → Result O → Result J
  promised t shared (ok o) = (t.resolve shared o).0
  promised t shared (err e) = (t.reject shared e).0

  settlements-finish : (w : AsyncWork O J V) (r : CompleteReplies) → settlements (finish w r).1 ≡ []
  unfolding finish settlements
  settlements-finish w r = ground arith

  -- Nothing is settled after the settlement.
  pub settlements-then_finish :
      (w : AsyncWork O J V) (r : CompleteReplies) (s : ℕ)
      (p : Result (Unit {0}) × List (EngineCall V))
      → settlements (then_finish w r s p).2 ≡ settlements p.1
  unfolding then_finish
  settlements-then_finish w r s (err e, calls) = refl
  settlements-then_finish w r s (ok _, calls) =
      settlements-append calls (finish w r).1
      ∙ rw (settlements-finish w r) (append-nil (settlements calls))

  settlements-reject_abort :
      (w : AsyncWork O J V) (r : CompleteReplies)
      → Grants r
      → settlements (reject_abort w r).1 ≡ rejected w.deferred abort_error ∷ []
  unfolding settlements reject_abort
  settlements-reject_abort w r g = rw (g.error_made, g.name_set) refl

  settlements-settle :
      (w : AsyncWork O J V) (r : CompleteReplies) (v : Result V)
      → settlements (settle w r v).1 ≡ settlement_of w.deferred v ∷ []
  unfolding settlements settle settlement_of
  settlements-settle w r (ok v) = refl
  settlements-settle w r (err e) = refl

module _ {O J V : Type 0} where
  settle_all :
      (w : AsyncWork O J V) (r : CompleteReplies) (v : Result V)
      → settlements (then_finish w r 1 (settle w r v)).2 ≡ settlement_of w.deferred v ∷ []
  settle_all w r v = settlements-then_finish w r 1 (settle w r v) ∙ settlements-settle w r v

  settle_value-promised :
      (w : AsyncWork O J V) (result : Result O)
      → (settle_value w result).0 ≡ promised w.inner_task w.status result
  unfolding settle_value promised
  settle_value-promised w (ok o) = refl
  settle_value-promised w (err e) = refl

-- The settlements of a completion, if it does not read a value that was never written.
unfoldable pub settled_by :
    {V : Type 0}
    → Option (Result (Unit {0}) × ℕ × List (EngineCall V))
    → Option (List (Settlement V))
settled_by none = none
settled_by (some (_, _, calls)) = some (settlements calls)

pub complete_impl-reject_abort :
    {O J V : Type 0} (status : ℤ) (r : CompleteReplies) (w : AsyncWork O J V)
    → (is_cancelled status || (w.status == 2)) ≡ true
    → settled_by (complete_impl status r w) ≡ some (settlements (reject_abort w r).1)
unfolding complete_impl settled_by
complete_impl-reject_abort status r w c =
    rw c (ap some (settlements-then_finish w r w.status (reject_abort w r)))

-- A task that cancels its own work while it settles leaves the promise open.
pub complete_impl-open :
    {O J V : Type 0} (status : ℤ) (r : CompleteReplies) (w : AsyncWork O J V) (result : Result O)
    → (is_cancelled status || (w.status == 2)) ≡ false
    → w.value ≡ some result
    → ((settle_value w result).1 == 2) ≡ true
    → settled_by (complete_impl status r w) ≡ some []
unfolding complete_impl settled_by
complete_impl-open status r w result c v k =
    rw (c, v, k)
      (ap some (
        settlements-then_finish (record w { status = (settle_value w result).1 }) r 1 (ok tt, [])
        ∙ (unfold settlements in refl)))

-- A work that was cancelled, by its signal or by the engine, rejects its promise with an `AbortError`,
-- exactly once, and never resolves it, whether its computation was run or not. The engine has to make
-- the error that it is asked for.
pub complete_impl-cancelled :
    {O J V : Type 0} (status : ℤ) (r : CompleteReplies) (w : AsyncWork O J V)
    → Grants r
    → (is_cancelled status || (w.status == 2)) ≡ true
    → settled_by (complete_impl status r w) ≡ some (rejected w.deferred abort_error ∷ [])
complete_impl-cancelled status r w g c =
    complete_impl-reject_abort status r w c ∙ ap some (settlements-reject_abort w r g)

-- A work whose computation was run and that was not cancelled settles its promise exactly once: with what
-- `resolve` makes of the output, or `reject` of the error, converted to a value of the engine; the
-- first of these that fails, or a failure that the engine reports, is the error it is rejected with.
-- The code of `resolve` and `reject` must not cancel the work itself.
pub complete_impl-settles :
    {O J V : Type 0} (status : ℤ) (r : CompleteReplies) (w : AsyncWork O J V) (result : Result O)
    → (is_cancelled status || (w.status == 2)) ≡ false
    → w.value ≡ some result
    → ((settle_value w result).1 == 2) ≡ false
    → settled_by (complete_impl status r w)
      ≡ some (
          settlement_of w.deferred (
            check_status status ""
            >>= (λ _. promised w.inner_task w.status result)
            >>= w.inner_task.convert)
          ∷ [])
unfolding complete_impl settled_by
complete_impl-settles status r w result c v k =
    rw (c, v, k, settle_value-promised w result)
      (ap some (
        settle_all (record w { status = (settle_value w result).1 }) r
          (check_status status ""
            >>= (λ _. promised w.inner_task w.status result)
            >>= w.inner_task.convert)))
