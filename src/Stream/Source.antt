-- ===== src/Stream/Source.antt =====
-- A Rust stream that JavaScript pulls: `StreamState`, `pull_callback_impl` and `cancel_callback`. A pull
-- spawns a future that locks the stream and waits for its next item, and a callback on the main thread
-- then hands the item to the controller. JavaScript does not pull again before that callback.
pub mod Pulled
use ohos_rs.Common.{
  ℕ, ◌+◌, if◌then◌else◌, Bool, true, false, not, Option, none, some, List, [], ◌∷◌, ◌++◌,
}
use ohos_rs.Error.{Error, Result, ok, err}

-- The pull that is under way: its future was spawned, it holds the lock, or its item waits for the
-- callback.
pub data Pull (T : Type 0) : Type 0 where
  idle spawned locked : Pull T
  got : Result (Option T) → Pull T

-- `stream` and `cancelled` are the fields of `StreamState`, where a stream is the list of its items. The
-- others are observed: the chunks that were enqueued, the calls of `close`, and the pulls that failed.
pub record Source (T : Type 0) : Type 0 where
  pub stream : Option (List (Result T))
  pub cancelled : Bool
  pub pull : Pull T
  pub enqueued : List T
  pub closes : ℕ
  pub failures : ℕ

-- A step of the main thread or of the future; the controller accepts a call or throws.
pub data Event : Type 0 where
  pull_called lock_taken item_ready cancel_called : Event
  callback : Bool → Event

module _ {T : Type 0} where
  -- `StreamState::new`.
  unfoldable pub new_source : List (Result T) → Source T
  new_source items = record {
    stream = some items;
    cancelled = false;
    pull = idle;
    enqueued = [];
    closes = 0;
    failures = 0;
  }

  -- `stream.next().await.transpose()`, under the lock.
  unfoldable pub next_item : Option (List (Result T)) → Result (Option T) × Option (List (Result T))
  next_item none = (ok none, none)
  next_item (some []) = (ok none, some [])
  next_item (some (ok x ∷ items)) = (ok (some x), some items)
  next_item (some (err e ∷ items)) = (err e, some items)

  -- The callback of the future, on the main thread.
  unfoldable pub finish_pull : Bool → Result (Option T) → Source T → Source T
  finish_pull accepted (err e) s = record s { pull = idle; failures = s.failures + 1 }
  finish_pull accepted (ok (some x)) s =
      if s.cancelled
      then record s { pull = idle }
      else if accepted
      then record s { pull = idle; enqueued = s.enqueued ++ x ∷ [] }
      else record s { pull = idle; failures = s.failures + 1 }
  finish_pull accepted (ok none) s =
      if s.cancelled
      then record s { pull = idle }
      else if accepted
      then record s { pull = idle; closes = s.closes + 1; stream = none }
      else record s { pull = idle; failures = s.failures + 1 }

  -- `pull_callback_impl`, up to the future.
  unfoldable pub begin_pull : Source T → Source T
  begin_pull s = elim s.pull [
    | idle ↦ if s.cancelled then s else record s { pull = spawned }
    | _ ↦ s
  ]

  -- `cancel_callback`; `try_lock` fails while a future holds the lock.
  unfoldable pub cancel_callback : Source T → Source T
  cancel_callback s = elim s.pull [
    | locked ↦ record s { cancelled = true }
    | _ ↦ record s { cancelled = true; stream = none }
  ]

  unfoldable pub step : Event → Source T → Source T
  unfolding begin_pull next_item finish_pull cancel_callback
  step pull_called s = begin_pull s
  step lock_taken s = elim s.pull [ spawned ↦ record s { pull = locked } | _ ↦ s ]
  step item_ready s = elim s.pull [
    | locked ↦ record s { pull = got (next_item s.stream).0; stream = (next_item s.stream).1 }
    | _ ↦ s
  ]
  step (callback accepted) s = elim s.pull [ got r ↦ finish_pull accepted r s | _ ↦ s ]
  step cancel_called s = cancel_callback s

  unfoldable pub run : List Event → Source T → Source T
  unfolding step
  run [] s = s
  run (e ∷ es) s = run es (step e s)
