-- ===== src/AsyncWork/Signal.antt =====
-- The abort signal of crates/napi/src/bindgen_runtime/js_values/task.rs. The JavaScript object holds the
-- stack of the signals that were made of it, one for each task that takes it; each shares its status
-- with the work of its task.
use ohos_rs.Common.{
  ℕ, ◌==◌, if◌then◌else◌, Option, none, some, List, [], ◌∷◌, ◌++◌, map, ◌≡◌, refl, arith,
}
use ohos_rs.Common.Int.{ℤ}
use ohos_rs.Error.{Result, ok, ◌>>=◌, check_status, is_ok}

-- `raw_work` is 0 before the task runs; a callback is its number.
pub record AbortSignal : Type 0 where
  pub raw_work : ℕ
  pub status : ℕ
  pub abort : List ℕ

unfoldable pub on_abort : AbortSignal → ℕ → AbortSignal
on_abort s cb = record s { abort = s.abort ++ cb ∷ [] }

abbrev pub new_signal : AbortSignal
new_signal = record { raw_work = 0; status = 0; abort = [] }

-- The stack with the new signal, where `old` is what `napi_remove_wrap` answers.
unfoldable pub push_signal : ℤ × Option (List AbortSignal) → List AbortSignal
push_signal (status, none) = new_signal ∷ []
push_signal (status, some signals) =
    if is_ok status then signals ++ new_signal ∷ [] else new_signal ∷ []

-- `AbortSignal::from_napi_value`, with the status of the wrap and the result of setting `onabort`.
unfoldable pub from_napi_value :
    ℤ × Option (List AbortSignal) → ℤ → Result (Unit {0}) → Result (List AbortSignal)
unfolding push_signal check_status
from_napi_value old wrap handler =
    check_status wrap "Wrap AbortSignal failed" >>= (λ _. handler) >>= (λ _. ok (push_signal old))

-- The loop of `on_abort_impl`, up to a task that is completed: the signals and the callbacks that were
-- called.
unfoldable pub on_abort_impl : List AbortSignal → List AbortSignal × List ℕ
on_abort_impl [] = ([], [])
on_abort_impl (s ∷ rest) =
    let (signals, calls) = on_abort_impl rest in
    if s.status == 1
    then (s ∷ rest, s.abort)
    else (record s { status = 2 } ∷ signals, s.abort ++ calls)

-- The signals before the first task that is completed.
unfoldable pub before_completed : List AbortSignal → List AbortSignal
before_completed [] = []
before_completed (s ∷ rest) = if s.status == 1 then [] else s ∷ before_completed rest

unfoldable pub from_completed : List AbortSignal → List AbortSignal
from_completed [] = []
from_completed (s ∷ rest) = if s.status == 1 then s ∷ rest else from_completed rest

abbrev pub cancel_signal : AbortSignal → AbortSignal
cancel_signal s = record s { status = 2 }

-- An abort cancels the tasks that took the signal before the first one that is completed, and no task
-- from that one on, be it still running.
pub on_abort_impl-signals :
    (l : List AbortSignal)
    → (on_abort_impl l).0 ≡ map cancel_signal (before_completed l) ++ from_completed l
unfolding on_abort_impl before_completed from_completed
on_abort_impl-signals [] = refl
on_abort_impl-signals (s ∷ rest) = ground (arith, on_abort_impl-signals rest)
