-- ===== src/Tsfn/Tests.antt =====
-- Runs of the thread-safe function, and its theorems at concrete inputs.
use ohos_rs.Common.{ℕ, ◌+◌, ◌==◌, if◌then◌else◌, true, false, List, [], ◌∷◌, ◌≡◌, refl, arith, ◌⊎◌}
use ohos_rs.Common.Int.{pos}
use ohos_rs.Status.{Status}
use ohos_rs.Error.{ok, err, new}
use ohos_rs.Tsfn.Handle.{Handle, CreateReplies}
use ohos_rs.Tsfn.Call.{direct, ignore, CallJsBackData}
use ohos_rs.Tsfn.Report.{ReportReplies}
use ohos_rs.Tsfn.Callback.{Site}
use ohos_rs.Tsfn.Callback.Returns.{js_result}
use ohos_rs.Tsfn.Callback.Answer.{await, await_answer}
use ohos_rs.Tsfn.Life.{Event, clone, drop, abort_event, finalize, start, run, step, run_no_leak}

abbrev granted : ReportReplies
granted = record {
  cleared = pos 0;
  code_string = pos 0;
  message_string = pos 0;
  error = pos 0;
  fatal = pos 0;
}

abbrev site : ℕ → Site ℕ ℕ ℕ
site status = record {
  env_null = false;
  callback_null = false;
  convert = λ n. if n == 9 then err (new Status.invalid_arg "nine") else ok (n ∷ n ∷ []);
  call_function = λ args. (pos status, 70);
  exception = 4;
  reference = (pos 0, 5);
  message = λ j. ok "thrown";
  from_value = λ j. ok (j + 1);
  own_callback = λ i r. ok tt;
  fatal_status = pos 0;
  report = granted;
}

abbrev live : Handle
live = record { raw = 3; aborted = false }

abbrev dead : Handle
dead = record { raw = 3; aborted = true }

abbrev weak_fails : CreateReplies
weak_fails = record { name = pos 0; created = pos 0; unref = pos 9; released = pos 0; raw = 3 }

abbrev item : CallJsBackData ℕ
item = record { payload = 9; call_variant = direct; callback = ignore }

await_answer_example :
    await live (ok 2) (pos 0) (site 0) ≡ js_result true (site 0) (2 ∷ 2 ∷ []) "thrown"
await_answer_example = await_answer live 2 (site 0) (2 ∷ 2 ∷ []) "thrown" refl refl refl refl refl

abbrev life : List Event
life = clone ∷ abort_event (pos 0) (pos 0) ∷ finalize ∷ drop (pos 0) ∷ []

abbrev dropped : List Event
dropped = drop (pos 0) ∷ []

dropped_strong : (run dropped (start 3)).strong ≡ 0
unfolding run step start
dropped_strong = refl

run_no_leak_example :
    ((run dropped (start 3)).released ≡ 1) ⊎ ((run dropped (start 3)).finalized ≡ true)
run_no_leak_example = run_no_leak 3 dropped (omega arith) (refl, tt) dropped_strong
