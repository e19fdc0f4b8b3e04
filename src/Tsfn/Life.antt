-- ===== src/Tsfn/Life.antt =====
-- The handle of a thread-safe function from its creation to its end, under every sequence of clones,
-- drops, calls, aborts and finalisations, whatever the engine answers.
use ohos_rs.Common.{
  ℕ, zero, suc, ◌+◌, ◌-◌, ◌≤◌, ◌<◌, ◌==◌, if◌then◌else◌, ltb, Bool, true, false, ◌&&◌, ◌||◌, List,
  [], ◌∷◌, ◌≡◌, ◌≢◌, refl, arith, ◌⊎◌, All,
}
use ohos_rs.Common.Int.{ℤ}
use ohos_rs.Error.{check_status, is_ok}
use ohos_rs.Tsfn.Handle.{Handle, new_handle, drop_handle, abort_handle, finalize_handle}
use ohos_rs.Tsfn.Call.{CallMode, call_fatal}

-- `strong` counts the owners of the handle; `released` the releases that the engine accepted;
-- `late` the calls made on the engine's function after such a release or after its finalisation.
pub record World : Type 0 where
  pub strong : ℕ
  pub handle : Handle
  pub released : ℕ
  pub finalized : Bool
  pub late : ℕ

pub data Event : Type 0 where
  clone : Event
  drop : ℤ → Event
  call : CallMode → ℤ → Event
  abort_event : ℤ → ℤ → Event
  finalize : Event

abbrev count : Bool → ℕ
count true = 1
count false = 0

-- One call on the engine's function is late, or not.
abbrev touch : World → ℕ → ℕ
touch w zero = w.late
touch w (suc _) = w.late + count (w.finalized || ltb 0 w.released)

abbrev calls_made {ℓ} : {A : Type ℓ} → List A → ℕ
calls_made [] = 0
calls_made (_ ∷ cs) = suc (calls_made cs)

-- One owner goes; the last one drops the handle.
drop_owner : ℤ → World → World
drop_owner reply w =
    let made = calls_made (drop_handle w.handle reply).1 in
    if w.strong == 1
    then record w {
      strong = 0;
      released = w.released + (if ltb 0 made && is_ok reply then 1 else 0);
      late = touch w made;
    }
    else record w { strong = w.strong - 1 }

abort_owner : ℤ → World → World
abort_owner reply w =
    let (_, h, cs) = abort_handle w.handle reply in
    record w {
      handle = h;
      released = w.released + (if ltb 0 (calls_made cs) && is_ok reply then 1 else 0);
      late = touch w (calls_made cs);
    }

-- Without an owner only the engine can act, and it finalises a function once at most.
unfoldable pub step : Event → World → World
unfolding drop_owner abort_owner
step clone w = if ltb 0 w.strong then record w { strong = w.strong + 1 } else w
step (drop reply) w = if ltb 0 w.strong then drop_owner reply w else w
step (call mode reply) w =
    if ltb 0 w.strong
    then record w { late = touch w (calls_made (call_fatal (Unit {0}) w.handle tt mode reply).1) }
    else w
step (abort_event reply dropped) w =
    if ltb 0 w.strong then drop_owner dropped (abort_owner reply w) else w
step finalize w = if w.finalized then w else record w {
  finalized = true;
  handle = if ltb 0 w.strong then finalize_handle w.handle else w.handle;
}

unfoldable pub run : List Event → World → World
run [] w = w
run (e ∷ es) w = run es (step e w)

-- What `create` hands out.
unfoldable pub start : ℕ → World
unfolding new_handle
start raw = record {
  strong = 1;
  handle = new_handle raw;
  released = 0;
  finalized = false;
  late = 0;
}

-- While an owner is left, the flag says whether the engine's function is gone.
pub record IsSound (w : World) : Type 0 where
  pub never_late : w.late ≡ 0
  pub at_most_once : w.released ≤ 1
  pub raw_set : w.handle.raw ≢ 0
  pub alive : 0 < w.strong → w.handle.aborted ≡ false → (w.released ≡ 0) × (w.finalized ≡ false)

drop_owner-IsSound : (r : ℤ) (w : World) → IsSound w → 0 < w.strong → IsSound (drop_owner r w)
unfolding drop_owner drop_handle
drop_owner-IsSound r w s h = ground arith

abort_owner-IsSound : (r : ℤ) (w : World) → IsSound w → 0 < w.strong → IsSound (abort_owner r w)
unfolding abort_owner abort_handle check_status
abort_owner-IsSound r w s h = ground arith

abort_owner-strong : (r : ℤ) (w : World) → (abort_owner r w).strong ≡ w.strong
unfolding abort_owner
abort_owner-strong r w = refl

step-IsSound : (e : Event) (w : World) → IsSound w → IsSound (step e w)
unfolding step call_fatal finalize_handle
step-IsSound clone w s = ground arith
step-IsSound (drop r) w s = ground (arith, drop_owner-IsSound r w s)
step-IsSound (call m r) w s = ground arith
step-IsSound (abort_event r d) w s = ground (
  arith,
  drop_owner-IsSound d (abort_owner r w),
  abort_owner-IsSound r w s,
  abort_owner-strong r w,
)
step-IsSound finalize w s = ground arith

start-IsSound : (raw : ℕ) → raw ≢ 0 → IsSound (start raw)
unfolding start new_handle
start-IsSound raw h = record {
  never_late = refl;
  at_most_once = omega arith;
  raw_set = h;
  alive = λ p q. (refl, refl);
}

-- The engine accepts the releases of these events.
abbrev pub Accepts : Event → Type 0
Accepts clone = Unit
Accepts (drop r) = is_ok r ≡ true
Accepts (call _ _) = Unit
Accepts (abort_event r d) = (is_ok r ≡ true) × (is_ok d ≡ true)
Accepts finalize = Unit

record IsTidy (w : World) : Type 0 where
  gone : w.handle.aborted ≡ true → (w.released ≡ 1) ⊎ (w.finalized ≡ true)
  ended : w.strong ≡ 0 → (w.released ≡ 1) ⊎ (w.finalized ≡ true)

step-IsTidy : (e : Event) (w : World) → Accepts e → IsSound w → IsTidy w → IsTidy (step e w)
unfolding step call_fatal finalize_handle drop_owner drop_handle abort_owner abort_handle
    check_status
step-IsTidy clone w a s t = ground arith
step-IsTidy (drop r) w a s t = ground arith
step-IsTidy (call m r) w a s t = ground arith
step-IsTidy (abort_event r d) w a s t = ground arith
step-IsTidy finalize w a s t = ground arith

run-IsTidy :
    (es : List Event) (w : World) → All Accepts es → IsSound w → IsTidy w → IsTidy (run es w)
unfolding run
run-IsTidy [] w a s t = t
run-IsTidy (e ∷ es) w a s t =
    run-IsTidy es (step e w) a.1 (step-IsSound e w s) (step-IsTidy e w a.0 s t)

-- Once the last owner is gone, the engine's function has been released exactly once or the engine has
-- finalised it, provided that the engine accepts every release.
pub run_no_leak :
    (raw : ℕ) (es : List Event)
    → raw ≢ 0
    → All Accepts es
    → (run es (start raw)).strong ≡ 0
    → ((run es (start raw)).released ≡ 1) ⊎ ((run es (start raw)).finalized ≡ true)
run_no_leak raw es h a e =
    (run-IsTidy es (start raw) a (start-IsSound raw h)
        (unfold start new_handle in record { gone = λ p. cc; ended = λ p. cc })).ended
      e
