-- ===== src/Promise/Raw.antt =====
-- The callbacks of `PromiseRaw::then` and `catch`: a box with the callback and a box with the flag
-- `executed`, which the callback and the finalizer of the new promise free. `finally` has the first
-- box alone, and no finalizer.
use Prim.Native.String.{String}
use ohos_rs.Common.{
  ℕ, ◌+◌, ◌≤◌, not, ◌||◌, if◌then◌else◌, Bool, true, false, List, [], ◌∷◌, ◌≡◌, refl, arith,
}
use ohos_rs.Common.Int.{ℤ}
use ohos_rs.Status.{as_ref}
use ohos_rs.Error.{Error, Result, ok, err, ◌>>=◌, check_status}

-- How often each box was freed, and how often the callback ran.
pub record Boxes : Type 0 where
  pub executed : Bool
  pub callback_freed : ℕ
  pub flag_freed : ℕ
  pub runs : ℕ

abbrev pub new_boxes : Boxes
new_boxes = record { executed = false; callback_freed = 0; flag_freed = 0; runs = 0 }

-- What the engine answers to `then` and `catch`.
pub record ThenReplies : Type 0 where
  pub property : ℤ
  pub function : ℤ
  pub called : ℤ
  pub wrapped : ℤ
  pub new_promise : ℕ

-- The texts of the two methods.
pub record ThenTexts : Type 0 where
  pub create_failed : String
  pub call_failed : String

abbrev pub then_texts : ThenTexts
then_texts = record {
  create_failed = "Create then function for PromiseRaw failed";
  call_failed = "Call the PromiseRaw::then failed";
}

abbrev pub catch_texts : ThenTexts
catch_texts = record {
  create_failed = "Create catch function for PromiseRaw failed";
  call_failed = "Call the PromiseRaw::catch failed";
}

-- `PromiseRaw::then` and `PromiseRaw::catch`.
unfoldable pub then_promise : ThenTexts → ThenReplies → Result ℕ
unfolding check_status
then_promise t r =
    check_status r.property ""
    >>= (λ _. check_status r.function t.create_failed)
    >>= (λ _. check_status r.called t.call_failed)
    >>= (λ _. check_status r.wrapped "Wrap finalizer for PromiseRaw failed")
    >>= (λ _. ok r.new_promise)

-- `handle_then_callback` and `handle_catch_callback`: `value` is the conversion of the argument, and the
-- callback returns what is converted by `to_napi_value`.
unfoldable pub handle_callback :
    {T U V : Type 0}
    → String
    → ℤ
    → Result T
    → (T → Result U)
    → (U → Result V)
    → Boxes
    → Result V × Boxes
unfolding check_status
handle_callback text info value cb to_napi_value b = elim (check_status info text) [
  | err e ↦ (err e, b)
  | ok _ ↦ elim value [
    | err e ↦ (err e, b)
    | ok v ↦ (
      cb v >>= to_napi_value,
      record b { executed = true; callback_freed = b.callback_freed + 1; runs = b.runs + 1 },
    )
  ]
]

-- `promise_callback_finalizer`.
unfoldable pub promise_callback_finalizer : Boxes → Boxes
promise_callback_finalizer b =
    let t = record b { flag_freed = b.flag_freed + 1 } in
    if not b.executed then record t { callback_freed = b.callback_freed + 1 } else t

-- `throw_error`: the code and the message of the error that is thrown. The generic code of the source
-- has a NUL at its end.
unfoldable pub throw_error : Error → (String → Bool) → String → String × String
throw_error e is_empty default_msg = (
  if is_empty (as_ref e.status) then "GenericFailure\0" else as_ref e.status,
  if is_empty e.reason then default_msg else e.reason,
)

-- A promise of JavaScript calls its callback once at most, and is not collected before.
pub record World : Type 0 where
  pub boxes : Boxes
  pub settled : Bool
  pub collected : Bool

pub data Event (T U V : Type 0) : Type 0 where
  settle : ℤ → Result T → (T → Result U) → (U → Result V) → Event T U V
  collection : Event T U V

unfoldable pub step : {T U V : Type 0} → Event T U V → World → World
unfolding handle_callback promise_callback_finalizer
step (settle info value cb to_napi_value) w = if w.settled || w.collected then w else record w {
  settled = true;
  boxes =
      (handle_callback "Get callback info from then callback failed" info value cb to_napi_value
        w.boxes).1;
}
step collection w =
    if w.collected
    then w
    else record w { collected = true; boxes = promise_callback_finalizer w.boxes }

unfoldable pub run : {T U V : Type 0} → List (Event T U V) → World → World
unfolding step
run [] w = w
run (e ∷ es) w = run es (step e w)

abbrev pub start : World
start = record { boxes = new_boxes; settled = false; collected = false }

abbrev pub count : Bool → ℕ
count true = 1
count false = 0

-- The boxes are freed by now, or will be by the finalizer.
record IsSound (w : World) : Type 0 where
  flag : w.boxes.flag_freed ≡ count w.collected
  callback : w.boxes.callback_freed ≡ (if w.boxes.executed then 1 else count w.collected)
  ran : w.boxes.runs ≡ count w.boxes.executed
  fresh : w.settled ≡ false → w.boxes.executed ≡ false

step-IsSound : {T U V : Type 0} (e : Event T U V) (w : World) → IsSound w → IsSound (step e w)
unfolding step handle_callback promise_callback_finalizer
step-IsSound (settle info value cb to_napi_value) w s = ground arith
step-IsSound collection w s = ground arith

run-IsSound :
    {T U V : Type 0} (es : List (Event T U V)) (w : World) → IsSound w → IsSound (run es w)
unfolding run
run-IsSound [] w s = s
run-IsSound (e ∷ es) w s = run-IsSound es (step e w) (step-IsSound e w s)

-- However a promise that `then` or `catch` has made is settled and collected, its callback runs at most
-- once, no box is freed twice, and once it is collected both boxes have been freed, whether
-- the callback ran or its argument could not be converted.
pub run_frees_once :
    {T U V : Type 0} (es : List (Event T U V))
    → ((run es start).boxes.runs ≤ 1)
      × ((run es start).boxes.flag_freed ≡ count (run es start).collected)
      × ((run es start).boxes.callback_freed ≤ 1)
      × (count (run es start).collected ≤ (run es start).boxes.callback_freed)
run_frees_once es =
    let s =
      run-IsSound es start
        (record { flag = refl; callback = refl; ran = refl; fresh = λ p. refl }) in
    ground arith
