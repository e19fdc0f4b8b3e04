-- ===== src/Runtime/Panics.antt =====
-- When a use of the shared runtime panics.
use ohos_rs.Common.{ℕ, Bool, true, false, Option, none, some, List, [], ◌∷◌, ◌≡◌, refl, arith}
use ohos_rs.Runtime.{
  Cells, at_start, default_runtime, create_runtime, force_runtime, create_custom_tokio_runtime,
  start_async_runtime, shutdown_async_runtime, use_runtime, Event, custom, started, shut_down, used,
  step, run,
}

-- Whether the last event that starts or stops the runtime stops it.
unfoldable pub is_down : Bool → List Event → Bool
is_down b [] = b
is_down b (custom _ ∷ es) = is_down b es
is_down b (started ∷ es) = is_down false es
is_down b (shut_down ∷ es) = is_down true es
is_down b (used ∷ es) = is_down b es

abbrev pub is_none {ℓ} : {A : Type ℓ} → Option A → Bool
is_none none = true
is_none (some _) = false

-- `b` says whether a use of the cells panics.
PanicsOn : Bool → Cells → Type 0
PanicsOn b c = is_none (use_runtime c).0 ≡ b

custom-PanicsOn :
    (b : Bool) (r : ℕ) (c : Cells) → PanicsOn b c → PanicsOn b (create_custom_tokio_runtime r c)
unfolding PanicsOn use_runtime force_runtime create_runtime create_custom_tokio_runtime
    default_runtime
custom-PanicsOn b r c h = ground arith

started-PanicsOn : (c : Cells) → PanicsOn false (start_async_runtime c)
unfolding PanicsOn use_runtime force_runtime create_runtime start_async_runtime default_runtime
started-PanicsOn c = ground arith

shut_down-PanicsOn : (c : Cells) → PanicsOn true (shutdown_async_runtime c)
unfolding PanicsOn use_runtime force_runtime create_runtime shutdown_async_runtime default_runtime
shut_down-PanicsOn c = ground arith

used-PanicsOn : (b : Bool) (c : Cells) → PanicsOn b c → PanicsOn b (use_runtime c).1
unfolding PanicsOn use_runtime force_runtime create_runtime default_runtime
used-PanicsOn b c h = ground arith

run-PanicsOn :
    (es : List Event) (b : Bool) (c : Cells) → PanicsOn b c → PanicsOn (is_down b es) (run es c)
unfolding run is_down step
run-PanicsOn [] b c h = h
run-PanicsOn (custom r ∷ es) b c h =
    run-PanicsOn es b (create_custom_tokio_runtime r c) (custom-PanicsOn b r c h)
run-PanicsOn (started ∷ es) b c h =
    run-PanicsOn es false (start_async_runtime c) (started-PanicsOn c)
run-PanicsOn (shut_down ∷ es) b c h =
    run-PanicsOn es true (shutdown_async_runtime c) (shut_down-PanicsOn c)
run-PanicsOn (used ∷ es) b c h = run-PanicsOn es b (use_runtime c).1 (used-PanicsOn b c h)

-- A use of the shared runtime panics exactly when the last start or shutdown before it was a shutdown,
-- whenever and however often runtimes are started, shut down, used and defined by the user; a runtime
-- that was never started is made by its first use.
pub run_panics :
    (es : List Event) (fresh : ℕ)
    → is_none (use_runtime (run es (at_start fresh))).0 ≡ is_down false es
run_panics es fresh =
    unfold PanicsOn in
    run-PanicsOn es false (at_start fresh) (unfold use_runtime force_runtime create_runtime in refl)
