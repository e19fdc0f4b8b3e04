-- ===== src/Runtime/Tests.antt =====
-- Runs of the shared runtime, and its theorem at a concrete input.
use ohos_rs.Common.{false, some, [], ◌∷◌, ◌≡◌, refl}
use ohos_rs.Runtime.{custom, started, shut_down, used, at_start, use_runtime, run}
use ohos_rs.Runtime.Panics.{is_none, is_down, run_panics}

-- The user's runtime is taken once: after a restart it is a default one.
taken_once :
    (use_runtime (run (custom 7 ∷ used ∷ shut_down ∷ started ∷ []) (at_start 100))).0 ≡ some 100
unfolding use_runtime run
taken_once = refl

-- A runtime that is defined after the first use waits for the next start.
defined_late : (use_runtime (run (used ∷ custom 7 ∷ []) (at_start 100))).0 ≡ some 100
unfolding use_runtime run
defined_late = refl

run_panics_example :
    is_none (use_runtime (run (custom 7 ∷ shut_down ∷ used ∷ []) (at_start 100))).0
    ≡ is_down false (custom 7 ∷ shut_down ∷ used ∷ [])
run_panics_example = run_panics (custom 7 ∷ shut_down ∷ used ∷ []) 100
