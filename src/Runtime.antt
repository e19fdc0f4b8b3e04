-- ===== src/Runtime.antt =====
-- The shared runtime of futures in crates/napi/src/tokio_runtime.rs: the static cells `RT`,
-- `USER_DEFINED_RT` and `IS_USER_DEFINED_RT`, and the functions on them. No lock is poisoned, and the
-- build of a default runtime succeeds. A runtime is a number; default ones are counted from `fresh` on.
pub mod Panics
mod Tests
use ohos_rs.Common.{
  ℕ, suc, ◌+◌, ◌≤◌, if◌then◌else◌, Bool, true, false, not, Option, none, some, List, [], ◌∷◌, ◌≡◌,
  refl, arith, ◌⊎◌, inl, inr,
}

-- `rt` is `none` before its first use, and then holds a runtime or none. `user` is `none` before
-- `create_custom_tokio_runtime`, and then holds the user's runtime until it is taken. `stopped` lists the
-- runtimes that were shut down.
pub record Cells : Type 0 where
  pub rt : Option (Option ℕ)
  pub user : Option (Option ℕ)
  pub is_user_defined : Bool
  pub fresh : ℕ
  pub stopped : List ℕ

abbrev pub at_start : ℕ → Cells
at_start fresh = record {
  rt = none;
  user = none;
  is_user_defined = false;
  fresh = fresh;
  stopped = [];
}

-- The default runtime.
unfoldable pub default_runtime : Cells → ℕ × Cells
default_runtime c = (c.fresh, record c { fresh = c.fresh + 1 })

unfoldable pub create_runtime : Cells → ℕ × Cells
unfolding default_runtime
create_runtime c =
    if c.is_user_defined
    then elim c.user [ some (some r) ↦ (r, record c { user = some none }) | _ ↦ default_runtime c ]
    else default_runtime c

-- The first use of `RT`.
unfoldable pub force_runtime : Cells → Cells
unfolding create_runtime
force_runtime c = elim c.rt [
  | some _ ↦ c
  | none ↦ (let (r, d) = create_runtime c in record d { rt = some (some r) })
]

unfoldable pub create_custom_tokio_runtime : ℕ → Cells → Cells
create_custom_tokio_runtime r c = elim c.user [
  | none ↦ record c { user = some (some r); is_user_defined = true }
  | some _ ↦ record c { is_user_defined = true }
]

-- The runtime that `RT` holds, after it is forced.
abbrev pub held : Cells → Option ℕ
held c = elim c.rt [ some (some r) ↦ some r | _ ↦ none ]

unfoldable pub start_async_runtime : Cells → Cells
unfolding force_runtime create_runtime
start_async_runtime c =
    let d = force_runtime c in
    elim (held d) [
      | some _ ↦ d
      | none ↦ (let (r, e) = create_runtime d in record e { rt = some (some r) })
    ]

unfoldable pub shutdown_async_runtime : Cells → Cells
unfolding force_runtime
shutdown_async_runtime c =
    let d = force_runtime c in
    elim (held d) [ some r ↦ record d { rt = some none; stopped = r ∷ d.stopped } | none ↦ d ]

-- `spawn`, `block_on`, `spawn_blocking` and `within_runtime_if_available`: the runtime that they use;
-- `none` is their panic.
unfoldable pub use_runtime : Cells → Option ℕ × Cells
unfolding force_runtime
use_runtime c = let d = force_runtime c in (held d, d)

pub data Event : Type 0 where
  custom : ℕ → Event
  started shut_down used : Event

unfoldable pub step : Event → Cells → Cells
unfolding create_custom_tokio_runtime start_async_runtime shutdown_async_runtime use_runtime
step (custom r) c = create_custom_tokio_runtime r c
step started c = start_async_runtime c
step shut_down c = shutdown_async_runtime c
step used c = (use_runtime c).1

unfoldable pub run : List Event → Cells → Cells
unfolding step
run [] c = c
run (e ∷ es) c = run es (step e c)
