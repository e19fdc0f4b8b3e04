-- ===== src/Modules/Lifetime.antt =====
-- The life of the shared runtime and of the custom collector over the environments that load the module:
-- the statics of crates/napi/src/bindgen_runtime/module_register.rs with the end of
-- napi_register_module_v1, create_custom_gc, thread_cleanup and custom_gc_finalize. An environment is a
-- number. Loads do not overlap, and there are fewer than 2 ^ 64 of them.
pub mod Live
pub mod Cleanup
use ohos_rs.Common.{
  ℕ, ◌+◌, ◌-◌, ◌==◌, if◌then◌else◌, Bool, true, false, not, ◌&&◌, ◌||◌, Option, none, some, List,
  [], ◌∷◌, ◌≡◌,
}
use ohos_rs.Runtime.{
  Cells, at_start, start_async_runtime, shutdown_async_runtime, use_runtime,
  create_custom_tokio_runtime,
}

-- `hooks` has the environments that run `thread_cleanup` when they end, `custom_gc` the environment of
-- `CUSTOM_GC_TSFN`, and `live` the environments that have loaded the module and not ended.
pub record Process : Type 0 where
  pub module_count : ℕ
  pub first_module_registered : Bool
  pub env_cleanup_hook_added : Bool
  pub hooks : List ℕ
  pub custom_gc : Option ℕ
  pub custom_gc_destroyed : Bool
  pub runtime : Cells
  pub live : List ℕ

abbrev pub new_process : ℕ → Process
new_process fresh = record {
  module_count = 0;
  first_module_registered = false;
  env_cleanup_hook_added = false;
  hooks = [];
  custom_gc = none;
  custom_gc_destroyed = false;
  runtime = at_start fresh;
  live = [];
}

-- Whether a load has to wait in `wait_first_thread_registered`.
unfoldable pub waits : Process → Bool
waits p = not (p.module_count == 0) && not p.first_module_registered

unfoldable pub create_custom_gc : ℕ → Process → Process
create_custom_gc e p = if p.first_module_registered then p else record p { custom_gc = some e }

unfoldable pub add_cleanup_hook : ℕ → Process → Process
add_cleanup_hook e p =
    if p.env_cleanup_hook_added
    then p
    else record p { hooks = e ∷ p.hooks; env_cleanup_hook_added = true }

unfoldable pub load : ℕ → Process → Process
unfolding create_custom_gc add_cleanup_hook start_async_runtime
load e p =
    let counted = record p { module_count = p.module_count + 1; live = e ∷ p.live } in
    let collecting = create_custom_gc e counted in
    let running = record collecting { runtime = start_async_runtime collecting.runtime } in
    record (add_cleanup_hook e running) { first_module_registered = true }

-- The counter wraps below 0.
unfoldable pub thread_cleanup : Process → Process
unfolding shutdown_async_runtime
thread_cleanup p =
    let before = p.module_count in
    let counted = record p {
      module_count = if before == 0 then 18446744073709551615 else before - 1;
    } in
    if before == 1 then record counted { runtime = shutdown_async_runtime p.runtime } else counted

unfoldable pub run_hooks : ℕ → List ℕ → Process → Process
unfolding thread_cleanup
run_hooks e [] p = p
run_hooks e (h ∷ hs) p = run_hooks e hs (if h == e then thread_cleanup p else p)

unfoldable pub without : ℕ → List ℕ → List ℕ
without e [] = []
without e (x ∷ xs) = let rest = without e xs in if x == e then rest else x ∷ rest

unfoldable pub is_live : ℕ → List ℕ → Bool
is_live e [] = false
is_live e (x ∷ xs) = x == e || is_live e xs

-- `custom_gc_finalize` runs when the environment of the collector ends.
unfoldable pub custom_gc_finalize : ℕ → Process → Process
custom_gc_finalize e p = elim p.custom_gc [
  | none ↦ p
  | some o ↦ record p { custom_gc_destroyed = p.custom_gc_destroyed || o == e }
]

-- The end of an environment.
unfoldable pub unload : ℕ → Process → Process
unfolding run_hooks without custom_gc_finalize
unload e p =
    let cleaned = run_hooks e p.hooks p in
    custom_gc_finalize e (record cleaned { hooks = without e p.hooks; live = without e p.live })

-- `configured` and `worked` are the module's calls of `create_custom_tokio_runtime` and of `spawn`,
-- `block_on` and the like.
pub data Reachable : Process → Type 0 where
  started : (fresh : ℕ) → Reachable (new_process fresh)
  loaded : {p : Process} (e : ℕ) → Reachable p → is_live e p.live ≡ false → Reachable (load e p)
  unloaded : {p : Process} (e : ℕ) → Reachable p → is_live e p.live ≡ true → Reachable (unload e p)
  configured :
      {p : Process} (r : ℕ)
      → Reachable p
      → Reachable (record p { runtime = create_custom_tokio_runtime r p.runtime })
  worked :
      {p : Process} → Reachable p → Reachable (record p { runtime = (use_runtime p.runtime).1 })

-- The module does not call `shutdown_async_runtime` itself.
pub data Event : Type 0 where
  loads unloads : ℕ → Event
  configures : ℕ → Event
  works : Event

unfoldable pub run : List Event → Process → Process
unfolding load unload
run [] p = p
run (loads e ∷ es) p = run es (load e p)
run (unloads e ∷ es) p = run es (unload e p)
run (configures r ∷ es) p = run es (record p { runtime = create_custom_tokio_runtime r p.runtime })
run (works ∷ es) p = run es (record p { runtime = (use_runtime p.runtime).1 })
