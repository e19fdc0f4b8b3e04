-- ===== src/Modules/Lifetime/Live.antt =====
-- The runtime is there as long as an environment that loaded the module is.
use ohos_rs.Common.{
  ℕ, ◌≤◌, ◌==◌, if◌then◌else◌, Bool, true, false, none, some, List, [], ◌∷◌, ◌≡◌, ◌≢◌, refl, ◌⊎◌,
  inl, inr, arith, length, Bool-cases, ◌∙◌,
}
use ohos_rs.Runtime.{Cells, held, start_async_runtime, use_runtime, create_custom_tokio_runtime}
use ohos_rs.Modules.Lifetime.{
  Process, waits, load, thread_cleanup, run_hooks, without, is_live, unload, Reachable, started,
  loaded, unloaded, configured, worked,
}

abbrev is_held : Cells → Bool
is_held c = elim (held c) [ some _ ↦ true | none ↦ false ]

start_async_runtime-is_held : (c : Cells) → is_held (start_async_runtime c) ≡ true
unfolding start_async_runtime
start_async_runtime-is_held c = ground arith

create_custom_tokio_runtime-is_held :
    (r : ℕ) (c : Cells) → is_held (create_custom_tokio_runtime r c) ≡ is_held c
unfolding create_custom_tokio_runtime
create_custom_tokio_runtime-is_held r c = ground arith

use_runtime-is_held : (c : Cells) → is_held c ≡ true → is_held (use_runtime c).1 ≡ true
unfolding use_runtime
use_runtime-is_held c h = ground arith

use_runtime-ne-none : (c : Cells) → is_held c ≡ true → (use_runtime c).0 ≢ none
unfolding use_runtime
use_runtime-ne-none c h e = ground arith

length-without : (e : ℕ) (xs : List ℕ) → length (without e xs) ≤ length xs
unfolding without
length-without e [] = omega arith
length-without e (x ∷ xs) = ground (arith, length-without e xs)

-- An environment alone in the list leaves nothing.
without_alone : (e : ℕ) (xs : List ℕ) → is_live e xs ≡ true → length xs ≤ 1 → without e xs ≡ []
unfolding without is_live
without_alone e [] h l = cc
without_alone e (x ∷ []) h l = ground arith
without_alone e (x ∷ y ∷ xs) h l = absurd (omega arith)

is_live-without :
    (e a : ℕ) (xs : List ℕ) → (a == e) ≡ false → is_live a (without e xs) ≡ is_live a xs
unfolding without is_live
is_live-without e a [] h = refl
is_live-without e a (x ∷ xs) h = ground (arith, is_live-without e a xs)

-- Before the first load; while the environment with the hook lives; and after it.
abbrev Fresh : Process → Type 0
Fresh p = (p.hooks ≡ []) × (p.env_cleanup_hook_added ≡ false) × (p.live ≡ []) × (p.module_count ≡ 0)

abbrev Tied : Process → ℕ → Type 0
Tied p a =
    (p.hooks ≡ a ∷ [])
    × (p.env_cleanup_hook_added ≡ true)
    × (is_live a p.live ≡ true)
    × (length p.live ≤ p.module_count)
    × (is_held p.runtime ≡ true)

abbrev Untied : Process → Type 0
Untied p =
    (p.hooks ≡ [])
    × (p.env_cleanup_hook_added ≡ true)
    × ((is_held p.runtime ≡ true) ⊎ (p.live ≡ []))

abbrev Phase : Process → Type 0
Phase p = Fresh p ⊎ (((a : ℕ) × Tied p a) ⊎ Untied p)

load-Phase : (e : ℕ) (p : Process) → Phase p → Phase (load e p)
unfolding load is_live
load-Phase e p (inl f) = inr (inl (e, ground (arith, start_async_runtime-is_held p.runtime)))
load-Phase e p (inr (inl (a, t))) =
    inr (inl (a, ground (arith, start_async_runtime-is_held p.runtime)))
load-Phase e p (inr (inr u)) = inr (inr (ground (arith, start_async_runtime-is_held p.runtime)))

-- What the end of an environment does to the fields, hook by hook.
unload-Untied : (e : ℕ) (p : Process) → Untied p → Untied (unload e p)
unfolding unload is_live
unload-Untied e p u = ground arith

unload-Tied : (e a : ℕ) (p : Process) → (a == e) ≡ false → Tied p a → Tied (unload e p) a
unfolding unload
unload-Tied e a p d t = ground (arith, is_live-without e a p.live, length-without e p.live)

unload_last : (e a : ℕ) (p : Process) → (a == e) ≡ true → Tied p a → Untied (unload e p)
unfolding unload
unload_last e a p d t = ground (arith, without_alone e p.live)

unload-Phase : (e : ℕ) (p : Process) → is_live e p.live ≡ true → Phase p → Phase (unload e p)
unfolding is_live
unload-Phase e p h (inl f) = ground arith
unload-Phase e p h (inr (inl (a, t))) = elim (Bool-cases (a == e)) [
  | inl own ↦ inr (inr (unload_last e a p own t))
  | inr other ↦ inr (inl (a, unload-Tied e a p other t))
]
unload-Phase e p h (inr (inr u)) = inr (inr (unload-Untied e p u))

runtime-Phase :
    (p : Process) (c : Cells)
    → (is_held p.runtime ≡ true → is_held c ≡ true)
    → Phase p
    → Phase (record p { runtime = c })
runtime-Phase p c h (inl f) = inl f
runtime-Phase p c h (inr (inl (a, t))) = inr (inl (a, (t.0, t.1, t.2, t.3, h t.4)))
runtime-Phase p c h (inr (inr (u, v, inl w))) = inr (inr (u, v, inl (h w)))
runtime-Phase p c h (inr (inr (u, v, inr w))) = inr (inr (u, v, inr w))

Reachable-Phase : {p : Process} → Reachable p → Phase p
Reachable-Phase (started fresh) = inl (refl, refl, refl, refl)
Reachable-Phase (loaded {p = p} e r h) = load-Phase e p (Reachable-Phase r)
Reachable-Phase (unloaded {p = p} e r h) = unload-Phase e p h (Reachable-Phase r)
Reachable-Phase (configured {p = p} r s) =
    runtime-Phase p (create_custom_tokio_runtime r p.runtime)
      (λ h. create_custom_tokio_runtime-is_held r p.runtime ∙ h) (Reachable-Phase s)
Reachable-Phase (worked {p = p} s) =
    runtime-Phase p (use_runtime p.runtime).1 (use_runtime-is_held p.runtime) (Reachable-Phase s)

Phase-is_held : (p : Process) (e : ℕ) → Phase p → is_live e p.live ≡ true → is_held p.runtime ≡ true
unfolding is_live
Phase-is_held p e (inl f) h = ground arith
Phase-is_held p e (inr (inl (a, t))) h = t.4
Phase-is_held p e (inr (inr (u, v, inl w))) h = w
Phase-is_held p e (inr (inr (u, v, inr w))) h = ground arith

-- In every process that loads and ends of environments, the choice of a runtime and work lead to, the
-- shared runtime is there as long as some environment that loaded the module has not ended: `spawn`,
-- `block_on` and the others find a runtime and do not panic. A module does not call
-- `shutdown_async_runtime` itself.
pub Reachable-held :
    {p : Process} (e : ℕ) → Reachable p → is_live e p.live ≡ true → (use_runtime p.runtime).0 ≢ none
Reachable-held {p} e r h = use_runtime-ne-none p.runtime (Phase-is_held p e (Reachable-Phase r) h)

abbrev Registered : Process → Type 0
Registered p = (p.first_module_registered ≡ true) ⊎ ((p.module_count ≡ 0) × (p.hooks ≡ []))

thread_cleanup_registered :
    (own : Bool) (p : Process)
    → p.first_module_registered ≡ true
    → (if own then thread_cleanup p else p).first_module_registered ≡ true
unfolding thread_cleanup
thread_cleanup_registered own p f = ground arith

run_hooks_registered :
    (e : ℕ) (hs : List ℕ) (p : Process)
    → p.first_module_registered ≡ true
    → (run_hooks e hs p).first_module_registered ≡ true
unfolding run_hooks
run_hooks_registered e [] p f = f
run_hooks_registered e (h ∷ hs) p f =
    run_hooks_registered e hs (if h == e then thread_cleanup p else p)
      (thread_cleanup_registered (h == e) p f)

unload-Registered : (e : ℕ) (p : Process) → Registered p → Registered (unload e p)
unfolding unload
unload-Registered e p (inl f) = inl (ground (arith, run_hooks_registered e p.hooks p f))
unload-Registered e p (inr (c, h)) = inr (ground arith)

Reachable-Registered : {p : Process} → Reachable p → Registered p
unfolding load
Reachable-Registered (started fresh) = inr (refl, refl)
Reachable-Registered (loaded {p = p} e r h) = inl (ground arith)
Reachable-Registered (unloaded {p = p} e r h) = unload-Registered e p (Reachable-Registered r)
Reachable-Registered (configured r s) = Reachable-Registered s
Reachable-Registered (worked s) = Reachable-Registered s

-- In every such process a load finds the first registration done, or is the first: it does not spin in
-- `wait_first_thread_registered`.
pub Reachable-waits : {p : Process} → Reachable p → waits p ≡ false
unfolding waits
Reachable-waits {p} r = ground (arith, Reachable-Registered r)
