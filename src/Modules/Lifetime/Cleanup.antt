-- ===== src/Modules/Lifetime/Cleanup.antt =====
-- What is left of the runtime and of the custom collector once the environment of the first load has
-- ended, or a second environment has loaded the module.
use ohos_rs.Common.{ℕ, ◌≤◌, true, [], ◌∷◌, ◌≡◌}
use ohos_rs.Runtime.{Cells}
use ohos_rs.Modules.Lifetime.{Process}

abbrev with_runtime : Process → Cells → Process
with_runtime p c = record p { runtime = c }

-- No hook is left and none is added any more.
abbrev Released : Process → Type 0
Released p = (p.hooks ≡ []) × (p.env_cleanup_hook_added ≡ true) × (p.first_module_registered ≡ true)

-- One hook is left, of an environment that is not the only load.
abbrev Shared : Process → ℕ → Type 0
Shared p a =
    (p.hooks ≡ a ∷ [])
    × (p.env_cleanup_hook_added ≡ true)
    × (p.first_module_registered ≡ true)
    × (2 ≤ p.module_count)
