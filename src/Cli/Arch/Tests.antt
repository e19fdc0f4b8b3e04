-- ===== src/Cli/Arch/Tests.antt =====
-- Runs of the conversion of names into targets.
use ohos_rs.Common.{none, some, ◌≡◌, refl}
use ohos_rs.Common.Text.{codes}
use ohos_rs.Cli.Arch.{
  Arch, arm32, arm64, x86_64, loong_arch64, from_str, rust_target, c_target, rust_link_target,
}

capitals : from_str (codes "ARM64") ≡ some arm64
unfolding from_str
capitals = refl

short_name : (from_str (codes "x64") ≡ some x86_64) × (from_str (codes "aarch64") ≡ none)
unfolding from_str
short_name = (refl, refl)

-- The names of the compiler and of the linker's directories give back their target, and those of
-- the variables for the linker are refused.
from_str-targets :
    (a : Arch)
    → (from_str (rust_target a) ≡ some a)
      × (from_str (c_target a) ≡ some a)
      × (from_str (rust_link_target a) ≡ none)
unfolding from_str rust_target c_target rust_link_target
from_str-targets arm64 = (refl, refl, refl)
from_str-targets arm32 = (refl, refl, refl)
from_str-targets x86_64 = (refl, refl, refl)
from_str-targets loong_arch64 = (refl, refl, refl)
