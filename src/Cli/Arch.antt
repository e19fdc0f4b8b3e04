-- ===== src/Cli/Arch.antt =====
-- The targets of cli/cargo-ohrs/src/util/arch.rs and their names.
mod Tests
use ohos_rs.Common.{
  ℕ, ◌+◌, ◌-◌, ltb, ◌==◌, if◌then◌else◌, Bool, ◌&&◌, Option, none, some, List, [], ◌∷◌, map,
}
use ohos_rs.Common.Text.{Text, codes, mem_text}

pub data Arch : Type 0 where
  arm64 arm32 x86_64 loong_arch64 : Arch

unfoldable pub to_arch : Arch → Text
to_arch arm64 = codes "arm64-v8a"
to_arch arm32 = codes "armeabi-v7a"
to_arch x86_64 = codes "x86_64"
to_arch loong_arch64 = codes "loongarch64"

unfoldable pub c_target : Arch → Text
c_target arm64 = codes "aarch64-linux-ohos"
c_target arm32 = codes "arm-linux-ohos"
c_target x86_64 = codes "x86_64-linux-ohos"
c_target loong_arch64 = codes "loongarch64-linux-ohos"

unfoldable pub rust_link_target : Arch → Text
rust_link_target arm64 = codes "AARCH64_UNKNOWN_LINUX_OHOS"
rust_link_target arm32 = codes "ARMV7_UNKNOWN_LINUX_OHOS"
rust_link_target x86_64 = codes "X86_64_UNKNOWN_LINUX_OHOS"
rust_link_target loong_arch64 = codes "LOONGARCH64_UNKNOWN_LINUX_OHOS"

unfoldable pub rust_target : Arch → Text
rust_target arm64 = codes "aarch64-unknown-linux-ohos"
rust_target arm32 = codes "armv7-unknown-linux-ohos"
rust_target x86_64 = codes "x86_64-unknown-linux-ohos"
rust_target loong_arch64 = codes "loongarch64-unknown-linux-ohos"

-- `to_lowercase` as far as a comparison with the names below can tell: besides the capitals of
-- ASCII only the sign for kelvin has a small letter of ASCII.
lowercase_char : ℕ → ℕ
lowercase_char c = if ltb 64 c && ltb c 91 then c + 32 else if c == 0x212a then b'k' else c

unfoldable pub to_lowercase : Text → Text
unfolding lowercase_char
to_lowercase s = map lowercase_char s

abbrev arm64_names : List Text
arm64_names =
    codes "aarch"
    ∷ codes "arm64"
    ∷ codes "aarch64-linux-ohos"
    ∷ codes "aarch64-unknown-linux-ohos"
    ∷ codes "AARCH64_UNKNOWN_LINUX_OHOS"
    ∷ []

abbrev arm32_names : List Text
arm32_names =
    codes "arm"
    ∷ codes "arm32"
    ∷ codes "arm-linux-ohos"
    ∷ codes "armv7-unknown-linux-ohos"
    ∷ codes "ARMV7_UNKNOWN_LINUX_OHOS"
    ∷ []

abbrev x86_64_names : List Text
x86_64_names =
    codes "x86_64"
    ∷ codes "x64"
    ∷ codes "x86_64-linux-ohos"
    ∷ codes "x86_64-unknown-linux-ohos"
    ∷ codes "X86_64_UNKNOWN_LINUX_OHOS"
    ∷ []

abbrev loong_arch64_names : List Text
loong_arch64_names =
    codes "loongarch64"
    ∷ codes "loongarch64-linux-ohos"
    ∷ codes "loongarch64-unknown-linux-ohos"
    ∷ codes "LOONGARCH64_UNKNOWN_LINUX_OHOS"
    ∷ []

arch_named : Text → Option Arch
unfolding mem_text
arch_named name =
    if mem_text name arm64_names
    then some arm64
    else if mem_text name arm32_names
    then some arm32
    else if mem_text name x86_64_names
    then some x86_64
    else if mem_text name loong_arch64_names
    then some loong_arch64
    else none

-- `none` is the error.
unfoldable pub from_str : Text → Option Arch
unfolding arch_named to_lowercase
from_str s = arch_named (to_lowercase s)
