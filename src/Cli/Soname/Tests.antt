-- ===== src/Cli/Soname/Tests.antt =====
-- Runs of the normalisation of names.
use ohos_rs.Common.{none, some, ◌≡◌, refl}
use ohos_rs.Common.Text.{codes}
use ohos_rs.Cli.Soname.{normalize_soname}

names_normalized :
    (normalize_soname (codes "xx") ≡ some (codes "libxx.so"))
    × (normalize_soname (codes "xx.so") ≡ some (codes "libxx.so"))
    × (normalize_soname (codes "libxx.so") ≡ some (codes "libxx.so"))
    × (normalize_soname (codes "libxx.so.1") ≡ none)
    × (normalize_soname (codes "a.so.b.so.1") ≡ some (codes "liba.so.b.so.1.so"))
    × (normalize_soname (codes "libxx.sound") ≡ some (codes "libxx.sound"))
unfolding normalize_soname
names_normalized = (refl, refl, refl, refl, refl, refl)

made : normalize_soname (codes "xx") ≡ some (codes "libxx.so")
unfolding normalize_soname
made = refl
