-- ===== src/Cli/Artifact/Directories/Tests.antt =====
-- Runs of the functions that say where libraries are looked for, and their theorem at a concrete
-- input.
use ohos_rs.Common.{if◌then◌else◌, true, false, not, none, some, List, [], ◌∷◌, ◌≡◌, ◌↔◌, refl}
use ohos_rs.Common.Text.{Text, codes, text_eq, mem_text}
use ohos_rs.Common.Members.{IsDistinct}
use ohos_rs.Cli.Arch.{arm64}
use ohos_rs.Cli.Artifact.{Host}
use ohos_rs.Cli.Artifact.Directories.{
  resolve_link_search_path_values, resolve_artifact_library, resolve_artifact_search_paths,
  ohos_system_library_paths, ohos_runtime_library_paths, path_starts_with,
}
use ohos_rs.Cli.Artifact.Directories.Listed.{Gives, resolve_link_search_path_values-Mem}

abbrev advertised : List Text
advertised =
    codes "native=/m"
    ∷ codes "native=/s/lib"
    ∷ codes "native=/d"
    ∷ codes "/d"
    ∷ codes "all=/sys"
    ∷ []

abbrev disk : Host
disk = record {
  is_dir = λ p. not (text_eq p (codes "/m"));
  is_file = λ p. true;
  canonicalize = λ p. some p;
  parent = λ p. if text_eq p (codes "/") then none else some (codes "/t");
  needed = λ p. some [];
}

searched :
    resolve_link_search_path_values disk advertised (codes "/s" ∷ [])
    ≡ codes "/d" ∷ codes "/sys" ∷ []
unfolding resolve_link_search_path_values
searched = refl

abbrev artifact_files : List Text
artifact_files = codes "/t/libx.so" ∷ codes "/t/libx.rlib" ∷ codes "/t/libx.a" ∷ codes "/t/.so" ∷ []

artifact_searched :
    (resolve_artifact_library disk
        (record { package_id = codes "x"; filenames = artifact_files })
        (codes "x")
      ≡ codes "/t/libx.so" ∷ codes "/t/libx.a" ∷ [])
    × (resolve_artifact_library disk
          (record { package_id = codes "x"; filenames = artifact_files })
          (codes "y")
        ≡ [])
    × (resolve_artifact_search_paths disk
          (record { package_id = codes "x"; filenames = artifact_files })
        ≡ codes "/t" ∷ [])
unfolding resolve_artifact_library resolve_artifact_search_paths
artifact_searched = (refl, refl, refl)

system_searched :
    ohos_system_library_paths disk (codes "/ndk") (some (codes "/ndk/")) arm64
    ≡ codes "/ndk/native/sysroot/usr/lib/aarch64-linux-ohos"
      ∷ codes "/ndk/native/sysroot/usr/lib"
      ∷ []
unfolding ohos_system_library_paths
system_searched = refl

runtime_searched :
    ohos_runtime_library_paths disk (codes "/ndk") arm64
    ≡ codes "/ndk/native/llvm/lib/aarch64-linux-ohos"
      ∷ codes "/ndk/native/llvm/lib/aarch64-linux-ohos/c++"
      ∷ []
unfolding ohos_runtime_library_paths
runtime_searched = refl

paths_compared :
    (path_starts_with (codes "/s/lib") (codes "/s/") ≡ true)
    × (path_starts_with (codes "/sys") (codes "/s") ≡ false)
    × (path_starts_with (codes "s/lib") (codes "/s") ≡ false)
    × (path_starts_with (codes "./s") (codes "s") ≡ false)
    × (path_starts_with (codes "/a/./b/c") (codes "/a/b") ≡ true)
unfolding path_starts_with
paths_compared = (refl, refl, refl, refl, refl)

resolve_link_search_path_values-Mem_example :
    IsDistinct (resolve_link_search_path_values disk advertised (codes "/s" ∷ []))
    × ((q : Text)
        → (mem_text q (resolve_link_search_path_values disk advertised (codes "/s" ∷ [])) ≡ true)
          ↔ ((v : Text) × (mem_text v advertised ≡ true) × Gives disk (codes "/s" ∷ []) q v))
resolve_link_search_path_values-Mem_example =
    resolve_link_search_path_values-Mem disk advertised (codes "/s" ∷ [])
