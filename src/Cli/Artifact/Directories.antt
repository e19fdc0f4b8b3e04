-- ===== src/Cli/Artifact/Directories.antt =====
-- Where cli/cargo-ohrs/src/build/artifact.rs looks for libraries: the directories of a build script
-- and of an artifact, and those of the NDK.
pub mod Listed
mod Tests
use mathlib.Core.List
use ohos_rs.Common.{
  if◌then◌else◌, Bool, true, false, ◌&&◌, ◌||◌, Option, none, some, List, [], ◌∷◌, ◌++◌, map,
}
use ohos_rs.Common.Text.{Text, codes, text_eq, starts_with, mem_text}
use ohos_rs.Cli.Path.{
  components_from, file_name, join_path, strip_link_search_kind, has_so_extension, has_a_extension,
}
use ohos_rs.Cli.Arch.{Arch, c_target}
use ohos_rs.Cli.Artifact.{Host, identity, deduplicate_paths}

-- What `Path::components` has before the names: the root, or a leading `.`.
leading_component : Text → List Text
unfolding starts_with text_eq
leading_component p =
    if starts_with (codes "/") p
    then codes "/" ∷ []
    else if text_eq p (codes ".") || starts_with (codes "./") p
    then codes "." ∷ []
    else []

path_components : Text → List Text
unfolding leading_component components_from
path_components p = leading_component p ++ List.reverse (components_from p [] [])

is_prefix : List Text → List Text → Bool
unfolding text_eq
is_prefix [] s = true
is_prefix (a ∷ p) [] = false
is_prefix (a ∷ p) (b ∷ s) = text_eq a b && is_prefix p s

-- `Path::starts_with`, of the path and the root.
unfoldable pub path_starts_with : Text → Text → Bool
unfolding path_components is_prefix
path_starts_with path root = is_prefix (path_components root) (path_components path)

unfoldable pub is_excluded : List Text → Text → Bool
unfolding path_starts_with
is_excluded [] path = false
is_excluded (root ∷ roots) path = path_starts_with path root || is_excluded roots path

-- The filter up to the test of what was seen.
unfoldable pub usable_directory : Host → List Text → Text → Option Text
unfolding strip_link_search_kind is_excluded
usable_directory host excluded_roots value =
    let path = strip_link_search_kind value in
    elim (host.is_dir path) [
      | false ↦ none
      | true ↦ elim (host.canonicalize path) [
        | none ↦ none
        | some directory ↦ if is_excluded excluded_roots directory then none else some directory
      ]
    ]

unfoldable pub collect_directories : Host → List Text → List Text → List Text → List Text
unfolding usable_directory mem_text
collect_directories host excluded_roots seen [] = []
collect_directories host excluded_roots seen (v ∷ vs) =
    elim (usable_directory host excluded_roots v) [
      | none ↦ collect_directories host excluded_roots seen vs
      | some d ↦ elim (mem_text d seen) [
        | true ↦ collect_directories host excluded_roots seen vs
        | false ↦ d ∷ collect_directories host excluded_roots (d ∷ seen) vs
      ]
    ]

unfoldable pub resolve_link_search_path_values : Host → List Text → List Text → List Text
unfolding collect_directories
resolve_link_search_path_values host values excluded_roots =
    collect_directories host (map (identity host) excluded_roots) [] values

-- What `cargo_metadata` says of an artifact.
pub record BuiltArtifact : Type 0 where
  pub package_id : Text
  pub filenames : List Text

unfoldable pub parents : Host → List Text → List Text
parents host [] = []
parents host (f ∷ fs) = elim (host.parent f) [
  | none ↦ parents host fs
  | some d ↦ d ∷ parents host fs
]

unfoldable pub resolve_artifact_search_paths : Host → BuiltArtifact → List Text
unfolding parents deduplicate_paths
resolve_artifact_search_paths host artifact =
    deduplicate_paths host (parents host artifact.filenames)

unfoldable pub library_files : Host → List Text → List Text
unfolding has_so_extension has_a_extension
library_files host [] = []
library_files host (f ∷ fs) =
    let rest = library_files host fs in
    if (has_so_extension f || has_a_extension f) && host.is_file f then f ∷ rest else rest

unfoldable pub resolve_artifact_library : Host → BuiltArtifact → Text → List Text
unfolding library_files text_eq
resolve_artifact_library host artifact package_id =
    if text_eq artifact.package_id package_id then library_files host artifact.filenames else []

join_all : Text → List Text → Text
unfolding join_path
join_all path [] = path
join_all path (name ∷ names) = join_all (join_path path name) names

-- The directories of one NDK.
sysroot_paths : Text → Arch → List Text
unfolding join_all c_target
sysroot_paths ndk arch =
    let lib = codes "native" ∷ codes "sysroot" ∷ codes "usr" ∷ codes "lib" ∷ [] in
    join_all ndk (lib ++ c_target arch ∷ []) ∷ join_all ndk lib ∷ []

unfoldable pub ohos_system_library_paths : Host → Text → Option Text → Arch → List Text
unfolding sysroot_paths deduplicate_paths
ohos_system_library_paths host ndk hos_ndk arch =
    let more : List Text = elim hos_ndk [ none ↦ [] | some other ↦ sysroot_paths other arch ] in
    deduplicate_paths host (sysroot_paths ndk arch ++ more)

unfoldable pub ohos_runtime_library_paths : Host → Text → Arch → List Text
unfolding join_all c_target deduplicate_paths join_path
ohos_runtime_library_paths host ndk arch =
    let target_dir =
      join_all ndk (codes "native" ∷ codes "llvm" ∷ codes "lib" ∷ c_target arch ∷ []) in
    deduplicate_paths host (target_dir ∷ join_path target_dir (codes "c++") ∷ [])
