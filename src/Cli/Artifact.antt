-- ===== src/Cli/Artifact.antt =====
-- `cli/cargo-ohrs/src/build/artifact.rs`: which libraries a built module needs at run time.
-- The file system and the program that reads a library are not in the sources: what they answer is
-- the record `Host`.
pub mod Rounds
pub mod Needed
pub mod Provided
pub mod Termination
pub mod Reading
pub mod Closure
pub mod Directories
use mathlib.Core.Option
use ohos_rs.Common.{
  ℕ, zero, suc, ◌==◌, if◌then◌else◌, Bool, true, false, not, ◌&&◌, ◌||◌, Option, none, some, List,
  [], ◌∷◌, ◌++◌, length, drop, ltb, ◌-◌, map,
}
use ohos_rs.Cli.Path.{join_path, validate_soname, has_so_extension}
use ohos_rs.Common.Text.{Text, codes, text_eq, starts_with, mem_text, split_before}

-- `is_dir`, `is_file`, `canonicalize` and `parent` of a path; `needed` is `read_needed`.
pub record Host : Type 0 where
  pub is_dir : Text → Bool
  pub is_file : Text → Bool
  pub canonicalize : Text → Option Text
  pub parent : Text → Option Text
  pub needed : Text → Option (List Text)

-- `unreadable` is the error of `read_needed`; `unresolved` names the library and who requires it.
pub data Failure : Type 0 where
  unreadable invalid_soname : Text → Failure
  unresolved : Text → Text → Failure

pub data Attempt (A : Type 0) : Type 0 where
  done : A → Attempt A
  failed : Failure → Attempt A

pub record RuntimeLibrary : Type 0 where
  pub source : Text
  pub soname : Text

-- `filter(is_dir)`, `filter_map(canonicalize)` and the filter on what was seen.
pub deduplicate_from : Host → List Text → List Text → List Text
unfolding mem_text
deduplicate_from host seen [] = []
deduplicate_from host seen (p ∷ ps) = elim (host.is_dir p) [
  | false ↦ deduplicate_from host seen ps
  | true ↦ elim (host.canonicalize p) [
    | none ↦ deduplicate_from host seen ps
    | some q ↦ elim (mem_text q seen) [
      | true ↦ deduplicate_from host seen ps
      | false ↦ q ∷ deduplicate_from host (q ∷ seen) ps
    ]
  ]
]

unfoldable pub deduplicate_paths : Host → List Text → List Text
unfolding deduplicate_from
deduplicate_paths host paths = deduplicate_from host [] paths

unfoldable pub find_library : Host → Text → Text → Option Text
unfolding join_path
find_library host directory soname =
    let candidate = join_path directory soname in
    if host.is_file candidate then some candidate else none

-- `find_map` over the directories.
unfoldable pub find_in : Host → List Text → Text → Option Text
unfolding find_library
find_in host [] soname = none
find_in host (d ∷ ds) soname = elim (find_library host d soname) [
  | some p ↦ some p
  | none ↦ find_in host ds soname
]

-- The search paths, already without duplicates.
pub record Paths : Type 0 where
  pub dependency : List Text
  pub runtime : List Text
  pub system : List Text

unfoldable pub candidate : Host → Paths → Text → Text → Option Text
unfolding find_in
candidate host paths requester soname =
    let directories : List Text = elim (host.parent requester) [
      | some d ↦ d ∷ paths.dependency
      | none ↦ paths.dependency
    ] in
    elim (find_in host directories soname) [
      | some p ↦ some p
      | none ↦ find_in host paths.runtime soname
    ]

pub record Search : Type 0 where
  pub pending : List Text
  pub scanned : List Text
  pub handled : List Text
  pub resolved : List RuntimeLibrary

-- The body of the inner loop behind the insertion of the name.
unfoldable pub resolve_soname : Host → Paths → Text → Text → Search → Attempt Search
unfolding validate_soname candidate find_in
resolve_soname host paths requester soname s = elim (validate_soname soname) [
  | false ↦ failed (invalid_soname soname)
  | true ↦ elim (candidate host paths requester soname) [
    | some source ↦ done (record s {
      pending = s.pending ++ source ∷ [];
      resolved = s.resolved ++ record { source = source; soname = soname } ∷ [];
    })
    | none ↦ elim (find_in host paths.system soname) [
      | some _ ↦ done s
      | none ↦ failed (unresolved soname requester)
    ]
  ]
]

-- The inner loop over what `requester` needs.
unfoldable pub resolve_all : Host → Paths → Text → List Text → Search → Attempt Search
unfolding resolve_soname mem_text
resolve_all host paths requester [] s = done s
resolve_all host paths requester (soname ∷ rest) s = elim (mem_text soname s.handled) [
  | true ↦ resolve_all host paths requester rest s
  | false ↦
      elim (resolve_soname host paths requester soname
        (record s { handled = soname ∷ s.handled })) [
          | failed f ↦ failed f
          | done s' ↦ resolve_all host paths requester rest s'
        ]
]

-- `canonicalize().unwrap_or_else(..)`.
abbrev pub identity : Host → Text → Text
identity host p = Option.get_or (host.canonicalize p) p

-- One round of the outer loop, for a path that was taken from the queue.
unfoldable pub scan_one : Host → Paths → Text → Search → Attempt Search
unfolding resolve_all mem_text
scan_one host paths requester s = elim (mem_text (identity host requester) s.scanned) [
  | true ↦ done s
  | false ↦ elim (host.needed requester) [
    | none ↦ failed (unreadable requester)
    | some names ↦
        resolve_all host paths requester names
          (record s { scanned = identity host requester ∷ s.scanned })
  ]
]

-- The outer loop; `none` is too little fuel.
unfoldable pub scan : ℕ → Host → Paths → Search → Option (Attempt Search)
unfolding scan_one
scan zero host paths s = elim s.pending [ [] ↦ some (done s) | _ ∷ _ ↦ none ]
scan (suc fuel) host paths s = elim s.pending [
  | [] ↦ some (done s)
  | requester ∷ rest ↦ elim (scan_one host paths requester (record s { pending = rest })) [
    | failed f ↦ some (failed f)
    | done s' ↦ scan fuel host paths s'
  ]
]

unfoldable pub so_files : List Text → List Text
unfolding has_so_extension
so_files [] = []
so_files (p ∷ ps) = let rest = so_files ps in if has_so_extension p then p ∷ rest else rest

unfoldable pub start_search : Host → List Text → Search
unfolding so_files
start_search host roots = record {
  pending = so_files roots;
  scanned = [];
  handled = [];
  resolved = [];
}

unfoldable pub clean_paths : Host → Paths → Paths
unfolding deduplicate_paths
clean_paths host paths = record {
  dependency = deduplicate_paths host paths.dependency;
  runtime = deduplicate_paths host paths.runtime;
  system = deduplicate_paths host paths.system;
}

unfoldable pub libraries : Attempt Search → Attempt (List RuntimeLibrary)
libraries (failed f) = failed f
libraries (done s) = done s.resolved

unfoldable pub resolve_runtime_libraries_with :
    ℕ → Host → List Text → Paths → Option (Attempt (List RuntimeLibrary))
unfolding scan start_search libraries clean_paths
resolve_runtime_libraries_with fuel host roots paths =
    Option.map libraries (scan fuel host (clean_paths host paths) (start_search host roots))
