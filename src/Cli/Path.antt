-- ===== src/Cli/Path.antt =====
-- What cli/cargo-ohrs/src/build/artifact.rs does with paths and names, by the rules of `std::path` on
-- a system whose separator is a slash.
pub mod Plain
use ohos_rs.Common.{
  ℕ, suc, ◌==◌, if◌then◌else◌, Bool, true, false, ◌&&◌, ◌||◌, Option, none, some, List, [], ◌∷◌,
  ◌++◌, length, drop, ltb, ◌-◌,
}
use ohos_rs.Common.Text.{Text, codes, text_eq, starts_with, mem_text, split_before}

-- The components of a path, without the empty ones and without `.`; the last one first.
keep_component : Text → List Text → List Text
unfolding text_eq
keep_component [] acc = acc
keep_component (c ∷ s) acc = if text_eq (c ∷ s) (codes ".") then acc else (c ∷ s) ∷ acc

unfoldable pub components_from : Text → Text → List Text → List Text
unfolding keep_component
components_from [] now acc = keep_component now acc
components_from (c ∷ s) now acc = elim (c == b'/') [
  | true ↦ components_from s [] (keep_component now acc)
  | false ↦ components_from s (now ++ c ∷ []) acc
]

-- `Path::file_name`, and the test of `extension` on it.
name_of : List Text → Option Text
unfolding text_eq
name_of [] = none
name_of (c ∷ _) = if text_eq c (codes "..") then none else some c

unfoldable pub file_name : Text → Option Text
unfolding components_from name_of
file_name p = name_of (components_from p [] [])

unfoldable pub has_so_extension : Text → Bool
unfolding file_name text_eq
has_so_extension p = elim (file_name p) [
  | none ↦ false
  | some n ↦ ltb 3 (length n) && text_eq (drop (length n - 3) n) (codes ".so")
]

unfoldable pub has_a_extension : Text → Bool
unfolding file_name text_eq
has_a_extension p = elim (file_name p) [
  | none ↦ false
  | some n ↦ ltb 2 (length n) && text_eq (drop (length n - 2) n) (codes ".a")
]

-- `Path::join`.
ends_with_slash : Text → Bool
ends_with_slash [] = true
ends_with_slash (c ∷ []) = c == b'/'
ends_with_slash (_ ∷ c ∷ s) = ends_with_slash (c ∷ s)

unfoldable pub join_path : Text → Text → Text
unfolding ends_with_slash starts_with
join_path directory name =
    if starts_with (codes "/") name
    then name
    else if ends_with_slash directory
    then directory ++ name
    else directory ++ (b'/' ∷ name)

unfoldable pub validate_soname : Text → Bool
unfolding file_name text_eq
validate_soname soname = elim (file_name soname) [ none ↦ false | some n ↦ text_eq n soname ]

unfoldable pub strip_link_search_kind : Text → Text
unfolding split_before mem_text
strip_link_search_kind value = elim (split_before b'=' value) [
  | none ↦ value
  | some kind ↦
      if mem_text kind
        (codes "native" ∷ codes "dependency" ∷ codes "crate" ∷ codes "framework" ∷ codes "all" ∷ [])
      then drop (suc (length kind)) value
      else value
]
