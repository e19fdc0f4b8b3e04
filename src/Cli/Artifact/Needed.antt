-- ===== src/Cli/Artifact/Needed.antt =====
-- `parse_needed_libraries` of cli/cargo-ohrs/src/build/artifact.rs; `none` is its error.
pub mod Print
use ohos_rs.Common.{
  ℕ, ◌==◌, if◌then◌else◌, Bool, true, false, ◌&&◌, ◌||◌, not, Option, none, some, List, [], ◌∷◌,
  ◌++◌, map, leb, ◌≡◌, refl, arith, All, ap, sym, ◌∙◌, Bool-cases, ◌⊎◌, inl, inr,
}
use ohos_rs.Common.Lines.{trim, lines_from}
use ohos_rs.Common.Text.{Text, codes, text_eq, text_eq_iff, text_eq_refl}

abbrev pub header : Text
header = codes "NeededLibraries ["

abbrev pub closing : Text
closing = codes "]"

pub record Parser : Type 0 where
  pub in_needed_libraries : Bool
  pub found_section : Bool
  pub libraries : List Text

abbrev is_empty : Text → Bool
is_empty [] = true
is_empty (_ ∷ _) = false

-- One line, already trimmed.
pub parse_line : Text → Parser → Parser
unfolding text_eq
parse_line line p =
    if text_eq line header
    then record p { in_needed_libraries = true; found_section = true }
    else if p.in_needed_libraries && text_eq line closing
    then record p { in_needed_libraries = false }
    else if p.in_needed_libraries && not (is_empty line)
    then record p { libraries = p.libraries ++ line ∷ [] }
    else p

pub parse_lines : List Text → Parser → Parser
unfolding parse_line trim
parse_lines [] p = p
parse_lines (l ∷ ls) p = parse_lines ls (parse_line (trim l) p)

pub finish : Parser → Option (List Text)
finish p = if not p.found_section || p.in_needed_libraries then none else some p.libraries

abbrev pub fresh : Parser
fresh = record { in_needed_libraries = false; found_section = false; libraries = [] }

unfoldable pub parse_needed_libraries : Text → Option (List Text)
unfolding parse_lines lines_from finish
parse_needed_libraries output = finish (parse_lines (lines_from [] output) fresh)
