-- ===== src/Cli/Artifact/Needed/Print.antt =====
-- `parse_needed_libraries` gets back the names that a listing shows.
use ohos_rs.Common.{
  Bool, true, false, none, some, List, [], ◌∷◌, ◌++◌, map, ◌≡◌, ◌≢◌, refl, arith, All, ap, subst,
  sym, ◌∙◌,
}
use mathlib.Core.List.{append-nil, append_assoc}
use ohos_rs.Common.Lines.{trim, unlines, IsLine, lines_from-unlines}
use ohos_rs.Common.Text.{Text, text_eq, text_eq_iff}
use ohos_rs.Cli.Artifact.Needed.{
  header, closing, parse_line, parse_lines, finish, fresh, parse_needed_libraries,
}

-- A line outside a listing, and a line of one.
abbrev pub IsQuiet : Text → Type 0
IsQuiet l = trim l ≢ header

abbrev pub IsName : Text → Type 0
IsName l = (trim l ≢ header) × (trim l ≢ closing) × (trim l ≢ [])

parse_line-quiet :
    (l : Text) (found : Bool) (libs : List Text)
    → l ≢ header
    → parse_line l (record { in_needed_libraries = false; found_section = found; libraries = libs })
      ≡ record { in_needed_libraries = false; found_section = found; libraries = libs }
unfolding parse_line
parse_line-quiet l found libs h = ground (arith, text_eq_iff l header)

parse_line-name :
    (l : Text) (libs : List Text)
    → l ≢ header
    → l ≢ closing
    → l ≢ []
    → parse_line l (record { in_needed_libraries = true; found_section = true; libraries = libs })
      ≡ record { in_needed_libraries = true; found_section = true; libraries = libs ++ l ∷ [] }
unfolding parse_line
parse_line-name [] libs h c e = absurd (e refl)
parse_line-name (d ∷ l) libs h c e =
    ground (arith, text_eq_iff (d ∷ l) header, text_eq_iff (d ∷ l) closing)

parse_lines-quiet :
    (ls rest : List Text) (found : Bool) (libs : List Text)
    → All IsQuiet ls
    → parse_lines
        (ls ++ rest)
        (record { in_needed_libraries = false; found_section = found; libraries = libs })
      ≡ parse_lines rest
          (record { in_needed_libraries = false; found_section = found; libraries = libs })
unfolding parse_lines
parse_lines-quiet [] rest found libs h = refl
parse_lines-quiet (l ∷ ls) rest found libs h =
    ap (parse_lines (ls ++ rest)) (parse_line-quiet (trim l) found libs h.0)
    ∙ parse_lines-quiet ls rest found libs h.1

parse_lines-names :
    (ls rest : List Text) (libs : List Text)
    → All IsName ls
    → parse_lines
        (ls ++ rest)
        (record { in_needed_libraries = true; found_section = true; libraries = libs })
      ≡ parse_lines rest (record {
        in_needed_libraries = true;
        found_section = true;
        libraries = libs ++ map trim ls;
      })
unfolding parse_lines
parse_lines-names [] rest libs h =
    ap
      (λ ks.
        parse_lines rest
          (record { in_needed_libraries = true; found_section = true; libraries = ks }))
      (sym (append-nil libs))
parse_lines-names (l ∷ ls) rest libs h =
    ap (parse_lines (ls ++ rest)) (parse_line-name (trim l) libs h.0.0 h.0.1 h.0.2)
    ∙ parse_lines-names ls rest (libs ++ trim l ∷ []) h.1
    ∙ ap
        (λ ks.
          parse_lines rest
            (record { in_needed_libraries = true; found_section = true; libraries = ks }))
        (append_assoc libs (trim l ∷ []) (map trim ls))

parse_line-header :
    (l : Text)
    → l ≡ header
    → parse_line l fresh
      ≡ record { in_needed_libraries = true; found_section = true; libraries = [] }
unfolding parse_line
parse_line-header l h = ground (arith, text_eq_iff l header)

parse_line-closing :
    (l : Text) (libs : List Text)
    → l ≡ closing
    → parse_line l (record { in_needed_libraries = true; found_section = true; libraries = libs })
      ≡ record { in_needed_libraries = false; found_section = true; libraries = libs }
unfolding parse_line text_eq
parse_line-closing l libs h =
    subst
      (λ k.
        parse_line k (record { in_needed_libraries = true; found_section = true; libraries = libs })
        ≡ record { in_needed_libraries = false; found_section = true; libraries = libs })
      (sym h) refl

parse_lines-section :
    (before names after : List Text) (first last : Text)
    → All IsQuiet before
    → trim first ≡ header
    → All IsName names
    → trim last ≡ closing
    → parse_lines (before ++ first ∷ (names ++ last ∷ after)) fresh
      ≡ parse_lines after
          (record { in_needed_libraries = false; found_section = true; libraries = map trim names })
unfolding parse_lines
parse_lines-section before names after first last quiet opens shown closes =
    parse_lines-quiet before (first ∷ (names ++ last ∷ after)) false [] quiet
    ∙ ap (parse_lines (names ++ last ∷ after)) (parse_line-header (trim first) opens)
    ∙ parse_lines-names names (last ∷ after) [] shown
    ∙ ap (parse_lines after) (parse_line-closing (trim last) (map trim names) closes)

parse_lines-after :
    (after libs : List Text)
    → All IsQuiet after
    → finish (
        parse_lines after
          (record { in_needed_libraries = false; found_section = true; libraries = libs }))
      ≡ some libs
unfolding parse_lines finish
parse_lines-after [] libs h = refl
parse_lines-after (l ∷ ls) libs h =
    ap (λ p. finish (parse_lines ls p)) (parse_line-quiet (trim l) true libs h.0)
    ∙ parse_lines-after ls libs h.1

-- The names of a listing are read in their order, trimmed, whatever lines stand before and behind it:
-- these must not open a listing again, and no name may be empty or read like a bracket line.
pub parse_needed_libraries-unlines :
    (before names after : List Text) (first last : Text)
    → All IsLine (before ++ first ∷ (names ++ last ∷ after))
    → All IsQuiet before
    → trim first ≡ header
    → All IsName names
    → trim last ≡ closing
    → All IsQuiet after
    → parse_needed_libraries (unlines (before ++ first ∷ (names ++ last ∷ after)))
      ≡ some (map trim names)
unfolding parse_needed_libraries
parse_needed_libraries-unlines before names after first last lines quiet opens shown closes quiet' =
    ap (λ ls. finish (parse_lines ls fresh)) (lines_from-unlines _ lines)
    ∙ ap finish (parse_lines-section before names after first last quiet opens shown closes)
    ∙ parse_lines-after after (map trim names) quiet'

parse_lines-unclosed :
    (ls libs : List Text)
    → All IsName ls
    → finish (
        parse_lines ls
          (record { in_needed_libraries = true; found_section = true; libraries = libs }))
      ≡ none
unfolding parse_lines finish
parse_lines-unclosed [] libs h = refl
parse_lines-unclosed (l ∷ ls) libs h =
    ap (λ p. finish (parse_lines ls p)) (parse_line-name (trim l) libs h.0.0 h.0.1 h.0.2)
    ∙ parse_lines-unclosed ls (libs ++ trim l ∷ []) h.1

parse_lines-unopened : (ls : List Text) → All IsQuiet ls → finish (parse_lines ls fresh) ≡ none
unfolding parse_lines finish
parse_lines-unopened [] h = refl
parse_lines-unopened (l ∷ ls) h =
    ap (λ p. finish (parse_lines ls p)) (parse_line-quiet (trim l) false [] h.0)
    ∙ parse_lines-unopened ls h.1

-- An output without a listing is an error, and so is one whose listing is not closed.
pub parse_needed_libraries-incomplete :
    (before names : List Text) (first : Text)
    → All IsLine before
    → All IsLine (before ++ first ∷ names)
    → All IsQuiet before
    → trim first ≡ header
    → All IsName names
    → (parse_needed_libraries (unlines before) ≡ none)
      × (parse_needed_libraries (unlines (before ++ first ∷ names)) ≡ none)
unfolding parse_needed_libraries parse_lines
parse_needed_libraries-incomplete before names first lines lines' quiet opens shown = (
  ap (λ ls. finish (parse_lines ls fresh)) (lines_from-unlines _ lines)
      ∙ parse_lines-unopened before quiet,
  ap (λ ls. finish (parse_lines ls fresh)) (lines_from-unlines _ lines')
      ∙ ap finish (parse_lines-quiet before (first ∷ names) false [] quiet)
      ∙ ap (λ p. finish (parse_lines names p)) (parse_line-header (trim first) opens)
      ∙ parse_lines-unclosed names [] shown,
)
