-- ===== src/Cli/Indent/Stable.antt =====
-- `correct_string_indent` changes the white space around lines, and nothing the second time.
use ohos_rs.Common.{
  ℕ, ◌+◌, ◌*◌, if◌then◌else◌, true, false, List, [], ◌∷◌, map, ◌≡◌, refl, ap, ◌∙◌, All,
}
use ohos_rs.Common.Text.{Text}
use ohos_rs.Common.Lines.{
  trim, lines_from, unlines, IsLine, lines_from-unlines, spaces, trim-spaces, trim-trim,
  trim-IsLine, spaces-IsLine, lines_from-IsLine,
}
use ohos_rs.Cli.Indent.{
  starts_with_char, line_depth, indented_line, with_line, indent_lines, correct_string_indent,
}

trim-indented_line :
    (indent : ℕ) (l : Text) (depth : ℕ) → trim (indented_line indent l depth) ≡ trim l
unfolding indented_line
trim-indented_line indent l depth =
    elim (starts_with_char (b'*') l)
      as (λ b.
        trim (if b then spaces (indent + depth * 2 + 1) (32 ∷ l) else spaces (indent + depth * 2) l)
        ≡ trim l) [
          | true ↦ trim-spaces (indent + depth * 2 + 1) (spaces 1 l) ∙ trim-spaces 1 l
          | false ↦ trim-spaces (indent + depth * 2) l
        ]

indented_line-IsLine :
    (indent : ℕ) (l : Text) (depth : ℕ) → IsLine l → IsLine (indented_line indent l depth)
unfolding indented_line
indented_line-IsLine indent l depth h =
    elim (starts_with_char (b'*') l)
      as (λ b.
        IsLine
          (if b then spaces (indent + depth * 2 + 1) (32 ∷ l) else spaces (indent + depth * 2) l)) [
            | true ↦ spaces-IsLine (indent + depth * 2 + 1) (spaces 1 l) (spaces-IsLine 1 l h)
            | false ↦ spaces-IsLine (indent + depth * 2) l h
          ]

with_line-trim :
    (indent depth : ℕ) (t : Text) (rest : ℕ → List Text) (ls : List Text)
    → ((d : ℕ) → map trim (rest d) ≡ map trim ls)
    → map trim (with_line indent depth t rest) ≡ trim t ∷ map trim ls
unfolding with_line
with_line-trim indent depth [] rest ls h = ap (λ x. trim [] ∷ x) (h depth)
with_line-trim indent depth (c ∷ t) rest ls h =
    ap (λ x. x ∷ map trim (rest (line_depth (c ∷ t) depth).0))
      (trim-indented_line indent (c ∷ t) (line_depth (c ∷ t) depth).1)
    ∙ ap (λ x. trim (c ∷ t) ∷ x) (h (line_depth (c ∷ t) depth).0)

indent_lines-trim :
    (indent depth : ℕ) (ls : List Text) → map trim (indent_lines indent depth ls) ≡ map trim ls
unfolding indent_lines
indent_lines-trim indent depth [] = refl
indent_lines-trim indent depth (l ∷ ls) =
    with_line-trim indent depth (trim l) (λ d. indent_lines indent d ls) ls
      (λ d. indent_lines-trim indent d ls)
    ∙ ap (λ x. x ∷ map trim ls) (trim-trim l)

with_line-IsLine :
    (indent depth : ℕ) (t : Text) (rest : ℕ → List Text)
    → IsLine t
    → ((d : ℕ) → All IsLine (rest d))
    → All IsLine (with_line indent depth t rest)
unfolding with_line
with_line-IsLine indent depth [] rest p h = (tt, h depth)
with_line-IsLine indent depth (c ∷ t) rest p h = (
  indented_line-IsLine indent (c ∷ t) (line_depth (c ∷ t) depth).1 p,
  h (line_depth (c ∷ t) depth).0,
)

indent_lines-IsLine :
    (indent depth : ℕ) (ls : List Text) → All IsLine ls → All IsLine (indent_lines indent depth ls)
unfolding indent_lines
indent_lines-IsLine indent depth [] h = tt
indent_lines-IsLine indent depth (l ∷ ls) h =
    with_line-IsLine indent depth (trim l) (λ d. indent_lines indent d ls) (trim-IsLine l h.0)
      (λ d. indent_lines-IsLine indent d ls h.1)

with_line-same :
    (indent depth : ℕ) (t : Text) (f g : ℕ → List Text)
    → ((d : ℕ) → f d ≡ g d)
    → with_line indent depth t f ≡ with_line indent depth t g
unfolding with_line
with_line-same indent depth [] f g h = ap (λ x. [] ∷ x) (h depth)
with_line-same indent depth (c ∷ t) f g h =
    ap (λ x. indented_line indent (c ∷ t) (line_depth (c ∷ t) depth).1 ∷ x)
      (h (line_depth (c ∷ t) depth).0)

-- The loop reads the trimmed lines only.
indent_lines-map :
    (indent depth : ℕ) (ls ms : List Text)
    → map trim ls ≡ map trim ms
    → indent_lines indent depth ls ≡ indent_lines indent depth ms
unfolding indent_lines
indent_lines-map indent depth [] [] h = refl
indent_lines-map indent depth [] (m ∷ ms) h = absurd (cc)
indent_lines-map indent depth (l ∷ ls) [] h = absurd (cc)
indent_lines-map indent depth (l ∷ ls) (m ∷ ms) h =
    let p : trim l ≡ trim m = cc in
    let q : map trim ls ≡ map trim ms = cc in
    with_line-same indent depth (trim l) (λ d. indent_lines indent d ls)
      (λ d. indent_lines indent d ms) (λ d. indent_lines-map indent d ls ms q)
    ∙ ap (λ t. with_line indent depth t (λ d. indent_lines indent d ms)) p

correct_string_indent-lines :
    (src : Text) (indent : ℕ)
    → lines_from [] (correct_string_indent src indent) ≡ indent_lines indent 0 (lines_from [] src)
unfolding correct_string_indent
correct_string_indent-lines src indent =
    lines_from-unlines (indent_lines indent 0 (lines_from [] src))
      (indent_lines-IsLine indent 0 (lines_from [] src) (lines_from-IsLine [] src tt))

-- The lines of a declaration that is indented anew are the lines of the declaration, in their order,
-- up to white space around them: no line is lost, added or split, whatever brackets and comments it has.
pub correct_string_indent-trim :
    (src : Text) (indent : ℕ)
    → map trim (lines_from [] (correct_string_indent src indent)) ≡ map trim (lines_from [] src)
correct_string_indent-trim src indent =
    ap (map trim) (correct_string_indent-lines src indent)
    ∙ indent_lines-trim indent 0 (lines_from [] src)

-- A declaration that was indented already does not change when it is indented by the same depth again.
pub correct_string_indent_twice :
    (src : Text) (indent : ℕ)
    → correct_string_indent (correct_string_indent src indent) indent
      ≡ correct_string_indent src indent
unfolding correct_string_indent
correct_string_indent_twice src indent = ap unlines (
    indent_lines-map indent 0 (lines_from [] (correct_string_indent src indent)) (lines_from [] src)
      (correct_string_indent-trim src indent))
