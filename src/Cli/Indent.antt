-- ===== src/Cli/Indent.antt =====
-- `correct_string_indent` of cli/cargo-ohrs/src/build/ts.rs, which indents a declaration anew, line by
-- line, by the brackets that lines end with.
pub mod Stable
use ohos_rs.Common.{
  ℕ, zero, suc, ◌+◌, ◌*◌, ◌-◌, ◌==◌, ltb, if◌then◌else◌, Bool, true, false, ◌&&◌, ◌||◌, not, List,
  [], ◌∷◌, ◌++◌, map, ◌≡◌, refl, ap, sym, ◌∙◌, arith, All,
}
use ohos_rs.Common.Text.{Text}
use ohos_rs.Common.Lines.{
  trim, lines_from, unlines, IsLine, lines_from-unlines, spaces, trim-spaces, trim-trim,
  trim-IsLine, spaces-IsLine, lines_from-IsLine,
}

-- `str::starts_with` and `str::ends_with` for one character.
unfoldable pub starts_with_char : ℕ → Text → Bool
starts_with_char c [] = false
starts_with_char c (d ∷ s) = d == c

unfoldable pub ends_with_char : ℕ → Text → Bool
ends_with_char c [] = false
ends_with_char c (d ∷ []) = d == c
ends_with_char c (_ ∷ d ∷ s) = ends_with_char c (d ∷ s)

-- The depth of brackets behind a trimmed line, and the depth that it is indented by.
unfoldable pub line_depth : Text → ℕ → ℕ × ℕ
unfolding starts_with_char ends_with_char
line_depth line depth =
    let is_in_multiline_comment = starts_with_char (b'*') line in
    let is_opening = ends_with_char (b'{') line || ends_with_char (b'=') line in
    if is_opening && not is_in_multiline_comment
    then (depth + 1, depth)
    else if ends_with_char (b'}') line
        && ltb 0 depth
        && not is_in_multiline_comment
        && not (starts_with_char (b'|') line)
    then (depth - 1, depth - 1)
    else (depth, depth)

-- A line of a comment stands behind one space and one more.
unfoldable pub indented_line : ℕ → Text → ℕ → Text
unfolding starts_with_char
indented_line indent line depth =
    let right_indent = indent + depth * 2 in
    if starts_with_char (b'*') line
    then spaces (right_indent + 1) (32 ∷ line)
    else spaces right_indent line

-- What the loop does with a line that is trimmed.
unfoldable pub with_line : ℕ → ℕ → Text → (ℕ → List Text) → List Text
unfolding line_depth indented_line
with_line indent depth [] rest = [] ∷ rest depth
with_line indent depth (c ∷ t) rest =
    indented_line indent (c ∷ t) (line_depth (c ∷ t) depth).1 ∷ rest (line_depth (c ∷ t) depth).0

-- The loop, on the lines.
unfoldable pub indent_lines : ℕ → ℕ → List Text → List Text
unfolding with_line
indent_lines indent depth [] = []
indent_lines indent depth (l ∷ ls) = with_line indent depth (trim l) (λ d. indent_lines indent d ls)

unfoldable pub correct_string_indent : Text → ℕ → Text
unfolding indent_lines
correct_string_indent src indent = unlines (indent_lines indent 0 (lines_from [] src))
