-- ===== src/Typegen/JsDoc.antt =====
-- `JSDoc` of crates/backend/src/typegen.rs: the comment that stands before a declaration. A text is the
-- list of its code points, but the code counts the indentation in bytes of UTF-8.
pub mod Closing
use ohos_rs.Common.{
  ℕ, zero, suc, ◌+◌, ◌-◌, ◌==◌, ltb, leb, if◌then◌else◌, Bool, true, false, not, Option, none, some,
  List, [], ◌∷◌, ◌++◌, map, min,
}
use ohos_rs.Common.Text.{Text, codes}
use ohos_rs.Common.Lines.{trim, trim_start}

pub record JsDoc : Type 0 where
  pub blocks : List (List Text)

abbrev pub utf8_len : ℕ → ℕ
utf8_len c = if ltb c 0x80 then 1 else if ltb c 0x800 then 2 else if ltb c 0x10000 then 3 else 4

-- `str::len`.
unfoldable pub byte_len : Text → ℕ
byte_len [] = 0
byte_len (c ∷ s) = utf8_len c + byte_len s

-- `&l[n..]`; `none` is the panic at an index that is no boundary of a character.
unfoldable pub drop_bytes : ℕ → Text → Option Text
drop_bytes zero s = some s
drop_bytes (suc n) [] = none
drop_bytes (suc n) (c ∷ s) =
    let rest = drop_bytes (suc n - utf8_len c) s in if leb (utf8_len c) (suc n) then rest else none

abbrev pub is_blank : Text → Bool
is_blank l = elim (trim l) [ [] ↦ true | _ ∷ _ ↦ false ]

-- The lines from the first to the last that is not blank.
unfoldable pub skip_blank : List Text → List Text
skip_blank [] = []
skip_blank (l ∷ ls) = let rest = skip_blank ls in if is_blank l then rest else l ∷ ls

abbrev pub with_blank_end : Text → List Text → List Text
with_blank_end l [] = if is_blank l then [] else l ∷ []
with_blank_end l (m ∷ ms) = l ∷ m ∷ ms

unfoldable pub skip_blank_end : List Text → List Text
skip_blank_end [] = []
skip_blank_end (l ∷ ls) = with_blank_end l (skip_blank_end ls)

unfoldable pub indent_of : Text → ℕ
unfolding byte_len
indent_of l = byte_len l - byte_len (trim_start l)

-- `min`, over the lines that are not blank.
unfoldable pub min_indent : List Text → Option ℕ
unfolding indent_of
min_indent [] = none
min_indent (l ∷ ls) =
    let rest = min_indent ls in
    if is_blank l
    then rest
    else elim rest [ none ↦ some (indent_of l) | some n ↦ some (min (indent_of l) n) ]

unfoldable pub cut_line : ℕ → Text → Option Text
unfolding byte_len drop_bytes
cut_line n l = if is_blank l then some [] else if leb n (byte_len l) then drop_bytes n l else some l

unfoldable pub cut_lines : ℕ → List Text → Option (List Text)
unfolding cut_line
cut_lines n [] = some []
cut_lines n (l ∷ ls) =
    let rest = cut_lines n ls in
    elim (cut_line n l) [
      | none ↦ none
      | some t ↦ elim rest [ none ↦ none | some ts ↦ some (t ∷ ts) ]
    ]

-- `JSDoc::cleanup_lines`.
unfoldable pub cleanup_lines : List Text → Option (List Text)
unfolding skip_blank skip_blank_end min_indent cut_lines
cleanup_lines raw =
    let lines = skip_blank_end (skip_blank raw) in
    cut_lines (elim (min_indent lines) [ none ↦ 0 | some n ↦ n ]) lines

-- `JSDoc::add_block`, and `JSDoc::new` on no block.
unfoldable pub add_block : JsDoc → List Text → Option JsDoc
unfolding cleanup_lines
add_block doc lines = elim (cleanup_lines lines) [
  | none ↦ none
  | some [] ↦ some doc
  | some (l ∷ ls) ↦ some (record { blocks = doc.blocks ++ (l ∷ ls) ∷ [] })
]

unfoldable pub new_doc : List Text → Option JsDoc
unfolding add_block
new_doc lines = add_block (record { blocks = [] }) lines

-- `replace` of the end of a comment.
unfoldable pub escape_comment_close : Text → Text
escape_comment_close [] = []
escape_comment_close (c ∷ []) = c ∷ []
escape_comment_close (c ∷ d ∷ s) =
    let rest = escape_comment_close (d ∷ s) in
    let behind = escape_comment_close s in
    if c == b'*' then if d == b'/' then b'*' ∷ 0x5c ∷ b'/' ∷ behind else c ∷ rest else c ∷ rest

unfoldable pub display_block : List Text → Text
unfolding escape_comment_close
display_block [] = []
display_block (l ∷ ls) = codes " * " ++ (escape_comment_close l ++ 10 ∷ display_block ls)

unfoldable pub display_blocks : List (List Text) → Text
unfolding display_block
display_blocks [] = []
display_blocks (b ∷ []) = display_block b
display_blocks (b ∷ c ∷ bs) = display_block b ++ (codes " *\n" ++ display_blocks (c ∷ bs))

-- `Display for JSDoc`.
unfoldable pub display_doc : List (List Text) → Text
unfolding display_blocks escape_comment_close
display_doc [] = []
display_doc ((l ∷ []) ∷ []) = codes "/** " ++ (escape_comment_close l ++ codes " */\n")
display_doc bs = codes "/**\n" ++ (display_blocks bs ++ codes " */\n")
