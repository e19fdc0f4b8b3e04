-- ===== src/Typegen/JsDoc/Closing.antt =====
-- Where a comment ends.
use mathlib.Core.List.{append_assoc}
use ohos_rs.Common.{
  ℕ, ◌+◌, ◌==◌, ◌&&◌, if◌then◌else◌, Bool, true, false, List, [], ◌∷◌, ◌++◌, ◌≡◌, refl, ap, ◌∙◌,
  sym, arith,
}
use ohos_rs.Common.Text.{Text, codes}
use ohos_rs.Typegen.JsDoc.{escape_comment_close, display_block, display_blocks, display_doc}

-- How often a text closes a comment, behind a character that is an asterisk or not.
unfoldable pub closings : Bool → Text → ℕ
closings star [] = 0
closings star (c ∷ s) = (if star && c == b'/' then 1 else 0) + closings (c == b'*') s

-- Whether the last character is an asterisk.
unfoldable pub star_after : Bool → Text → Bool
star_after star [] = star
star_after star (c ∷ s) = star_after (c == b'*') s

closings-append :
    (star : Bool) (s t : Text)
    → closings star (s ++ t) ≡ closings star s + closings (star_after star s) t
unfolding closings star_after
closings-append star [] t = omega arith
closings-append star (c ∷ s) t = let q = closings-append (c == b'*') s t in ground arith

closings-head :
    (star : Bool) (d : ℕ) (s : Text)
    → (d == b'/') ≡ false
    → closings star (escape_comment_close (d ∷ s)) ≡ closings false (escape_comment_close (d ∷ s))
unfolding closings escape_comment_close
closings-head star d [] h = ground arith
closings-head star d (e ∷ u) h = ground arith

closings-escape : (s : Text) → closings false (escape_comment_close s) ≡ 0
unfolding closings escape_comment_close
closings-escape [] = refl
closings-escape (c ∷ []) = omega arith
closings-escape (c ∷ d ∷ s) =
    let q = closings-escape (d ∷ s) in
    let r = closings-escape s in ground (arith, closings-head true d s)

star_after-append :
    (star : Bool) (s t : Text) → star_after star (s ++ t) ≡ star_after (star_after star s) t
unfolding star_after
star_after-append star [] t = refl
star_after-append star (c ∷ s) t = star_after-append (c == b'*') s t

-- An escaped text, and a character behind it that is no part of a closing.
closings-line :
    (l : Text) (c : ℕ) (t : Text)
    → (c == b'/') ≡ false
    → (c == b'*') ≡ false
    → closings false (escape_comment_close l ++ c ∷ t) ≡ closings false t
closings-line l c t h k =
    closings-append false (escape_comment_close l) (c ∷ t)
    ∙ (let q = closings-escape l in unfold closings in ground (arith, q, h, k))

star_after-line :
    (l : Text) (c : ℕ) (t : Text)
    → (c == b'*') ≡ false
    → star_after false (escape_comment_close l ++ c ∷ t) ≡ star_after false t
unfolding star_after
star_after-line l c t k =
    star_after-append false (escape_comment_close l) (c ∷ t) ∙ ap (λ b. star_after b t) k

-- A text that closes no comment, not even with what follows it.
record IsOpen (t : Text) : Type 0 where
  closes : closings false t ≡ 0
  ends : star_after false t ≡ false

IsOpen-append : (s t : Text) → IsOpen s → IsOpen t → IsOpen (s ++ t)
IsOpen-append s t p q = record {
  closes = closings-append false s t ∙ rw (p.ends) (omega (arith, p.closes, q.closes));
  ends = star_after-append false s t ∙ ap (λ b. star_after b t) p.ends ∙ q.ends;
}

display_block-IsOpen : (ls : List Text) → IsOpen (display_block ls)
unfolding display_block
display_block-IsOpen [] = unfold closings star_after in record { closes = refl; ends = refl }
display_block-IsOpen (l ∷ ls) =
    let i = display_block-IsOpen ls in
    IsOpen-append (codes " * ") (escape_comment_close l ++ 10 ∷ display_block ls)
      (unfold closings star_after in record { closes = refl; ends = refl })
      (record {
        closes = closings-line l 10 (display_block ls) refl refl ∙ i.closes;
        ends = star_after-line l 10 (display_block ls) refl ∙ i.ends;
      })

display_blocks-IsOpen : (bs : List (List Text)) → IsOpen (display_blocks bs)
unfolding display_blocks
display_blocks-IsOpen [] = unfold closings star_after in record { closes = refl; ends = refl }
display_blocks-IsOpen (b ∷ []) = display_block-IsOpen b
display_blocks-IsOpen (b ∷ c ∷ bs) =
    IsOpen-append (display_block b) (codes " *\n" ++ display_blocks (c ∷ bs))
      (display_block-IsOpen b)
      (IsOpen-append (codes " *\n") (display_blocks (c ∷ bs))
        (unfold closings star_after in record { closes = refl; ends = refl })
        (display_blocks-IsOpen (c ∷ bs)))

-- A text whose first closing of a comment is its end.
unfoldable pub ClosesAtEnd : Text → Type 0
ClosesAtEnd s = (t : Text) × (s ≡ t ++ codes "*/\n") × (closings false t ≡ 0)

closes_behind : (s : Text) → IsOpen s → ClosesAtEnd (s ++ codes " */\n")
unfolding ClosesAtEnd
closes_behind s i = (
  s ++ codes " ",
  sym (append_assoc s (codes " ") (codes "*/\n")),
  (IsOpen-append s (codes " ") i
      (unfold closings star_after in record { closes = refl; ends = refl })).closes,
)

one_line-ClosesAtEnd :
    (l : Text) → ClosesAtEnd (codes "/** " ++ (escape_comment_close l ++ codes " */\n"))
unfolding ClosesAtEnd
one_line-ClosesAtEnd l = (
  codes "/** " ++ (escape_comment_close l ++ codes " "),
  ap (λ x. codes "/** " ++ x)
      (sym (append_assoc (escape_comment_close l) (codes " ") (codes "*/\n"))),
  closings-append false (codes "/** ") (escape_comment_close l ++ codes " ")
      ∙ (unfold closings star_after in
          (ap (λ n. 0 + n) (closings-line l 32 [] refl refl) ∙ omega arith)),
)

blocks-ClosesAtEnd :
    (bs : List (List Text)) → ClosesAtEnd (codes "/**\n" ++ (display_blocks bs ++ codes " */\n"))
blocks-ClosesAtEnd bs = closes_behind (codes "/**\n" ++ display_blocks bs) (
    IsOpen-append (codes "/**\n") (display_blocks bs)
      (unfold closings star_after in record { closes = refl; ends = refl })
      (display_blocks-IsOpen bs))

-- A comment that is not empty ends where its text ends: nothing before closes it, whatever stands in the
-- documentation, the end of a comment included.
pub display_doc-ClosesAtEnd :
    (b : List Text) (bs : List (List Text)) → ClosesAtEnd (display_doc (b ∷ bs))
unfolding display_doc
display_doc-ClosesAtEnd [] [] = blocks-ClosesAtEnd ([] ∷ [])
display_doc-ClosesAtEnd (l ∷ []) [] = one_line-ClosesAtEnd l
display_doc-ClosesAtEnd (l ∷ m ∷ ls) [] = blocks-ClosesAtEnd ((l ∷ m ∷ ls) ∷ [])
display_doc-ClosesAtEnd [] (c ∷ bs) = blocks-ClosesAtEnd ([] ∷ c ∷ bs)
display_doc-ClosesAtEnd (l ∷ []) (c ∷ bs) = blocks-ClosesAtEnd ((l ∷ []) ∷ c ∷ bs)
display_doc-ClosesAtEnd (l ∷ m ∷ ls) (c ∷ bs) = blocks-ClosesAtEnd ((l ∷ m ∷ ls) ∷ c ∷ bs)
