-- ===== src/Common/Lines.antt =====
-- White space and the lines of a text: `trim` and `lines` of `str`.
use mathlib.Core.List.{append-nil, append_assoc}
use ohos_rs.Common.{
  ℕ, zero, suc, ◌==◌, if◌then◌else◌, Bool, true, false, ◌||◌, ◌&&◌, List, [], ◌∷◌, ◌++◌, leb, ◌≡◌,
  ◌≢◌, refl, arith, All, All-append, ap, sym, ◌∙◌, Bool-cases, inl, inr,
}
use ohos_rs.Common.Text.{Text}

-- `char::is_whitespace`.
unfoldable pub is_whitespace : ℕ → Bool
is_whitespace c =
    leb 9 c && leb c 13
    || c == 0x20
    || c == 0x85
    || c == 0xa0
    || c == 0x1680
    || leb 0x2000 c && leb c 0x200a
    || c == 0x2028
    || c == 0x2029
    || c == 0x202f
    || c == 0x205f
    || c == 0x3000

-- `str::trim`.
unfoldable pub trim_start : Text → Text
unfolding is_whitespace
trim_start [] = []
trim_start (c ∷ s) = let rest = trim_start s in if is_whitespace c then rest else c ∷ s

abbrev pub end_with : ℕ → Text → Text
end_with c [] = if is_whitespace c then [] else c ∷ []
end_with c (d ∷ t) = c ∷ d ∷ t

unfoldable pub trim_end : Text → Text
unfolding is_whitespace
trim_end [] = []
trim_end (c ∷ s) = end_with c (trim_end s)

unfoldable pub trim : Text → Text
unfolding trim_start trim_end
trim s = trim_end (trim_start s)

-- `str::lines`; the carriage return before a line feed is white space, which `trim` drops.
unfoldable pub lines_from : Text → Text → List Text
lines_from [] [] = []
lines_from (c ∷ now) [] = (c ∷ now) ∷ []
lines_from now (c ∷ s) = elim (c == 10) [
  | true ↦ now ∷ lines_from [] s
  | false ↦ lines_from (now ++ c ∷ []) s
]

abbrev pub unlines : List Text → Text
unlines [] = []
unlines (l ∷ ls) = l ++ 10 ∷ unlines ls

abbrev pub IsLine : Text → Type 0
IsLine l = All (λ c. c ≢ 10) l

not_feed : (c : ℕ) → c ≢ 10 → (c == 10) ≡ false
not_feed c h = ground arith

lines_from-line :
    (now l s : Text) → IsLine l → lines_from now (l ++ 10 ∷ s) ≡ (now ++ l) ∷ lines_from [] s
unfolding lines_from
lines_from-line now [] s h = ap (λ x. x ∷ lines_from [] s) (sym (append-nil now))
lines_from-line now (c ∷ l) s h =
    rw (not_feed c h.0, lines_from)
      (lines_from-line (now ++ c ∷ []) l s h.1
        ∙ ap (λ x. x ∷ lines_from [] s) (append_assoc now (c ∷ []) l))

pub lines_from-unlines : (ls : List Text) → All IsLine ls → lines_from [] (unlines ls) ≡ ls
lines_from-unlines [] h = unfold lines_from in refl
lines_from-unlines (l ∷ ls) h =
    lines_from-line [] l (unlines ls) h.0 ∙ ap (λ ms. l ∷ ms) (lines_from-unlines ls h.1)

-- Spaces before a text.
abbrev pub spaces : ℕ → Text → Text
spaces zero s = s
spaces (suc n) s = 32 ∷ spaces n s

pub trim-spaces : (n : ℕ) (s : Text) → trim (spaces n s) ≡ trim s
unfolding trim trim_start is_whitespace
trim-spaces zero s = refl
trim-spaces (suc n) s = trim-spaces n s

trim_start-end_with :
    (c : ℕ) (r : Text) → is_whitespace c ≡ false → trim_start (end_with c r) ≡ end_with c r
unfolding trim_start
trim_start-end_with c [] h = rw (h, h) refl
trim_start-end_with c (d ∷ t) h = rw h refl

trim_start-trim_end : (s : Text) → trim_start (trim_end (trim_start s)) ≡ trim_end (trim_start s)
unfolding trim_start
trim_start-trim_end [] = unfold trim_end in refl
trim_start-trim_end (c ∷ s) = elim (Bool-cases (is_whitespace c)) [
  | inl e ↦ rw e (trim_start-trim_end s)
  | inr e ↦ rw e (unfold trim_end in trim_start-end_with c (trim_end s) e)
]

trim_end-end_with : (c : ℕ) (r : Text) → trim_end r ≡ r → trim_end (end_with c r) ≡ end_with c r
trim_end-end_with c [] h = elim (Bool-cases (is_whitespace c)) [
  | inl e ↦ rw e h
  | inr e ↦ rw e (unfold trim_end in rw e refl)
]
trim_end-end_with c (d ∷ t) h = unfold trim_end in ap (end_with c) h

trim_end-trim_end : (s : Text) → trim_end (trim_end s) ≡ trim_end s
unfolding trim_end
trim_end-trim_end [] = refl
trim_end-trim_end (c ∷ s) = trim_end-end_with c (trim_end s) (trim_end-trim_end s)

pub trim-trim : (s : Text) → trim (trim s) ≡ trim s
unfolding trim
trim-trim s = rw (trim_start-trim_end s) (trim_end-trim_end (trim_start s))

trim_start-IsLine : (s : Text) → IsLine s → IsLine (trim_start s)
unfolding trim_start
trim_start-IsLine [] h = h
trim_start-IsLine (c ∷ s) h =
    elim (is_whitespace c) as (λ b. IsLine (if b then trim_start s else c ∷ s)) [
      | true ↦ trim_start-IsLine s h.1
      | false ↦ h
    ]

end_with-IsLine : (c : ℕ) (r : Text) → c ≢ 10 → IsLine r → IsLine (end_with c r)
end_with-IsLine c [] n h = elim (is_whitespace c) as (λ b. IsLine (if b then [] else c ∷ [])) [
  | true ↦ tt
  | false ↦ (n, tt)
]
end_with-IsLine c (d ∷ t) n h = (n, h)

trim_end-IsLine : (s : Text) → IsLine s → IsLine (trim_end s)
unfolding trim_end
trim_end-IsLine [] h = h
trim_end-IsLine (c ∷ s) h = end_with-IsLine c (trim_end s) h.0 (trim_end-IsLine s h.1)

pub trim-IsLine : (s : Text) → IsLine s → IsLine (trim s)
unfolding trim
trim-IsLine s h = trim_end-IsLine (trim_start s) (trim_start-IsLine s h)

pub spaces-IsLine : (n : ℕ) (s : Text) → IsLine s → IsLine (spaces n s)
spaces-IsLine zero s h = h
spaces-IsLine (suc n) s h = (omega arith, spaces-IsLine n s h)

pub lines_from-IsLine : (now s : Text) → IsLine now → All IsLine (lines_from now s)
unfolding lines_from
lines_from-IsLine [] [] h = tt
lines_from-IsLine (c ∷ now) [] h = (h, tt)
lines_from-IsLine now (c ∷ s) h = elim (Bool-cases (c == 10)) [
  | inl e ↦ rw (e, lines_from) (h, lines_from-IsLine [] s tt)
  | inr e ↦
      rw (e, lines_from)
        (lines_from-IsLine (now ++ c ∷ []) s
          (All-append (λ d. d ≢ 10) now (c ∷ []) h (ground (arith, e), tt)))
]
