-- ===== src/Typegen/Template/Weave.antt =====
-- `fill_ty` against a reading of the template from left to right.
use ohos_rs.Common.{
  ℕ, ◌+◌, ◌-◌, ◌==◌, if◌then◌else◌, true, false, ◌&&◌, List, [], ◌∷◌, ◌++◌, length, take, drop, zip,
  length-append, drop-append, take-append, ◌≡◌, refl, ap, ◌∙◌, arith, Bool-cases, ==_iff, inl, inr,
}
use mathlib.Core.List.{append_assoc}
use ohos_rs.Common.Text.{Text, codes}
use ohos_rs.Typegen.Template.{match_from, slice, fill_from, fill_ty}

-- The holes of a template, counted from left to right.
pub holes : Text → ℕ
unfolding match_from
holes t = length (match_from 0 t)

-- Each hole is replaced by the next argument; all other text stays.
pub weave : Text → List Text → Text
weave [] args = []
weave (c ∷ []) args = c ∷ []
weave (c ∷ d ∷ s) args = elim (c == b'{' && d == b'}') [
  | true ↦ elim args [ [] ↦ weave s [] | a ∷ rest ↦ a ++ weave s rest ]
  | false ↦ c ∷ weave (d ∷ s) args
]

length-match_from : (i j : ℕ) (s : Text) → length (match_from i s) ≡ length (match_from j s)
unfolding match_from
length-match_from i j [] = refl
length-match_from i j (c ∷ []) = refl
length-match_from i j (c ∷ d ∷ s) =
    ground (arith, length-match_from (i + 2) (j + 2) s, length-match_from (i + 1) (j + 1) (d ∷ s))

slice-middle :
    (t pre mid suf : Text) (p i : ℕ)
    → t ≡ pre ++ (mid ++ suf)
    → p ≡ length pre
    → i ≡ length pre + length mid
    → slice t p i ≡ mid
slice-middle t pre mid suf p i et ep ei =
    rw (et, ep)
      (ap (λ u. take (i - length pre) u) (drop-append pre (mid ++ suf))
        ∙ ap (λ n. take n (mid ++ suf)) (omega arith)
        ∙ take-append mid suf)

tail_stays :
    (t pre rest : Text) (ret : Text) (p : ℕ)
    → t ≡ pre ++ rest
    → p ≡ length pre
    → ret ++ drop p t ≡ ret ++ rest
tail_stays t pre rest ret p et ep = rw (et, ep) (ap (λ u. ret ++ u) (drop-append pre rest))

module _ (c d : ℕ) (s : Text) where
  match_from-hole :
      (i : ℕ)
      → (c == b'{' && d == b'}') ≡ true
      → match_from i (c ∷ d ∷ s) ≡ i ∷ match_from (i + 2) s
  unfolding match_from
  match_from-hole i h = rw (h, match_from)

  match_from-text :
      (i : ℕ)
      → (c == b'{' && d == b'}') ≡ false
      → match_from i (c ∷ d ∷ s) ≡ match_from (i + 1) (d ∷ s)
  unfolding match_from
  match_from-text i h = rw (h, match_from)

  weave-hole :
      (a : Text) (rest : List Text)
      → (c == b'{' && d == b'}') ≡ true
      → weave (c ∷ d ∷ s) (a ∷ rest) ≡ a ++ weave s rest
  unfolding weave
  weave-hole a rest h = rw (h, weave)

  weave-text :
      (args : List Text)
      → (c == b'{' && d == b'}') ≡ false
      → weave (c ∷ d ∷ s) args ≡ c ∷ weave (d ∷ s) args
  unfolding weave
  weave-text args h = rw (h, weave)

-- `mid` has been walked since the last match, which ends at `p`.
Filled : Text → Type 0
Filled suf =
    (t pre mid ret : Text) (args : List Text) (p i : ℕ)
    → t ≡ pre ++ (mid ++ suf)
    → p ≡ length pre
    → i ≡ length pre + length mid
    → length args ≡ length (match_from 0 suf)
    → fill_from t ret p (zip (match_from i suf) args) ≡ ret ++ (mid ++ weave suf args)

fill-hole : (c d : ℕ) (s : Text) → (c == b'{' && d == b'}') ≡ true → Filled s → Filled (c ∷ d ∷ s)
unfolding Filled
fill-hole c d s hole ih t pre mid ret [] p i et ep ei h =
    absurd (omega (arith, ap length (match_from-hole c d s 0 hole)))
fill-hole c d s hole ih t pre mid ret (a ∷ rest) p i et ep ei h =
    rw (match_from-hole c d s i hole, weave-hole c d s a rest hole)
      (unfold fill_from in
        ih t (pre ++ (mid ++ c ∷ d ∷ [])) [] ((ret ++ slice t p i) ++ a) rest (i + 2) (i + 2)
          (et ∙ simp append_assoc)
          (omega (arith, ei, length-append pre (mid ++ c ∷ d ∷ []), length-append mid (c ∷ d ∷ [])))
          (omega (arith, ei, length-append pre (mid ++ c ∷ d ∷ []), length-append mid (c ∷ d ∷ [])))
          (omega (arith, h, ap length (match_from-hole c d s 0 hole), length-match_from 0 2 s))
        ∙ rw (slice-middle t pre mid (c ∷ d ∷ s) p i et ep ei) (simp append_assoc))

fill-text :
    (c d : ℕ) (s : Text) → (c == b'{' && d == b'}') ≡ false → Filled (d ∷ s) → Filled (c ∷ d ∷ s)
unfolding Filled
fill-text c d s text ih t pre mid ret args p i et ep ei h =
    rw (match_from-text c d s i text, weave-text c d s args text)
      (ih t pre (mid ++ c ∷ []) ret args p (i + 1) (et ∙ simp append_assoc) ep
          (omega (arith, ei, length-append mid (c ∷ [])))
          (omega
            (arith, h, ap length (match_from-text c d s 0 text), length-match_from 0 1 (d ∷ s)))
        ∙ simp append_assoc)

fill_from-weave : (suf : Text) → Filled suf
unfolding Filled
fill_from-weave [] t pre mid ret args p i et ep ei h =
    unfold match_from weave fill_from in tail_stays t pre (mid ++ []) ret p et ep
fill_from-weave (c ∷ []) t pre mid ret args p i et ep ei h =
    unfold match_from weave fill_from in tail_stays t pre (mid ++ c ∷ []) ret p et ep
fill_from-weave (c ∷ d ∷ s) t pre mid ret args p i et ep ei h =
    elim (Bool-cases (c == b'{' && d == b'}')) [
      | inl hole ↦ fill-hole c d s hole (fill_from-weave s) t pre mid ret args p i et ep ei h
      | inr text ↦ fill-text c d s text (fill_from-weave (d ∷ s)) t pre mid ret args p i et ep ei h
    ]

-- With as many arguments as the template has holes, the holes are replaced by the arguments in order
-- and all other text stays; with any other number the type is `any`.
pub fill_ty-weave :
    (template : Text) (args : List Text)
    → fill_ty template args
      ≡ (if length args == holes template then weave template args else codes "any")
unfolding fill_ty holes Filled
fill_ty-weave template args = elim (Bool-cases (length args == length (match_from 0 template))) [
  | inl h ↦
      rw h (fill_from-weave template template [] [] [] args 0 0 refl refl refl ((==_iff _ _).0 h))
  | inr h ↦ rw h refl
]
