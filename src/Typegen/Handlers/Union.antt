-- ===== src/Typegen/Handlers/Union.antt =====
-- The union types `Either`, .., `Either26`.
use ohos_rs.Common.{
  ◌==◌, if◌then◌else◌, Bool, true, false, ◌||◌, List, [], ◌∷◌, ◌++◌, length, map, ◌≡◌, refl, ap,
  ◌∙◌, arith, Bool-cases, inl, inr,
}
use ohos_rs.Common.Text.{Text, codes, text_eq, text_eq_iff, starts_with, contains, mem_text}
use ohos_rs.Common.Members.{IsDistinct, IsDistinct-concat, mem-append}
use ohos_rs.Typegen.Template.Weave.{holes, weave, fill_ty-weave}
use ohos_rs.Typegen.Handlers.{Rendered, handled, push_new, union_of, handle_known_type}

push_new-IsDistinct : (acc ts : List Text) → IsDistinct acc → IsDistinct (push_new acc ts)
unfolding push_new
push_new-IsDistinct acc [] d = d
push_new-IsDistinct acc (t ∷ ts) d = elim (Bool-cases (mem_text t acc)) [
  | inl old ↦ rw old (push_new-IsDistinct acc ts d)
  | inr new ↦ rw new (push_new-IsDistinct (acc ++ t ∷ []) ts (IsDistinct-concat t acc new d))
]

mem-push_new :
    (u : Text) (acc ts : List Text) → mem_text u (push_new acc ts) ≡ mem_text u acc || mem_text u ts
unfolding push_new
mem-push_new u acc [] = unfold mem_text in ground arith
mem-push_new u acc (t ∷ ts) = elim (Bool-cases (mem_text t acc)) [
  | inl old ↦ rw old (unfold mem_text in ground (arith, mem-push_new u acc ts, text_eq_iff t u))
  | inr new ↦ rw new (
      unfold mem_text in
      ground (arith, mem-push_new u (acc ++ t ∷ []) ts, mem-append u acc (t ∷ [])))
]

-- The fold over the arguments of an `EitherN` keeps each of them exactly once.
pub push_new_once :
    (ts : List Text)
    → IsDistinct (push_new [] ts) × ((u : Text) → mem_text u (push_new [] ts) ≡ mem_text u ts)
push_new_once ts = (push_new-IsDistinct [] ts tt, λ u. unfold mem_text in mem-push_new u [] ts)

either_not_unit :
    (rust_ty : Text)
    → starts_with (codes "Either") rust_ty ≡ true
    → text_eq rust_ty (codes "()") ≡ false
unfolding starts_with text_eq
either_not_unit [] h = refl
either_not_unit (c ∷ s) h = ground arith

-- The distinct arguments of a union type.
abbrev pub distinct_args : List Rendered → List Text
distinct_args args = push_new [] (map (λ a. a.0) args)

either_union :
    (rust_ty template : Text) (args : List Rendered) (ret : Bool)
    → starts_with (codes "Either") rust_ty ≡ true
    → contains (codes "{}") template ≡ true
    → handle_known_type rust_ty template args ret ≡ handled (union_of template (distinct_args args))
unfolding handle_known_type
either_union rust_ty template args ret h c = rw (either_not_unit rust_ty h, c, h)

-- What a union type with these distinct arguments is to be.
pub union_text : Text → List Text → Text
union_text template (t ∷ []) = t
union_text template us = if length us == holes template then weave template us else codes "any"

union_of_lem :
    (template : Text) (us : List Text) → union_of template us ≡ (union_text template us, false)
unfolding union_of union_text
union_of_lem template (t ∷ []) = refl
union_of_lem template [] = rw (fill_ty-weave template []) refl
union_of_lem template (t ∷ u ∷ ts) = rw (fill_ty-weave template (t ∷ u ∷ ts)) refl

-- A union type with one distinct argument is that argument; with as many as its template has holes,
-- it is the template with the arguments in the holes; with any other number, two different ones among
-- three say, it degrades to `any`. The name has to start with `Either`, and the template to have
-- holes.
pub either_cases :
    (rust_ty template : Text) (args : List Rendered) (ret : Bool)
    → starts_with (codes "Either") rust_ty ≡ true
    → contains (codes "{}") template ≡ true
    → handle_known_type rust_ty template args ret
      ≡ handled (union_text template (distinct_args args), false)
either_cases rust_ty template args ret h c =
    either_union rust_ty template args ret h c
    ∙ ap handled (union_of_lem template (distinct_args args))
