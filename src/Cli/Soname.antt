-- ===== src/Cli/Soname.antt =====
-- The names of libraries in cli/cargo-ohrs/src/build/prepare.rs: `validate_soname` and
-- `normalize_soname`.
pub mod Twice
mod Tests
use ohos_rs.Common.{
  ℕ, ltb, if◌then◌else◌, Bool, true, false, ◌&&◌, ◌||◌, Option, none, some, List, [], ◌∷◌, ◌++◌,
  length, drop, ◌≡◌, refl, ◌↔◌, arith, Bool-cases, inl, inr, subst, ap, sym, ◌∙◌,
}
use ohos_rs.Common.Text.{Text, codes, text_eq, text_eq_iff, starts_with, contains}

-- The text before the first occurrence and the text behind it.
unfoldable pub cut_at : Text → Text → Option (Text × Text)
unfolding starts_with
cut_at sep [] = none
cut_at sep (c ∷ s) =
    let rest = cut_at sep s in
    if starts_with sep (c ∷ s)
    then some ([], drop (length sep) (c ∷ s))
    else elim rest [ none ↦ none | some (before, behind) ↦ some (c ∷ before, behind) ]

-- `split(sep).nth(1)`.
unfoldable pub second_part : Text → Text → Option Text
unfolding cut_at
second_part sep s = elim (cut_at sep s) [
  | none ↦ none
  | some (before, behind) ↦ elim (cut_at sep behind) [
    | none ↦ some behind
    | some (part, rest) ↦ some part
  ]
]

unfoldable pub begins_with_digit : Text → Bool
begins_with_digit [] = false
begins_with_digit (c ∷ s) = ltb 47 c && ltb c 58

-- False is the error.
unfoldable pub validate_soname : Text → Bool
unfolding second_part begins_with_digit contains
validate_soname soname =
    if contains (codes ".so.") soname
    then elim (second_part (codes ".so.") soname) [
      | none ↦ true
      | some part ↦ if begins_with_digit part then false else true
    ]
    else true

unfoldable pub ends_with : Text → Text → Bool
unfolding text_eq
ends_with p [] = text_eq p []
ends_with p (c ∷ s) = text_eq p (c ∷ s) || ends_with p s

unfoldable pub normalize_soname : Text → Option Text
unfolding validate_soname starts_with contains ends_with
normalize_soname soname =
    if validate_soname soname
    then (if starts_with (codes "lib") soname && contains (codes ".so") soname
        then some soname
        else if ends_with (codes ".so") soname
        then some (codes "lib" ++ soname)
        else some (codes "lib" ++ (soname ++ codes ".so")))
    else none

starts_with_refl : (s : Text) → starts_with s s ≡ true
unfolding starts_with
starts_with_refl [] = refl
starts_with_refl (c ∷ s) = ground (arith, starts_with_refl s)

contains-end : (s p : Text) → contains p (s ++ p) ≡ true
unfolding contains starts_with
contains-end [] [] = refl
contains-end [] (c ∷ p) = ground (arith, starts_with_refl (c ∷ p))
contains-end (c ∷ s) p = ground (arith, contains-end s p)

text_eq-starts_with : (p s : Text) → text_eq p s ≡ true → starts_with p s ≡ true
text_eq-starts_with p s h =
    subst (λ t. starts_with p t ≡ true) ((text_eq_iff p s).0 h) (starts_with_refl p)

contains-ends_with : (p s : Text) → ends_with p s ≡ true → contains p s ≡ true
unfolding contains ends_with
contains-ends_with p [] h = text_eq-starts_with p [] h
contains-ends_with p (c ∷ s) h =
    ground (arith, text_eq-starts_with p (c ∷ s), contains-ends_with p s)

contains-append : (p r s : Text) → contains p s ≡ true → contains p (r ++ s) ≡ true
unfolding contains
contains-append p [] s h = h
contains-append p (c ∷ r) s h = ground (arith, contains-append p r s h)

starts_lib : (s : Text) → starts_with (codes "lib") (codes "lib" ++ s) ≡ true
unfolding starts_with
starts_lib s = refl

pub normalize_soname-shape :
    (s t : Text)
    → normalize_soname s ≡ some t
    → (starts_with (codes "lib") t ≡ true) × (contains (codes ".so") t ≡ true)
unfolding normalize_soname
normalize_soname-shape s t e = ground (
  arith,
  contains-append (codes ".so") (codes "lib") s,
  contains-append (codes ".so") (codes "lib") (s ++ codes ".so"),
  contains-end s (codes ".so"),
  contains-ends_with (codes ".so") s,
  starts_lib s,
  starts_lib (s ++ codes ".so"),
)
