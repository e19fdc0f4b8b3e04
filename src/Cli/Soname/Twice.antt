-- ===== src/Cli/Soname/Twice.antt =====
-- A second `normalize_soname` of cli/cargo-ohrs/src/build/prepare.rs on the same name.
use ohos_rs.Common.{
  ℕ, if◌then◌else◌, true, false, Option, none, some, [], ◌∷◌, ◌++◌, drop, ◌≡◌, refl, ◌⊎◌, Bool,
  arith, Option-cases, Bool-cases, inl, inr, sym, ◌∙◌, ap,
}
use ohos_rs.Common.Text.{Text, codes, text_eq, starts_with, contains}
use ohos_rs.Cli.Soname.{
  cut_at, second_part, begins_with_digit, validate_soname, ends_with, normalize_soname,
  normalize_soname-shape,
}

abbrev versioned : Text
versioned = codes ".so."

-- Only what stands behind the first occurrence is looked at.
accepted : Option (Text × Text) → Bool
accepted none = true
accepted (some (before, behind)) = if begins_with_digit behind then false else true

-- An occurrence stands at the start, or further on, or nowhere.
cut_at-cases :
    (c : ℕ) (s : Text)
    → (starts_with versioned (c ∷ s) ≡ true)
        × (cut_at versioned (c ∷ s) ≡ some ([], drop 4 (c ∷ s)))
      ⊎ (starts_with versioned (c ∷ s) ≡ false)
        × ((cut_at versioned s ≡ none) × (cut_at versioned (c ∷ s) ≡ none)
            ⊎ ((before : Text) × (behind : Text) × (cut_at versioned s ≡ some (before, behind))
                × (cut_at versioned (c ∷ s) ≡ some (c ∷ before, behind))))
unfolding cut_at
cut_at-cases c s = elim (Bool-cases (starts_with versioned (c ∷ s))) [
  | inl h ↦ inl (h, ground arith)
  | inr h ↦ elim (Option-cases (cut_at versioned s)) [
    | inl e ↦ inr (h, inl (e, ground arith))
    | inr ((x, y), e) ↦ inr (h, inr (x, y, e, ground arith))
  ]
]

digit_not_version :
    (c : ℕ) (s : Text) → begins_with_digit (c ∷ s) ≡ true → starts_with versioned (c ∷ s) ≡ false
unfolding begins_with_digit starts_with
digit_not_version c s h = ground arith

-- The part up to the next occurrence begins as the whole does, where that is a digit.
begins_with_digit-cut_at :
    (behind part rest : Text)
    → cut_at versioned behind ≡ some (part, rest)
    → begins_with_digit part ≡ begins_with_digit behind
unfolding begins_with_digit
begins_with_digit-cut_at [] part rest e = absurd (unfold cut_at in cc)
begins_with_digit-cut_at (c ∷ s) part rest e = elim (cut_at-cases c s) [
  | inl (h, k) ↦ ground (arith, digit_not_version c s)
  | inr (h, inl (e', k)) ↦ absurd (cc)
  | inr (h, inr (x, y, e', k)) ↦ ground arith
]

contains-cut_at :
    (s : Text)
    → (contains versioned s ≡ false) × (cut_at versioned s ≡ none)
      ⊎ (contains versioned s ≡ true)
        × ((before : Text) × (behind : Text) × (cut_at versioned s ≡ some (before, behind)))
unfolding contains
contains-cut_at [] = inl (unfold starts_with in refl, unfold cut_at in refl)
contains-cut_at (c ∷ s) = elim (cut_at-cases c s) [
  | inl (h, k) ↦ inr (ground arith, ([], _, k))
  | inr (h, inl (e', k)) ↦ inl (ground (arith, contains-cut_at s), k)
  | inr (h, inr (x, y, e', k)) ↦ inr (ground (arith, contains-cut_at s), (c ∷ x, y, k))
]

validate_soname-accepted : (s : Text) → validate_soname s ≡ accepted (cut_at versioned s)
unfolding validate_soname accepted second_part
validate_soname-accepted s = elim (contains-cut_at s) [
  | inl (h, k) ↦ ground arith
  | inr (h, (x, y, k)) ↦ elim (Option-cases (cut_at versioned y)) [
    | inl e ↦ ground arith
    | inr ((p, r), e) ↦ ground (arith, begins_with_digit-cut_at y p r e)
  ]
]

-- A letter in front of a name does not matter.
accepted-cons :
    (c : ℕ) (s : Text)
    → starts_with versioned (c ∷ s) ≡ false
    → accepted (cut_at versioned (c ∷ s)) ≡ accepted (cut_at versioned s)
unfolding accepted
accepted-cons c s h = elim (cut_at-cases c s) [
  | inl (h', k) ↦ absurd (cc)
  | inr (h', inl (e, k)) ↦ ground arith
  | inr (h', inr (x, y, e, k)) ↦ ground arith
]

accepted-lib :
    (s : Text) → accepted (cut_at versioned (codes "lib" ++ s)) ≡ accepted (cut_at versioned s)
unfolding starts_with
accepted-lib s =
    accepted-cons b'l' (b'i' ∷ b'b' ∷ s) refl
    ∙ accepted-cons b'i' (b'b' ∷ s) refl
    ∙ accepted-cons b'b' s refl

-- What a suffix does at the start of a name.
starts_with-suffix :
    (t : Text)
    → starts_with versioned t ≡ true
    → (starts_with versioned (t ++ codes ".so") ≡ true)
      × (drop 4 (t ++ codes ".so") ≡ drop 4 t ++ codes ".so")
unfolding starts_with
starts_with-suffix [] h = absurd (cc)
starts_with-suffix (a ∷ []) h = absurd (ground arith)
starts_with-suffix (a ∷ b ∷ []) h = absurd (ground arith)
starts_with-suffix (a ∷ b ∷ c ∷ []) h = absurd (ground arith)
starts_with-suffix (a ∷ b ∷ c ∷ d ∷ t) h = (ground arith, refl)

starts_with-no_suffix :
    (t : Text)
    → ends_with (codes ".so") t ≡ false
    → starts_with versioned t ≡ false
    → starts_with versioned (t ++ codes ".so") ≡ false
unfolding starts_with ends_with text_eq
starts_with-no_suffix [] e h = refl
starts_with-no_suffix (a ∷ []) e h = ground arith
starts_with-no_suffix (a ∷ b ∷ []) e h = ground arith
starts_with-no_suffix (a ∷ b ∷ c ∷ []) e h = ground arith
starts_with-no_suffix (a ∷ b ∷ c ∷ d ∷ t) e h = ground arith

begins_with_digit-suffix : (t : Text) → begins_with_digit (t ++ codes ".so") ≡ begins_with_digit t
unfolding begins_with_digit
begins_with_digit-suffix [] = refl
begins_with_digit-suffix (c ∷ t) = refl

accepted-start :
    (c : ℕ) (s : Text)
    → starts_with versioned (c ∷ s) ≡ true
    → accepted (cut_at versioned (c ∷ s))
      ≡ (if begins_with_digit (drop 4 (c ∷ s)) then false else true)
unfolding accepted
accepted-start c s h = elim (cut_at-cases c s) [
  | inl (h', k) ↦ ap accepted k
  | inr (h', k) ↦ absurd (cc)
]

ends_with-tail :
    (c : ℕ) (s : Text) → ends_with (codes ".so") (c ∷ s) ≡ false → ends_with (codes ".so") s ≡ false
unfolding ends_with
ends_with-tail c s e = ground arith

accepted-suffix :
    (s : Text)
    → ends_with (codes ".so") s ≡ false
    → accepted (cut_at versioned s) ≡ true
    → accepted (cut_at versioned (s ++ codes ".so")) ≡ true
accepted-suffix [] e a = unfold accepted cut_at starts_with in refl
accepted-suffix (c ∷ s) e a = elim (Bool-cases (starts_with versioned (c ∷ s))) [
  | inl h ↦
      let (h', d) = starts_with-suffix (c ∷ s) h in
      accepted-start c (s ++ codes ".so") h'
      ∙ ap (λ t. if begins_with_digit t then false else true) d
      ∙ ap (λ b. if b then false else true) (begins_with_digit-suffix (drop 4 (c ∷ s)))
      ∙ sym (accepted-start c s h)
      ∙ a
  | inr h ↦
      accepted-cons c (s ++ codes ".so") (starts_with-no_suffix (c ∷ s) e h)
      ∙ accepted-suffix s (ends_with-tail c s e) (sym (accepted-cons c s h) ∙ a)
]

-- A name that was made is not refused.
validate_soname-normalize_soname :
    (s t : Text) → normalize_soname s ≡ some t → validate_soname t ≡ true
unfolding normalize_soname
validate_soname-normalize_soname s t e = ground (
  arith,
  validate_soname-accepted s,
  validate_soname-accepted t,
  validate_soname-accepted (codes "lib" ++ s),
  validate_soname-accepted (codes "lib" ++ (s ++ codes ".so")),
  accepted-lib s,
  accepted-lib (s ++ codes ".so"),
  accepted-suffix s,
)

-- A name that was made starts with `lib` and has `.so`, and a second call gives it back as it is.
pub normalize_soname_twice :
    (s t : Text)
    → normalize_soname s ≡ some t
    → (starts_with (codes "lib") t ≡ true)
      × (contains (codes ".so") t ≡ true)
      × (normalize_soname t ≡ some t)
normalize_soname_twice s t e =
    let (l, so) = normalize_soname-shape s t e in
    let valid = validate_soname-normalize_soname s t e in
    (l, so, unfold normalize_soname in ground arith)
