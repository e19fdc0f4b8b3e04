-- ===== src/Cli/Path/Plain.antt =====
-- A name that `validate_soname` accepts.
use ohos_rs.Common.{
  ℕ, ◌==◌, true, some, List, [], ◌∷◌, ◌++◌, ◌≡◌, ◌≢◌, subst, arith, All, Bool-cases, Option-cases,
  inl, inr,
}
use ohos_rs.Common.Text.{Text, codes, text_eq, text_eq_iff}
use ohos_rs.Cli.Path.{file_name, validate_soname, components_from, keep_component, name_of}

abbrev pub NoSlash : Text → Type 0
NoSlash s = All (λ c. c ≢ b'/') s

NoSlash-concat : (s : Text) (c : ℕ) → NoSlash s → c ≢ b'/' → NoSlash (s ++ c ∷ [])
NoSlash-concat [] c a p = (p, tt)
NoSlash-concat (d ∷ s) c a p = (a.0, NoSlash-concat s c a.1 p)

-- A component has no slash, is not empty and is not `.`.
abbrev IsComponent : Text → Type 0
IsComponent s = NoSlash s × (s ≢ []) × (s ≢ codes ".")

keep-components :
    (now : Text) (acc : List Text)
    → NoSlash now
    → All IsComponent acc
    → All IsComponent (keep_component now acc)
unfolding keep_component
keep-components [] acc n a = a
keep-components (c ∷ s) acc n a = elim (Bool-cases (text_eq (c ∷ s) (codes "."))) [
  | inl dot ↦ rw (dot, keep_component) a
  | inr other ↦
      rw (other, keep_component)
        ((n, (λ e. cc), λ e. cc (other, (text_eq_iff (c ∷ s) (codes ".")).1 e)), a)
]

components_from-components :
    (s now : Text) (acc : List Text)
    → NoSlash now
    → All IsComponent acc
    → All IsComponent (components_from s now acc)
unfolding components_from
components_from-components [] now acc n a = keep-components now acc n a
components_from-components (c ∷ s) now acc n a = elim (Bool-cases (c == b'/')) [
  | inl slash ↦
      rw (slash, components_from)
        (components_from-components s [] _ tt (keep-components now acc n a))
  | inr other ↦
      rw (other, components_from)
        (components_from-components s (now ++ c ∷ []) acc (NoSlash-concat now c n (ground arith)) a)
]

abbrev IsPlain : Text → Type 0
IsPlain s = NoSlash s × (s ≢ []) × (s ≢ codes ".") × (s ≢ codes "..")

name_of-IsPlain : (cs : List Text) (n : Text) → All IsComponent cs → name_of cs ≡ some n → IsPlain n
unfolding name_of
name_of-IsPlain [] n a e = absurd (cc)
name_of-IsPlain (c ∷ cs) n a e = elim (Bool-cases (text_eq c (codes ".."))) [
  | inl up ↦ absurd (ground arith)
  | inr other ↦
      subst IsPlain (ground arith)
        (a.0.0, a.0.1, a.0.2, λ q. cc (other, (text_eq_iff c (codes "..")).1 q))
]

-- A name that is accepted is no path: it has no slash, is not empty, and is neither `.` nor `..`, so
-- joined to a directory it does not leave it.
pub validate_soname-IsPlain :
    (soname : Text)
    → validate_soname soname ≡ true
    → NoSlash soname × (soname ≢ []) × (soname ≢ codes ".") × (soname ≢ codes "..")
unfolding validate_soname file_name
validate_soname-IsPlain soname h = elim (Option-cases (name_of (components_from soname [] []))) [
  | inl nameless ↦ absurd (ground arith)
  | inr (n, e) ↦
      subst IsPlain ((text_eq_iff n soname).0 (ground arith))
        (name_of-IsPlain _ n (components_from-components soname [] [] tt tt) e)
]
