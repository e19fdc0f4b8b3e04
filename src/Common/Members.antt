-- ===== src/Common/Members.antt =====
-- Which texts a list has, and lists without repetition.
use ohos_rs.Common.{
  map, ap, subst, ◌⊎◌, inl, inr, ℕ, ◌+◌, true, false, ◌||◌, List, [], ◌∷◌, ◌++◌, ◌≡◌, refl, arith,
  if◌then◌else◌, All, ◌≤◌, length,
}
use ohos_rs.Common.Text.{Text, text_eq, text_eq_iff, text_eq_refl, mem_text}

abbrev pub IsDistinct : List Text → Type 0
IsDistinct [] = Unit
IsDistinct (t ∷ ts) = (mem_text t ts ≡ false) × IsDistinct ts

pub mem-append :
    (t : Text) (xs ys : List Text) → mem_text t (xs ++ ys) ≡ mem_text t xs || mem_text t ys
unfolding mem_text
mem-append t [] ys = refl
mem-append t (x ∷ xs) ys = ground (arith, mem-append t xs ys)

pub text_eq_sym : (s t : Text) → text_eq s t ≡ text_eq t s
text_eq_sym s t = ground (arith, text_eq_iff s t, text_eq_iff t s)

pub IsDistinct-concat :
    (t : Text) (xs : List Text) → mem_text t xs ≡ false → IsDistinct xs → IsDistinct (xs ++ t ∷ [])
unfolding mem_text
IsDistinct-concat t [] h d = (refl, tt)
IsDistinct-concat t (x ∷ xs) h d =
    ground (arith, IsDistinct-concat t xs, mem-append x xs (t ∷ []), text_eq_sym x t)

-- How many of the names do not stand in the list.
pub missing : List Text → List Text → ℕ
unfolding mem_text
missing [] us = 0
missing (n ∷ ns) us = (if mem_text n us then 0 else 1) + missing ns us

pub missing-cons : (ns us : List Text) (t : Text) → missing ns (t ∷ us) ≤ missing ns us
unfolding missing mem_text
missing-cons [] us t = omega arith
missing-cons (n ∷ ns) us t = ground (arith, missing-cons ns us t)

pub missing-new :
    (ns us : List Text) (t : Text)
    → mem_text t ns ≡ true
    → mem_text t us ≡ false
    → missing ns (t ∷ us) + 1 ≤ missing ns us
unfolding missing mem_text
missing-new [] us t h f = cc
missing-new (n ∷ ns) us t h f =
    ground (arith, missing-cons ns us t, missing-new ns us t, text_eq_iff n t, text_eq_sym n t)

pub missing-nil : (ns : List Text) → missing ns [] ≡ length ns
unfolding missing mem_text
missing-nil [] = refl
missing-nil (n ∷ ns) = omega (arith, missing-nil ns)

pub mem-cons-cases :
    (t : Text) (us : List Text) (n : Text)
    → mem_text n (t ∷ us) ≡ true
    → (t ≡ n) ⊎ (mem_text n us ≡ true)
unfolding mem_text
mem-cons-cases t us n h = ground (arith, text_eq_iff t n)

pub mem-cons-old :
    (t : Text) (us : List Text) (n : Text) → mem_text n us ≡ true → mem_text n (t ∷ us) ≡ true
unfolding mem_text
mem-cons-old t us n h = ground arith

pub mem-cons-new : (t : Text) (us : List Text) → mem_text t (t ∷ us) ≡ true
unfolding mem_text
mem-cons-new t us = ground (arith, text_eq_refl t)

-- The images of a list that grows at its end.
module _ {A : Type 0} (f : A → Text) where
  pub mem-concat-cases :
      (xs : List A) (x : A) (n : Text)
      → mem_text n (map f (xs ++ x ∷ [])) ≡ true
      → (mem_text n (map f xs) ≡ true) ⊎ (f x ≡ n)
  mem-concat-cases [] x n h = elim (mem-cons-cases (f x) [] n h) [ inl e ↦ inr e | inr m ↦ inl m ]
  mem-concat-cases (y ∷ xs) x n h = elim (mem-cons-cases (f y) _ n h) [
    | inl e ↦
        inl (subst (λ t. mem_text t (map f (y ∷ xs)) ≡ true) e (mem-cons-new (f y) (map f xs)))
    | inr m ↦ elim (mem-concat-cases xs x n m) [
      | inl k ↦ inl (mem-cons-old (f y) (map f xs) n k)
      | inr e ↦ inr e
    ]
  ]

  pub mem-concat-old :
      (xs : List A) (x : A) (n : Text)
      → mem_text n (map f xs) ≡ true
      → mem_text n (map f (xs ++ x ∷ [])) ≡ true
  mem-concat-old [] x n h = mem-cons-old (f x) [] n h
  mem-concat-old (y ∷ xs) x n h = elim (mem-cons-cases (f y) (map f xs) n h) [
    | inl e ↦
        subst (λ t. mem_text t (f y ∷ map f (xs ++ x ∷ [])) ≡ true) e
          (mem-cons-new (f y) (map f (xs ++ x ∷ [])))
    | inr m ↦ mem-cons-old (f y) (map f (xs ++ x ∷ [])) n (mem-concat-old xs x n m)
  ]

  pub mem-concat-new : (xs : List A) (x : A) → mem_text (f x) (map f (xs ++ x ∷ [])) ≡ true
  mem-concat-new [] x = mem-cons-new (f x) []
  mem-concat-new (y ∷ xs) x = mem-cons-old (f y) (map f (xs ++ x ∷ [])) (f x) (mem-concat-new xs x)

  pub map-concat : (xs : List A) (x : A) → map f (xs ++ x ∷ []) ≡ map f xs ++ f x ∷ []
  map-concat [] x = refl
  map-concat (y ∷ xs) x = ap (λ us. f y ∷ us) (map-concat xs x)

module _ {A : Type 0} (P : A → Type 0) where
  pub All-concat : (xs : List A) (x : A) → All P xs → P x → All P (xs ++ x ∷ [])
  All-concat [] x a p = (p, tt)
  All-concat (y ∷ xs) x a p = (a.0, All-concat xs x a.1 p)
