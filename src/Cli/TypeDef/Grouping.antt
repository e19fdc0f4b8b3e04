-- ===== src/Cli/TypeDef/Grouping.antt =====
-- No line is lost or mixed up.
use mathlib.Core.List.{append_assoc, append-nil}
use ohos_rs.Common.{
  if◌then◌else◌, Bool, true, false, some, List, [], ◌∷◌, ◌++◌, ◌≡◌, refl, subst, sym, ap, ◌∙◌,
  arith, Bool-cases, inl, inr, ◌&&◌,
}
use ohos_rs.Common.Text.{Text, text_eq, text_eq_iff, text_eq_refl, lookup_text}
use ohos_rs.Cli.TypeDef.{
  TypeDefLine, insert_text, Groups, Classes, namespace_of, group_of, is_plain, group_line,
  class_line, collect, push_classes, preprocess_type_def,
}

module _ {V : Type 0} where
  pub lookup-insert :
      (k : Text) (v : V) (m : List (Text × V)) → lookup_text k (insert_text k v m) ≡ some v
  unfolding insert_text lookup_text
  lookup-insert k v [] = rw (text_eq_refl k) refl
  lookup-insert k v ((l, w) ∷ m) = elim (Bool-cases (text_eq l k)) [
    | inl same ↦ ground (arith)
    | inr other ↦ ground (arith, lookup-insert k v m)
  ]

  pub lookup-insert_other :
      (k l : Text) (v : V) (m : List (Text × V))
      → text_eq k l ≡ false
      → lookup_text l (insert_text k v m) ≡ lookup_text l m
  unfolding insert_text lookup_text
  lookup-insert_other k l v [] h = rw h refl
  lookup-insert_other k l v ((j, w) ∷ m) h =
      ground
        (arith, lookup-insert_other k l v m h, text_eq_iff j k, text_eq_iff j l, text_eq_iff k l)

-- The plain lines of a namespace, in their order.
pub plain_of : Text → List TypeDefLine → List TypeDefLine
unfolding is_plain namespace_of text_eq
plain_of n [] = []
plain_of n (d ∷ ds) =
    let rest = plain_of n ds in if is_plain d && text_eq (namespace_of d) n then d ∷ rest else rest

group_of-insert :
    (n : Text) (ds : List TypeDefLine) (g : Groups) → group_of n (insert_text n ds g) ≡ ds
unfolding group_of
group_of-insert n ds g = rw (lookup-insert n ds g, group_of) refl

group_of-insert_other :
    (k n : Text) (ds : List TypeDefLine) (g : Groups)
    → text_eq k n ≡ false
    → group_of n (insert_text k ds g) ≡ group_of n g
unfolding group_of
group_of-insert_other k n ds g h = rw (lookup-insert_other k n ds g h, group_of) refl

-- A push to one group.
group_of-push :
    (k n : Text) (es : List TypeDefLine) (g : Groups)
    → group_of n (insert_text k (group_of k g ++ es) g)
      ≡ group_of n g ++ (if text_eq k n then es else [])
group_of-push k n es g = elim (Bool-cases (text_eq k n)) [
  | inl same ↦
      subst (λ k. group_of n (insert_text k (group_of k g ++ es) g) ≡ group_of n g ++ es)
        (sym ((text_eq_iff k n).0 same)) (group_of-insert n (group_of n g ++ es) g)
      ∙ ap (λ b. group_of n g ++ (if b then es else [])) (sym same)
  | inr other ↦
      group_of-insert_other k n (group_of k g ++ es) g other
      ∙ sym (append-nil (group_of n g))
      ∙ ap (λ b. group_of n g ++ (if b then es else [])) (sym other)
]

group_line-of :
    (d : TypeDefLine) (g : Groups) (n : Text)
    → group_of n (group_line d g) ≡ group_of n g ++ plain_of n (d ∷ [])
unfolding group_line plain_of
group_line-of d g n = elim (Bool-cases (is_plain d)) [
  | inl plain ↦ rw (plain, group_line) (group_of-push (namespace_of d) n (d ∷ []) g)
  | inr part ↦
      rw (part, group_line)
        (ap (λ ds. group_of n (insert_text (namespace_of d) ds g))
            (sym (append-nil (group_of (namespace_of d) g)))
          ∙ group_of-push (namespace_of d) n [] g
          ∙ nothing (text_eq (namespace_of d) n))
]
  where
    nothing : (b : Bool) → group_of n g ++ (if b then [] else []) ≡ group_of n g ++ []
    nothing true = refl
    nothing false = refl

plain_of-cons :
    (n : Text) (d : TypeDefLine) (ds : List TypeDefLine)
    → plain_of n (d ∷ ds) ≡ plain_of n (d ∷ []) ++ plain_of n ds
unfolding plain_of
plain_of-cons n d ds = elim (Bool-cases (is_plain d && text_eq (namespace_of d) n)) [
  | inl here ↦ rw here refl
  | inr not_here ↦ rw not_here refl
]

collect-plain :
    (ds : List TypeDefLine) (g : Groups) (c : Classes) (n : Text)
    → group_of n (collect ds (g, c)).0 ≡ group_of n g ++ plain_of n ds
unfolding collect plain_of
collect-plain [] g c n = sym (append-nil (group_of n g))
collect-plain (d ∷ ds) g c n =
    collect-plain ds (group_line d g) (class_line d c) n
    ∙ ap (λ es. es ++ plain_of n ds) (group_line-of d g n)
    ∙ append_assoc (group_of n g) (plain_of n (d ∷ [])) (plain_of n ds)
    ∙ ap (λ es. group_of n g ++ es) (sym (plain_of-cons n d ds))

-- The classes of a namespace.
pub classes_of : Text → Classes → List TypeDefLine
unfolding text_eq
classes_of n [] = []
classes_of n ((_, (k, t)) ∷ c) = (if text_eq k n then t ∷ [] else []) ++ classes_of n c

push_classes-of :
    (c : Classes) (g : Groups) (n : Text)
    → group_of n (push_classes c g) ≡ group_of n g ++ classes_of n c
unfolding push_classes classes_of
push_classes-of [] g n = sym (append-nil (group_of n g))
push_classes-of ((m, (k, t)) ∷ c) g n =
    push_classes-of c (insert_text k (group_of k g ++ t ∷ []) g) n
    ∙ ap (λ es. es ++ classes_of n c) (group_of-push k n (t ∷ []) g)
    ∙ append_assoc (group_of n g) (if text_eq k n then t ∷ [] else []) (classes_of n c)

-- The group of a namespace has the lines of that namespace that are no part of a class, each once and
-- in their order, and then the classes that were put together for it.
pub group_of-preprocess_type_def :
    (defs : List TypeDefLine) (n : Text)
    → group_of n (preprocess_type_def defs)
      ≡ plain_of n defs ++ classes_of n (collect defs ([], [])).1
unfolding preprocess_type_def
group_of-preprocess_type_def defs n =
    push_classes-of (collect defs ([], [])).1 (collect defs ([], [])).0 n
    ∙ ap (λ es. es ++ classes_of n (collect defs ([], [])).1)
        (collect-plain defs [] [] n ∙ empty_group)
  where
    empty_group : group_of n [] ++ plain_of n defs ≡ plain_of n defs
    empty_group = unfold group_of lookup_text in refl
