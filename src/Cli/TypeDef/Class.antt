-- ===== src/Cli/TypeDef/Class.antt =====
-- The parts of a class come together, whatever other lines stand between them.
use mathlib.Core.List.{append_assoc, append-nil}
use ohos_rs.Common.{
  if◌then◌else◌, true, false, none, some, List, [], ◌∷◌, ◌++◌, ◌≡◌, ◌≢◌, refl, sym, ap, ◌∙◌, arith,
  All, Bool-cases, Option-cases, inl, inr, ◌&&◌,
}
use ohos_rs.Common.Text.{Text, text_eq, text_eq_iff, lookup_text, join}
use ohos_rs.Cli.TypeDef.{
  TypeDefKind, TypeDefLine, insert_text, Groups, Classes, namespace_of, group_line, grow, grow_by,
  is_struct, class_line, collect, is_empty,
}
use ohos_rs.Cli.TypeDef.Grouping.{lookup-insert, lookup-insert_other}

-- What the lines with the name of a class add to it, one after the other.
pub grow_all : Text → TypeDefLine → List TypeDefLine → TypeDefLine
unfolding text_eq grow
grow_all n t [] = t
grow_all n t (d ∷ ds) = grow_all n (if text_eq d.name n then grow d t else t) ds

-- No line opens a class of this name again.
abbrev pub IsLast : Text → List TypeDefLine → Type 0
IsLast n ds = All (λ d. is_struct d && text_eq d.name n ≡ false) ds

class_line-struct :
    (d : TypeDefLine) (c : Classes)
    → is_struct d ≡ true
    → class_line d c ≡ insert_text d.name (namespace_of d, d) c
unfolding class_line
class_line-struct d c h = rw (h, class_line) refl

class_line-unknown :
    (d : TypeDefLine) (c : Classes)
    → is_struct d ≡ false
    → lookup_text d.name c ≡ none
    → class_line d c ≡ c
unfolding class_line
class_line-unknown d c h e = rw (h, e, class_line) refl

class_line-known :
    (d : TypeDefLine) (c : Classes) (k : Text) (t : TypeDefLine)
    → is_struct d ≡ false
    → lookup_text d.name c ≡ some (k, t)
    → class_line d c ≡ insert_text d.name (k, grow d t) c
unfolding class_line
class_line-known d c k t h e = rw (h, e, class_line) refl

-- A line of another name leaves the class alone.
class_line-other :
    (d : TypeDefLine) (c : Classes) (n : Text)
    → text_eq d.name n ≡ false
    → lookup_text n (class_line d c) ≡ lookup_text n c
class_line-other d c n other = elim (Bool-cases (is_struct d)) [
  | inl opens ↦
      ap (lookup_text n) (class_line-struct d c opens)
      ∙ lookup-insert_other d.name n (namespace_of d, d) c other
  | inr part ↦ elim (Option-cases (lookup_text d.name c)) [
    | inl unknown ↦ ap (lookup_text n) (class_line-unknown d c part unknown)
    | inr ((k, t), known) ↦
        ap (lookup_text n) (class_line-known d c k t part known)
        ∙ lookup-insert_other d.name n (k, grow d t) c other
  ]
]

class_line-grow :
    (d : TypeDefLine) (c : Classes) (n k : Text) (t : TypeDefLine)
    → lookup_text n c ≡ some (k, t)
    → is_struct d && text_eq d.name n ≡ false
    → lookup_text n (class_line d c) ≡ some (k, if text_eq d.name n then grow d t else t)
class_line-grow d c n k t e h = elim (Bool-cases (text_eq d.name n)) [
  | inl same ↦
      ap (lookup_text n) (
        class_line-known d c k t (ground (arith, h, same))
          (ap (λ m. lookup_text m c) ((text_eq_iff d.name n).0 same) ∙ e))
      ∙ ap (λ m. lookup_text m (insert_text d.name (k, grow d t) c))
          (sym ((text_eq_iff d.name n).0 same))
      ∙ lookup-insert d.name (k, grow d t) c
      ∙ ap (λ b. some (k, if b then grow d t else t)) (sym same)
  | inr other ↦
      class_line-other d c n other ∙ e ∙ ap (λ b. some (k, if b then grow d t else t)) (sym other)
]

collect-grow :
    (ds : List TypeDefLine) (g : Groups) (c : Classes) (n k : Text) (t : TypeDefLine)
    → lookup_text n c ≡ some (k, t)
    → IsLast n ds
    → lookup_text n (collect ds (g, c)).1 ≡ some (k, grow_all n t ds)
unfolding collect grow_all
collect-grow [] g c n k t e h = e
collect-grow (d ∷ ds) g c n k t e h =
    collect-grow ds _ (class_line d c) n k _ (class_line-grow d c n k t e h.0) h.1

-- The body of an `impl` block, and those of the blocks of a class in their order.
unfoldable pub body_by : TypeDefKind → Text → List Text
body_by TypeDefKind.impl u = u ∷ []
body_by _ u = []

unfoldable pub impls_of : Text → List TypeDefLine → List Text
unfolding text_eq body_by
impls_of n [] = []
impls_of n (d ∷ ds) = (if text_eq d.name n then body_by d.kind d.def else []) ++ impls_of n ds

-- What there is, if anything.
abbrev pub lead : Text → List Text
lead [] = []
lead (c ∷ s) = (c ∷ s) ∷ []

lead-full : (s : Text) → s ≢ [] → lead s ≡ s ∷ []
lead-full [] h = absurd (h refl)
lead-full (c ∷ s) h = refl

join-merge :
    (sep s u : Text) (us : List Text) → join sep ((s ++ (sep ++ u)) ∷ us) ≡ join sep (s ∷ u ∷ us)
unfolding join
join-merge sep s u [] = refl
join-merge sep s u (v ∷ us) =
    append_assoc s (sep ++ u) (sep ++ join sep (v ∷ us))
    ∙ ap (λ w. s ++ w) (append_assoc sep u (sep ++ join sep (v ∷ us)))

abbrev pub feed : Text
feed = 10 ∷ []

-- One more body behind what is there.
lead-grow :
    (s u : Text) (us : List Text)
    → u ≢ []
    → join feed (lead ((if is_empty s then s else s ++ feed) ++ u) ++ us)
      ≡ join feed (lead s ++ u ∷ us)
lead-grow [] u us h = ap (λ vs. join feed (vs ++ us)) (lead-full u h)
lead-grow (c ∷ s) u us h =
    ap (λ w. join feed (w ∷ us)) (append_assoc (c ∷ s) feed u) ∙ join-merge feed (c ∷ s) u us

join-lead : (s : Text) → join feed (lead s) ≡ s
unfolding join
join-lead [] = refl
join-lead (c ∷ s) = refl

grow_by-def :
    (k : TypeDefKind) (d t : TypeDefLine) (us : List Text)
    → All (λ u. u ≢ []) (body_by k d.def ++ us)
    → join feed (lead (grow_by k d t).def ++ us) ≡ join feed (lead t.def ++ (body_by k d.def ++ us))
unfolding grow_by body_by
grow_by-def TypeDefKind.impl d t us full = lead-grow t.def d.def us full.0
grow_by-def TypeDefKind.const d t us full = refl
grow_by-def TypeDefKind.enum d t us full = refl
grow_by-def TypeDefKind.interface d t us full = refl
grow_by-def TypeDefKind.fn d t us full = refl
grow_by-def TypeDefKind.type_alias d t us full = refl
grow_by-def TypeDefKind.struct d t us full = refl
grow_by-def TypeDefKind.string_enum d t us full = refl
grow_by-def TypeDefKind.extends d t us full = refl

All-behind :
    (k : TypeDefKind) (u : Text) (us : List Text)
    → All (λ u. u ≢ []) (body_by k u ++ us)
    → All (λ u. u ≢ []) us
unfolding body_by
All-behind TypeDefKind.impl u us full = full.1
All-behind TypeDefKind.const u us full = full
All-behind TypeDefKind.enum u us full = full
All-behind TypeDefKind.interface u us full = full
All-behind TypeDefKind.fn u us full = full
All-behind TypeDefKind.type_alias u us full = full
All-behind TypeDefKind.struct u us full = full
All-behind TypeDefKind.string_enum u us full = full
All-behind TypeDefKind.extends u us full = full

grow_all-def :
    (ds : List TypeDefLine) (n : Text) (t : TypeDefLine)
    → All (λ u. u ≢ []) (impls_of n ds)
    → join feed (lead (grow_all n t ds).def) ≡ join feed (lead t.def ++ impls_of n ds)
unfolding grow_all impls_of grow
grow_all-def [] n t full = ap (join feed) (sym (append-nil (lead t.def)))
grow_all-def (d ∷ ds) n t full =
    (elim (text_eq d.name n)
        as (λ b.
          All (λ u. u ≢ []) ((if b then body_by d.kind d.def else []) ++ impls_of n ds)
          → join feed (lead (grow_all n (if b then grow d t else t) ds).def)
            ≡ join feed
                (lead t.def ++ ((if b then body_by d.kind d.def else []) ++ impls_of n ds))) [
                  | true ↦ λ full.
                      grow_all-def ds n (grow d t) (All-behind d.kind d.def (impls_of n ds) full)
                      ∙ grow_by-def d.kind d t (impls_of n ds) full
                  | false ↦ λ full. grow_all-def ds n t full
                ])
      full

-- A class ends with what it was opened with and the bodies of all its `impl` blocks, in their order
-- and each on a new line, whatever other lines stand between them. The class must not be opened again,
-- and the bodies must not be empty.
pub collect-impls :
    (d : TypeDefLine) (ds : List TypeDefLine) (g : Groups) (c : Classes)
    → is_struct d ≡ true
    → IsLast d.name ds
    → All (λ u. u ≢ []) (impls_of d.name ds)
    → (t : TypeDefLine) × (lookup_text d.name (collect (d ∷ ds) (g, c)).1
        ≡ some (namespace_of d, t))
      × (t.def ≡ join feed (lead d.def ++ impls_of d.name ds))
unfolding collect
collect-impls d ds g c opens last full = (
  grow_all d.name d ds,
  collect-grow ds (group_line d g) (class_line d c) d.name (namespace_of d) d
      (ap (lookup_text d.name) (class_line-struct d c opens)
        ∙ lookup-insert d.name (namespace_of d, d) c)
      last,
  sym (join-lead (grow_all d.name d ds).def) ∙ grow_all-def ds d.name d full,
)
