-- ===== src/Cli/TypeDef.antt =====
-- `preprocess_type_def` of cli/cargo-ohrs/src/build/ts.rs, which sorts the lines of the intermediate
-- type file into namespaces and puts the parts of each class together. The hash maps are association
-- lists; in which order the classes of a namespace follow is left open there.
pub mod Grouping
pub mod Class
use ohos_rs.Common.{ℕ, if◌then◌else◌, Bool, true, false, Option, none, some, List, [], ◌∷◌, ◌++◌}
use ohos_rs.Common.Text.{Text, codes, text_eq, lookup_text}

pub data TypeDefKind : Type 0 where
  const enum interface fn type_alias struct impl string_enum extends : TypeDefKind

pub record TypeDefLine : Type 0 where
  pub kind : TypeDefKind
  pub name : Text
  pub original_name : Option Text
  pub def : Text
  pub js_doc : Option Text
  pub js_mod : Option Text
  pub extends : Option Text

abbrev pub top_level_namespace : Text
top_level_namespace = codes "__TOP_LEVEL_MODULE__"

-- `HashMap::insert`.
unfoldable pub insert_text : {V : Type 0} → Text → V → List (Text × V) → List (Text × V)
unfolding text_eq
insert_text k v [] = (k, v) ∷ []
insert_text k v ((l, w) ∷ m) =
    let rest = insert_text k v m in if text_eq l k then (l, v) ∷ m else (l, w) ∷ rest

abbrev pub Groups : Type 0
Groups = List (Text × List TypeDefLine)

abbrev pub Classes : Type 0
Classes = List (Text × (Text × TypeDefLine))

unfoldable pub namespace_of : TypeDefLine → Text
namespace_of d = elim d.js_mod [ some m ↦ m | none ↦ top_level_namespace ]

unfoldable pub group_of : Text → Groups → List TypeDefLine
unfolding lookup_text
group_of n g = elim (lookup_text n g) [ some ds ↦ ds | none ↦ [] ]

-- A line that is no part of a class.
unfoldable pub is_plain : TypeDefLine → Bool
is_plain d = elim d.kind [
  | TypeDefKind.struct ↦ false
  | TypeDefKind.impl ↦ false
  | TypeDefKind.extends ↦ false
  | _ ↦ true
]

-- `entry(..).or_insert_with(Vec::new)`, and the push of a plain line.
unfoldable pub group_line : TypeDefLine → Groups → Groups
unfolding insert_text group_of is_plain namespace_of
group_line d g =
    if is_plain d
    then insert_text (namespace_of d) (group_of (namespace_of d) g ++ d ∷ []) g
    else insert_text (namespace_of d) (group_of (namespace_of d) g) g

abbrev is_empty : Text → Bool
is_empty [] = true
is_empty (_ ∷ _) = false

-- What a line with the name of a class adds to it, by its kind.
unfoldable pub grow_by : TypeDefKind → TypeDefLine → TypeDefLine → TypeDefLine
grow_by TypeDefKind.extends d t = record t { extends = some d.def }
grow_by TypeDefKind.impl d t = record t {
  def = (if is_empty t.def then t.def else t.def ++ 10 ∷ []) ++ d.def;
}
grow_by _ d t = t

unfoldable pub grow : TypeDefLine → TypeDefLine → TypeDefLine
unfolding grow_by
grow d t = grow_by d.kind d t

unfoldable pub is_struct : TypeDefLine → Bool
is_struct d = elim d.kind [ TypeDefKind.struct ↦ true | _ ↦ false ]

unfoldable pub class_line : TypeDefLine → Classes → Classes
unfolding insert_text lookup_text grow is_struct namespace_of
class_line d c =
    if is_struct d
    then insert_text d.name (namespace_of d, d) c
    else elim (lookup_text d.name c) [ none ↦ c | some (n, t) ↦ insert_text d.name (n, grow d t) c ]

-- The loop over the lines.
unfoldable pub collect : List TypeDefLine → Groups × Classes → Groups × Classes
unfolding group_line class_line
collect [] (g, c) = (g, c)
collect (d ∷ ds) (g, c) = collect ds (group_line d g, class_line d c)

-- The loop over the classes.
unfoldable pub push_classes : Classes → Groups → Groups
unfolding insert_text group_of
push_classes [] g = g
push_classes ((_, (n, t)) ∷ c) g = push_classes c (insert_text n (group_of n g ++ t ∷ []) g)

unfoldable pub preprocess_type_def : List TypeDefLine → Groups
unfolding collect push_classes
preprocess_type_def defs = let (g, c) = collect defs ([], []) in push_classes c g
