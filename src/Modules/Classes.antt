-- ===== src/Modules/Classes.antt =====
-- The registry of classes, register_class, and get_class_constructor in
-- crates/napi/src/bindgen_runtime/module_register.rs.
use ohos_rs.Common.{
  sym, ◌≡◌, refl, if◌then◌else◌, Bool, false, ◌||◌, ◌&&◌, Option, some, List, [], ◌∷◌, ◌++◌,
  append-nil, append_assoc, ℕ, arith, ◌==◌,
}
use ohos_rs.Common.Text.{Text, text_eq, lookup_text}
use ohos_rs.Modules.{
  same_module, Property, ClassRegistration, Registry, extend_class, register_class, Registering,
  Constructors, define_class, define_classes,
}
use ohos_rs.Modules.Exports.{same_module_iff}

-- One `impl` block, or the struct itself, of a Rust type in a namespace.
pub record Block : Type 0 where
  pub rust_type_id : ℕ
  pub js_mod : Option Text
  pub name : Text
  pub properties : List Property
  pub is_iterator : Bool

unfoldable pub register_all : List Block → Registry → Registry
unfolding register_class
register_all [] r = r
register_all (b ∷ bs) r =
    register_all bs (register_class r b.rust_type_id b.js_mod b.name b.properties b.is_iterator)

abbrev pub same_key : ℕ → Option Text → ℕ → Option Text → Bool
same_key id m id' m' = id == id' && same_module m m'

unfoldable pub registered_props : ℕ → Option Text → Registry → List Property
unfolding same_module
registered_props id m [] = []
registered_props id m (((id', m'), c) ∷ rest) =
    if same_key id' m' id m then c.props else registered_props id m rest

unfoldable pub registered_iterator : ℕ → Option Text → Registry → Bool
unfolding same_module
registered_iterator id m [] = false
registered_iterator id m (((id', m'), c) ∷ rest) =
    if same_key id' m' id m then c.implement_iterator else registered_iterator id m rest

-- The properties of all the blocks of a type in a namespace, and whether one makes it an iterator.
unfoldable pub props_of : ℕ → Option Text → List Block → List Property
unfolding same_module
props_of id m [] = []
props_of id m (b ∷ bs) =
    let rest = props_of id m bs in
    if same_key b.rust_type_id b.js_mod id m then b.properties ++ rest else rest

unfoldable pub makes_iterator : ℕ → Option Text → List Block → Bool
unfolding same_module
makes_iterator id m [] = false
makes_iterator id m (b ∷ bs) =
    (same_key b.rust_type_id b.js_mod id m && b.is_iterator) || makes_iterator id m bs

registered_props-register_class :
    (id : ℕ) (m : Option Text) (r : Registry) (b : Block)
    → registered_props id m
        (register_class r b.rust_type_id b.js_mod b.name b.properties b.is_iterator)
      ≡ (if same_key b.rust_type_id b.js_mod id m
          then registered_props id m r ++ b.properties
          else registered_props id m r)
unfolding registered_props register_class extend_class
registered_props-register_class id m [] b = ground arith
registered_props-register_class id m (((k, n), c) ∷ rest) b = ground (
  arith,
  registered_props-register_class id m rest b,
  same_module_iff n m,
  same_module_iff n b.js_mod,
  same_module_iff b.js_mod m,
)

registered_iterator-register_class :
    (id : ℕ) (m : Option Text) (r : Registry) (b : Block)
    → registered_iterator id m
        (register_class r b.rust_type_id b.js_mod b.name b.properties b.is_iterator)
      ≡ registered_iterator id m r || (same_key b.rust_type_id b.js_mod id m && b.is_iterator)
unfolding registered_iterator register_class extend_class
registered_iterator-register_class id m [] b = ground arith
registered_iterator-register_class id m (((k, n), c) ∷ rest) b = ground (
  arith,
  registered_iterator-register_class id m rest b,
  same_module_iff n m,
  same_module_iff n b.js_mod,
  same_module_iff b.js_mod m,
)

registered_props-register_all :
    (id : ℕ) (m : Option Text) (bs : List Block) (r : Registry)
    → registered_props id m (register_all bs r) ≡ registered_props id m r ++ props_of id m bs
unfolding register_all props_of
registered_props-register_all id m [] r = sym (append-nil (registered_props id m r))
registered_props-register_all id m (b ∷ bs) r = ground (
  arith,
  registered_props-register_all id m bs
      (register_class r b.rust_type_id b.js_mod b.name b.properties b.is_iterator),
  registered_props-register_class id m r b,
  append_assoc (registered_props id m r) b.properties (props_of id m bs),
)

registered_iterator-register_all :
    (id : ℕ) (m : Option Text) (bs : List Block) (r : Registry)
    → registered_iterator id m (register_all bs r)
      ≡ registered_iterator id m r || makes_iterator id m bs
unfolding register_all makes_iterator
registered_iterator-register_all id m [] r = ground arith
registered_iterator-register_all id m (b ∷ bs) r = ground (
  arith,
  registered_iterator-register_all id m bs
      (register_class r b.rust_type_id b.js_mod b.name b.properties b.is_iterator),
  registered_iterator-register_class id m r b,
)

-- The class of a Rust type in a namespace has the properties of all the blocks that are registered for
-- it, in the order of their registration and none of another class, and it is an iterator exactly if one
-- of these blocks makes it one.
pub register_all_lem :
    (id : ℕ) (m : Option Text) (bs : List Block)
    → (registered_props id m (register_all bs []) ≡ props_of id m bs)
      × (registered_iterator id m (register_all bs []) ≡ makes_iterator id m bs)
unfolding registered_props registered_iterator
register_all_lem id m bs =
    (registered_props-register_all id m bs [], registered_iterator-register_all id m bs [])

-- The constructor that `get_class_constructor` finds under a name.
unfoldable pub get_class_constructor : Text → Constructors → Option ℕ
unfolding lookup_text
get_class_constructor name registered = lookup_text name registered

-- The last class of a name, over all the namespaces.
unfoldable pub last_named : Text → List (Option Text × ClassRegistration × ℕ) → Option ℕ → Option ℕ
unfolding text_eq
last_named name [] before = before
last_named name ((m, c, class) ∷ cs) before =
    last_named name cs (if text_eq c.js_name name then some class else before)

-- A class is found by its name alone: of all the classes of a name, in whatever namespaces, the one that
-- was defined last.
pub get_class_constructor-define_classes :
    (name : Text) (cs : List (Option Text × ClassRegistration × ℕ)) (r : Registering)
    (registered : Constructors)
    → get_class_constructor name (define_classes cs (r, registered)).1
      ≡ last_named name cs (get_class_constructor name registered)
unfolding get_class_constructor define_classes last_named
get_class_constructor-define_classes name [] r registered = refl
get_class_constructor-define_classes name ((m, c, class) ∷ cs) r registered =
    get_class_constructor-define_classes name cs (define_class c m class r)
      ((c.js_name, class) ∷ registered)
