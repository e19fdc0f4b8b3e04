-- ===== src/Modules.antt =====
-- The registration of a module: crates/napi/src/bindgen_runtime/module_register.rs. The calls of the
-- engine succeed here; what a callback of the module gives, a value or an error, is an argument.
mod Tests
pub mod Exports
pub mod Classes
pub mod Namespaces
pub mod Lifetime
use mathlib.Core.Option
use ohos_rs.Common.{
  ℕ, ◌==◌, if◌then◌else◌, Bool, true, false, ◌&&◌, ◌||◌, Option, none, some, List, [], ◌∷◌, ◌++◌,
}
use ohos_rs.Common.Text.{Text, text_eq, mem_text}

pub data Produced : Type 0 where
  value error : ℕ → Produced

-- `create` and `fetch` are those of a namespace's object, `assign` the export of a value under a name
-- in a namespace, or in `exports` itself.
pub data Event : Type 0 where
  create fetch : Text → Event
  assign : Option Text → Text → ℕ → Event
  throw : ℕ → Event
  define : Text → Option ℕ → List ℕ → Event
  add_iterator : Text → Event

-- `MODULE_REGISTER_CALLBACK`, in the order of registration, and what it is grouped into.
abbrev pub Callbacks : Type 0
Callbacks = List (Option Text × Text × Produced)

abbrev pub Items : Type 0
Items = List (Text × Produced)

abbrev pub Groups : Type 0
Groups = List (Option Text × Items)

unfoldable pub same_module : Option Text → Option Text → Bool
unfolding text_eq
same_module none none = true
same_module none (some n) = false
same_module (some m) none = false
same_module (some m) (some n) = text_eq m n

unfoldable pub add_item : Groups → Option Text → Text × Produced → Groups
unfolding same_module
add_item [] js_mod item = (js_mod, item ∷ []) ∷ []
add_item ((m, items) ∷ gs) js_mod item =
    let rest = add_item gs js_mod item in
    if same_module m js_mod then (m, items ++ item ∷ []) ∷ gs else (m, items) ∷ rest

unfoldable pub group_from : Callbacks → Groups → Groups
unfolding add_item
group_from [] acc = acc
group_from ((js_mod, name, cb) ∷ cbs) acc = group_from cbs (add_item acc js_mod (name, cb))

-- What was done so far, and `exports_objects`.
pub record Registering : Type 0 where
  pub done : List Event
  pub exports_objects : List Text

abbrev pub log : Registering → List Event → Registering
log r es = record r { done = r.done ++ es }

unfoldable pub module_object : Option Text → Registering → Registering
unfolding mem_text
module_object none r = r
module_object (some m) r =
    if mem_text m r.exports_objects
    then log r (fetch m ∷ [])
    else record { done = r.done ++ create m ∷ []; exports_objects = m ∷ r.exports_objects }

unfoldable pub export_item : Option Text → Text × Produced → Registering → Registering
export_item js_mod (name, value v) r = log r (assign js_mod name v ∷ [])
export_item js_mod (name, error e) r = log r (throw e ∷ [])

unfoldable pub export_items : Option Text → Items → Registering → Registering
unfolding export_item
export_items js_mod [] r = r
export_items js_mod (item ∷ items) r = export_items js_mod items (export_item js_mod item r)

unfoldable pub export_groups : Groups → Registering → Registering
unfolding module_object export_items
export_groups [] r = r
export_groups ((js_mod, items) ∷ gs) r =
    export_groups gs (export_items js_mod items (module_object js_mod r))

-- A property of a class; the method of a constructor is run by `new`.
pub record Property : Type 0 where
  pub is_ctor : Bool
  pub method : ℕ

pub record ClassRegistration : Type 0 where
  pub js_name : Text
  pub props : List Property
  pub implement_iterator : Bool

-- `MODULE_CLASS_PROPERTIES`: a Rust type and a namespace with its registration.
abbrev pub Registry : Type 0
Registry = List ((ℕ × Option Text) × ClassRegistration)

unfoldable pub extend_class : ClassRegistration → Text → List Property → Bool → ClassRegistration
extend_class c js_name props implement_iterator = record {
  js_name = js_name;
  props = c.props ++ props;
  implement_iterator = c.implement_iterator || implement_iterator;
}

unfoldable pub register_class : Registry → ℕ → Option Text → Text → List Property → Bool → Registry
unfolding same_module extend_class
register_class [] id js_mod js_name props it =
    (
      (id, js_mod),
      extend_class (record { js_name = js_name; props = []; implement_iterator = it }) js_name props
          it,
    )
    ∷ []
register_class (((id', m), c) ∷ rest) id js_mod js_name props it =
    let others = register_class rest id js_mod js_name props it in
    if id' == id && same_module m js_mod
    then ((id', m), extend_class c js_name props it) ∷ rest
    else ((id', m), c) ∷ others

-- The method of the first constructor, and the other properties.
unfoldable pub constructor_of : List Property → Option ℕ
constructor_of [] = none
constructor_of (p ∷ ps) = if p.is_ctor then some p.method else constructor_of ps

unfoldable pub plain_props : List Property → List ℕ
plain_props [] = []
plain_props (p ∷ ps) = let rest = plain_props ps in if p.is_ctor then rest else p.method ∷ rest

-- The classes with the values that the engine makes of them; `REGISTERED_CLASSES` has the reference of
-- each under its name, the newest first.
abbrev pub Constructors : Type 0
Constructors = List (Text × ℕ)

unfoldable pub define_class : ClassRegistration → Option Text → ℕ → Registering → Registering
unfolding module_object constructor_of plain_props
define_class c js_mod class r =
    let r' = module_object js_mod r in
    log r' (
      define c.js_name (constructor_of c.props) (plain_props c.props)
      ∷ ((if c.implement_iterator then add_iterator c.js_name ∷ [] else [])
          ++ assign js_mod c.js_name class ∷ []))

unfoldable pub define_classes :
    List (Option Text × ClassRegistration × ℕ)
    → Registering × Constructors
    → Registering × Constructors
unfolding define_class
define_classes [] r = r
define_classes ((js_mod, c, class) ∷ cs) (r, registered) =
    define_classes cs (define_class c js_mod class r, (c.js_name, class) ∷ registered)

-- The hook and the callbacks of the compat mode: `none` succeeds, `some` is the error that is thrown.
unfoldable pub run_hooks : List (Option ℕ) → Registering → Registering
run_hooks [] r = r
run_hooks (none ∷ hs) r = run_hooks hs r
run_hooks (some e ∷ hs) r = run_hooks hs (log r (throw e ∷ []))

abbrev pub nothing : Registering
nothing = record { done = []; exports_objects = [] }

-- `napi_register_module_v1` up to the hooks. `groups` are those of the callbacks and `classes` those of the
-- registry, each in the order in which the hash map gives them.
unfoldable pub register_module :
    Groups
    → List (Option Text × ClassRegistration × ℕ)
    → List (Option ℕ)
    → Registering × Constructors
unfolding export_groups define_classes run_hooks
register_module groups classes hooks =
    let (r, registered) = define_classes classes (export_groups groups nothing, []) in
    (run_hooks hooks r, registered)
