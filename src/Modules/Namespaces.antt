-- ===== src/Modules/Namespaces.antt =====
-- The objects of the namespaces in napi_register_module_v1 of
-- crates/napi/src/bindgen_runtime/module_register.rs: exports, classes and hooks together.
use ohos_rs.Common.{
  ◌≡◌, refl, if◌then◌else◌, Bool, true, false, Option, none, some, List, [], ◌∷◌, ◌++◌, ℕ, ◌+◌, ◌≤◌,
  arith,
}
use ohos_rs.Common.Text.{Text, text_eq, text_eq_iff, mem_text}
use ohos_rs.Modules.{
  Produced, value, error, Event, create, fetch, assign, throw, define, add_iterator, Items, Groups,
  Registering, log, module_object, export_item, export_items, export_groups, nothing, Constructors,
  ClassRegistration, define_class, define_classes, constructor_of, plain_props, run_hooks,
  register_module,
}

-- How often the object of a namespace is created, and how often something is exported into it.
unfoldable pub creations : Text → List Event → ℕ
unfolding text_eq
creations m [] = 0
creations m (create n ∷ es) = (if text_eq n m then 1 else 0) + creations m es
creations m (fetch n ∷ es) = creations m es
creations m (assign n name v ∷ es) = creations m es
creations m (throw e ∷ es) = creations m es
creations m (define c ctor props ∷ es) = creations m es
creations m (add_iterator c ∷ es) = creations m es

abbrev goes_to : Text → Option Text → ℕ
goes_to m none = 0
goes_to m (some n) = if text_eq n m then 1 else 0

unfoldable pub exports_into : Text → List Event → ℕ
unfolding text_eq
exports_into m [] = 0
exports_into m (create n ∷ es) = exports_into m es
exports_into m (fetch n ∷ es) = exports_into m es
exports_into m (assign n name v ∷ es) = goes_to m n + exports_into m es
exports_into m (throw e ∷ es) = exports_into m es
exports_into m (define c ctor props ∷ es) = exports_into m es
exports_into m (add_iterator c ∷ es) = exports_into m es

creations-append :
    (m : Text) (xs ys : List Event) → creations m (xs ++ ys) ≡ creations m xs + creations m ys
unfolding creations
creations-append m [] ys = omega arith
creations-append m (create n ∷ xs) ys = omega (arith, creations-append m xs ys)
creations-append m (fetch n ∷ xs) ys = creations-append m xs ys
creations-append m (assign n name v ∷ xs) ys = creations-append m xs ys
creations-append m (throw e ∷ xs) ys = creations-append m xs ys
creations-append m (define c ctor props ∷ xs) ys = creations-append m xs ys
creations-append m (add_iterator c ∷ xs) ys = creations-append m xs ys

exports_into-append :
    (m : Text) (xs ys : List Event)
    → exports_into m (xs ++ ys) ≡ exports_into m xs + exports_into m ys
unfolding exports_into
exports_into-append m [] ys = omega arith
exports_into-append m (create n ∷ xs) ys = exports_into-append m xs ys
exports_into-append m (fetch n ∷ xs) ys = exports_into-append m xs ys
exports_into-append m (assign n name v ∷ xs) ys = omega (arith, exports_into-append m xs ys)
exports_into-append m (throw e ∷ xs) ys = exports_into-append m xs ys
exports_into-append m (define c ctor props ∷ xs) ys = exports_into-append m xs ys
exports_into-append m (add_iterator c ∷ xs) ys = exports_into-append m xs ys

abbrev Has : Text → Registering → Type 0
Has m r = mem_text m r.exports_objects ≡ true

-- The object of `m` is created once where the set of the objects has it, and never where it has not;
-- what is exported into `m` is exported after that.
record IsSound (m : Text) (r : Registering) : Type 0 where
  counted : creations m r.done ≡ (if mem_text m r.exports_objects then 1 else 0)
  ready : 1 ≤ exports_into m r.done → mem_text m r.exports_objects ≡ true

module_object-IsSound :
    (m : Text) (n : Option Text) (r : Registering) → IsSound m r → IsSound m (module_object n r)
unfolding module_object creations exports_into mem_text
module_object-IsSound m none r s = s
module_object-IsSound m (some n) r s = ground (
  arith,
  text_eq_iff n m,
  creations-append m r.done (create n ∷ []),
  creations-append m r.done (fetch n ∷ []),
  exports_into-append m r.done (create n ∷ []),
  exports_into-append m r.done (fetch n ∷ []),
)

-- The object that an export goes to is there.
abbrev Opened : Option Text → Registering → Type 0
Opened none r = Unit
Opened (some n) r = mem_text n r.exports_objects ≡ true

module_object-Opened : (n : Option Text) (r : Registering) → Opened n (module_object n r)
unfolding module_object mem_text
module_object-Opened none r = tt
module_object-Opened (some n) r = ground (arith, text_eq_iff n n)

-- Events that are neither a creation nor an export.
abbrev IsQuiet : Text → List Event → Type 0
IsQuiet m es = (creations m es ≡ 0) × (exports_into m es ≡ 0)

log-IsSound :
    (m : Text) (r : Registering) (es : List Event)
    → IsQuiet m es
    → IsSound m r
    → IsSound m (log r es)
log-IsSound m r es q s =
    ground (arith, creations-append m r.done es, exports_into-append m r.done es)

assign-IsSound :
    (m : Text) (n : Option Text) (name : Text) (v : ℕ) (r : Registering) (es : List Event)
    → IsQuiet m es
    → Opened n r
    → IsSound m r
    → IsSound m (log r (es ++ assign n name v ∷ []))
unfolding creations exports_into
assign-IsSound m none name v r es q o s = ground (
  arith,
  creations-append m r.done (es ++ assign none name v ∷ []),
  exports_into-append m r.done (es ++ assign none name v ∷ []),
  creations-append m es (assign none name v ∷ []),
  exports_into-append m es (assign none name v ∷ []),
)
assign-IsSound m (some n) name v r es q o s = ground (
  arith,
  text_eq_iff n m,
  creations-append m r.done (es ++ assign (some n) name v ∷ []),
  exports_into-append m r.done (es ++ assign (some n) name v ∷ []),
  creations-append m es (assign (some n) name v ∷ []),
  exports_into-append m es (assign (some n) name v ∷ []),
)

nil-IsQuiet : (m : Text) → IsQuiet m []
unfolding creations exports_into
nil-IsQuiet m = (refl, refl)

throw-IsQuiet : (m : Text) (e : ℕ) → IsQuiet m (throw e ∷ [])
unfolding creations exports_into
throw-IsQuiet m e = (refl, refl)

export_item-IsSound :
    (m : Text) (n : Option Text) (item : Text × Produced) (r : Registering)
    → Opened n r
    → IsSound m r
    → IsSound m (export_item n item r) × Opened n (export_item n item r)
unfolding export_item
export_item-IsSound m none (name, value v) r o s =
    (assign-IsSound m none name v r [] (nil-IsQuiet m) o s, tt)
export_item-IsSound m (some n) (name, value v) r o s =
    (assign-IsSound m (some n) name v r [] (nil-IsQuiet m) o s, o)
export_item-IsSound m none (name, error e) r o s =
    (log-IsSound m r (throw e ∷ []) (throw-IsQuiet m e) s, tt)
export_item-IsSound m (some n) (name, error e) r o s =
    (log-IsSound m r (throw e ∷ []) (throw-IsQuiet m e) s, o)

export_items-IsSound :
    (m : Text) (n : Option Text) (items : Items) (r : Registering)
    → Opened n r
    → IsSound m r
    → IsSound m (export_items n items r)
unfolding export_items
export_items-IsSound m n [] r o s = s
export_items-IsSound m n (item ∷ items) r o s =
    let (sound, opened) = export_item-IsSound m n item r o s in
    export_items-IsSound m n items (export_item n item r) opened sound

export_groups-IsSound :
    (m : Text) (gs : Groups) (r : Registering) → IsSound m r → IsSound m (export_groups gs r)
unfolding export_groups
export_groups-IsSound m [] r s = s
export_groups-IsSound m ((n, items) ∷ gs) r s =
    export_groups-IsSound m gs (export_items n items (module_object n r)) (
      export_items-IsSound m n items (module_object n r) (module_object-Opened n r)
        (module_object-IsSound m n r s))

-- What stands before the export of a class.
define-IsQuiet :
    (m name : Text) (ctor : Option ℕ) (props : List ℕ) (it : Bool)
    → IsQuiet m (define name ctor props ∷ (if it then add_iterator name ∷ [] else []))
unfolding creations exports_into
define-IsQuiet m name ctor props true = (refl, refl)
define-IsQuiet m name ctor props false = (refl, refl)

define_class-IsSound :
    (m : Text) (c : ClassRegistration) (n : Option Text) (class : ℕ) (r : Registering)
    → IsSound m r
    → IsSound m (define_class c n class r)
unfolding define_class
define_class-IsSound m c n class r s =
    assign-IsSound m n c.js_name class (module_object n r)
      (define c.js_name (constructor_of c.props) (plain_props c.props)
        ∷ (if c.implement_iterator then add_iterator c.js_name ∷ [] else []))
      (define-IsQuiet m c.js_name (constructor_of c.props) (plain_props c.props)
        c.implement_iterator)
      (module_object-Opened n r) (module_object-IsSound m n r s)

define_classes-IsSound :
    (m : Text) (cs : List (Option Text × ClassRegistration × ℕ)) (r : Registering)
    (registered : Constructors)
    → IsSound m r
    → IsSound m (define_classes cs (r, registered)).0
unfolding define_classes
define_classes-IsSound m [] r registered s = s
define_classes-IsSound m ((n, c, class) ∷ cs) r registered s =
    define_classes-IsSound m cs (define_class c n class r) ((c.js_name, class) ∷ registered)
      (define_class-IsSound m c n class r s)

run_hooks-IsSound :
    (m : Text) (hooks : List (Option ℕ)) (r : Registering)
    → IsSound m r
    → IsSound m (run_hooks hooks r)
unfolding run_hooks
run_hooks-IsSound m [] r s = s
run_hooks-IsSound m (none ∷ hs) r s = run_hooks-IsSound m hs r s
run_hooks-IsSound m (some e ∷ hs) r s =
    run_hooks-IsSound m hs (log r (throw e ∷ []))
      (log-IsSound m r (throw e ∷ []) (throw-IsQuiet m e) s)

nothing-IsSound : (m : Text) → IsSound m nothing
unfolding creations exports_into mem_text
nothing-IsSound m = ground arith

register_module-IsSound :
    (m : Text) (gs : Groups) (cs : List (Option Text × ClassRegistration × ℕ))
    (hooks : List (Option ℕ))
    → IsSound m (register_module gs cs hooks).0
unfolding register_module
register_module-IsSound m gs cs hooks =
    run_hooks-IsSound m hooks (define_classes cs (export_groups gs nothing, [])).0 (
      define_classes-IsSound m cs (export_groups gs nothing) []
        (export_groups-IsSound m gs nothing (nothing-IsSound m)))

creations_bounds :
    (m : Text) (r : Registering)
    → IsSound m r
    → (creations m r.done ≤ 1) × (1 ≤ exports_into m r.done → creations m r.done ≡ 1)
creations_bounds m r s = ground arith

-- In the registration of any exports, classes and hooks, whatever the order of the hash maps and whatever
-- callbacks fail, where the calls of the engine succeed: the object of a namespace is created at most once, so that no later object replaces
-- one that exports are in, and exactly once where something is exported into the namespace.
pub register_module-creations :
    (m : Text) (gs : Groups) (cs : List (Option Text × ClassRegistration × ℕ))
    (hooks : List (Option ℕ))
    → let done = (register_module gs cs hooks).0.done in
      (creations m done ≤ 1) × (1 ≤ exports_into m done → creations m done ≡ 1)
register_module-creations m gs cs hooks =
    let r = (register_module gs cs hooks).0 in
    creations_bounds m r (register_module-IsSound m gs cs hooks)
