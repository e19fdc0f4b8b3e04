-- ===== src/Modules/Exports.antt =====
-- The exports of functions and constants in napi_register_module_v1 of
-- crates/napi/src/bindgen_runtime/module_register.rs, grouped by their namespaces in a hash map.
use ohos_rs.Common.{
  ◌↔◌, ap, sym, ◌∙◌, ◌≡◌, refl, if◌then◌else◌, Bool, true, false, ◌||◌, Option, none, some, List,
  [], ◌∷◌, ◌++◌, append-nil, append_assoc, ℕ, arith,
}
use ohos_rs.Common.Text.{Text, text_eq_iff}
use ohos_rs.Modules.{
  Produced, value, error, Event, create, fetch, assign, throw, define, add_iterator, Callbacks,
  Items, Groups, same_module, add_item, group_from, Registering, log, module_object, export_items,
  export_groups, nothing,
}

pub same_module_iff : (m n : Option Text) → (same_module m n ≡ true) ↔ (m ≡ n)
unfolding same_module
same_module_iff none none = (λ _. refl, λ _. refl)
same_module_iff none (some n) = ground arith
same_module_iff (some m) none = ground arith
same_module_iff (some m) (some n) = ground (arith, text_eq_iff m n)

-- The exports into one namespace, in the order in which they are made.
unfoldable pub assigned : Option Text → List Event → List (Text × ℕ)
unfolding same_module
assigned m [] = []
assigned m (create n ∷ es) = assigned m es
assigned m (fetch n ∷ es) = assigned m es
assigned m (assign n name v ∷ es) =
    let rest = assigned m es in if same_module n m then (name, v) ∷ rest else rest
assigned m (throw e ∷ es) = assigned m es
assigned m (define c ctor props ∷ es) = assigned m es
assigned m (add_iterator c ∷ es) = assigned m es

unfoldable pub values_of : Items → List (Text × ℕ)
values_of [] = []
values_of ((name, value v) ∷ items) = (name, v) ∷ values_of items
values_of ((name, error e) ∷ items) = values_of items

-- What the callbacks that are registered for a namespace give, in the order of registration.
unfoldable pub values_in : Option Text → Callbacks → List (Text × ℕ)
unfolding same_module
values_in m [] = []
values_in m ((n, name, value v) ∷ cbs) =
    let rest = values_in m cbs in if same_module n m then (name, v) ∷ rest else rest
values_in m ((n, name, error e) ∷ cbs) = values_in m cbs

-- What the hash map has under a key, and that an enumeration of it has each key once.
unfoldable pub items_of : Option Text → Groups → Items
unfolding same_module
items_of m [] = []
items_of m ((n, items) ∷ gs) = if same_module n m then items else items_of m gs

unfoldable pub has_key : Option Text → Groups → Bool
unfolding same_module
has_key m [] = false
has_key m ((n, items) ∷ gs) = same_module n m || has_key m gs

abbrev pub HasDistinctKeys : Groups → Type 0
HasDistinctKeys [] = Unit
HasDistinctKeys ((m, items) ∷ gs) = (has_key m gs ≡ false) × HasDistinctKeys gs

assigned-append :
    (m : Option Text) (xs ys : List Event) → assigned m (xs ++ ys) ≡ assigned m xs ++ assigned m ys
unfolding assigned
assigned-append m [] ys = refl
assigned-append m (create n ∷ xs) ys = assigned-append m xs ys
assigned-append m (fetch n ∷ xs) ys = assigned-append m xs ys
assigned-append m (assign n name v ∷ xs) ys = ground (arith, assigned-append m xs ys)
assigned-append m (throw e ∷ xs) ys = assigned-append m xs ys
assigned-append m (define c ctor props ∷ xs) ys = assigned-append m xs ys
assigned-append m (add_iterator c ∷ xs) ys = assigned-append m xs ys

values_of-append : (xs ys : Items) → values_of (xs ++ ys) ≡ values_of xs ++ values_of ys
unfolding values_of
values_of-append [] ys = refl
values_of-append ((name, value v) ∷ xs) ys = ap (λ l. (name, v) ∷ l) (values_of-append xs ys)
values_of-append ((name, error e) ∷ xs) ys = values_of-append xs ys

assigned-module_object :
    (m n : Option Text) (r : Registering) → assigned m (module_object n r).done ≡ assigned m r.done
unfolding module_object assigned
assigned-module_object m none r = refl
assigned-module_object m (some n) r = ground (
  arith,
  assigned-append m r.done (create n ∷ []),
  assigned-append m r.done (fetch n ∷ []),
  append-nil (assigned m r.done),
)

assigned-export_items :
    (m n : Option Text) (items : Items) (r : Registering)
    → assigned m (export_items n items r).done
      ≡ assigned m r.done ++ (if same_module n m then values_of items else [])
unfolding export_items values_of assigned
assigned-export_items m n [] r = ground (arith, append-nil (assigned m r.done))
assigned-export_items m n ((name, value v) ∷ items) r = ground (
  arith,
  assigned-export_items m n items (log r (assign n name v ∷ [])),
  assigned-append m r.done (assign n name v ∷ []),
  append-nil (assigned m r.done),
  append_assoc (assigned m r.done) ((name, v) ∷ []) (values_of items),
)
assigned-export_items m n ((name, error e) ∷ items) r = ground (
  arith,
  assigned-export_items m n items (log r (throw e ∷ [])),
  assigned-append m r.done (throw e ∷ []),
  append-nil (assigned m r.done),
)

items_of_absent : (m : Option Text) (gs : Groups) → has_key m gs ≡ false → items_of m gs ≡ []
unfolding items_of has_key
items_of_absent m [] h = refl
items_of_absent m ((n, items) ∷ gs) h = ground (arith, items_of_absent m gs)

assigned-export_groups :
    (m : Option Text) (gs : Groups) (r : Registering)
    → HasDistinctKeys gs
    → assigned m (export_groups gs r).done ≡ assigned m r.done ++ values_of (items_of m gs)
unfolding export_groups values_of items_of
assigned-export_groups m [] r d = sym (append-nil (assigned m r.done))
assigned-export_groups m ((n, items) ∷ gs) r d = ground (
  arith,
  assigned-export_groups m gs (export_items n items (module_object n r)) d.1,
  assigned-export_items m n items (module_object n r),
  assigned-module_object m n r,
  same_module_iff n m,
  items_of_absent m gs,
  append-nil (assigned m r.done),
  append-nil (assigned m r.done ++ values_of items),
)

items_of-add_item :
    (m n : Option Text) (gs : Groups) (item : Text × Produced)
    → items_of m (add_item gs n item)
      ≡ (if same_module n m then items_of m gs ++ item ∷ [] else items_of m gs)
unfolding add_item items_of
items_of-add_item m n [] item = refl
items_of-add_item m n ((k, items) ∷ gs) item = ground (
  arith,
  items_of-add_item m n gs item,
  same_module_iff k m,
  same_module_iff k n,
  same_module_iff n m,
)

values_of-group_from :
    (m : Option Text) (cbs : Callbacks) (acc : Groups)
    → values_of (items_of m (group_from cbs acc)) ≡ values_of (items_of m acc) ++ values_in m cbs
unfolding group_from values_in values_of
values_of-group_from m [] acc = sym (append-nil (values_of (items_of m acc)))
values_of-group_from m ((n, name, value v) ∷ cbs) acc = ground (
  arith,
  values_of-group_from m cbs (add_item acc n (name, value v)),
  items_of-add_item m n acc (name, value v),
  values_of-append (items_of m acc) ((name, value v) ∷ []),
  append_assoc (values_of (items_of m acc)) ((name, v) ∷ []) (values_in m cbs),
)
values_of-group_from m ((n, name, error e) ∷ cbs) acc = ground (
  arith,
  values_of-group_from m cbs (add_item acc n (name, error e)),
  items_of-add_item m n acc (name, error e),
  values_of-append (items_of m acc) ((name, error e) ∷ []),
  append-nil (values_of (items_of m acc)),
)

-- The exports of a module, in any order in which the hash map enumerates the groups: what goes into a
-- namespace is exactly what the callbacks registered for it give, each once and in the order of their
-- registration. As the calls of the engine succeed, a callback that fails leaves out its own export and
-- no other.
pub assigned-group_from :
    (m : Option Text) (cbs : Callbacks) (gs : Groups)
    → HasDistinctKeys gs
    → ((n : Option Text) → items_of n gs ≡ items_of n (group_from cbs []))
    → assigned m (export_groups gs nothing).done ≡ values_in m cbs
unfolding items_of values_of assigned
assigned-group_from m cbs gs d same =
    assigned-export_groups m gs nothing d ∙ ap values_of (same m) ∙ values_of-group_from m cbs []

-- The groups that are made have each key once.
has_key-add_item :
    (m n : Option Text) (gs : Groups) (item : Text × Produced)
    → has_key m (add_item gs n item) ≡ same_module n m || has_key m gs
unfolding add_item has_key
has_key-add_item m n [] item = refl
has_key-add_item m n ((k, items) ∷ gs) item = ground (
  arith,
  has_key-add_item m n gs item,
  same_module_iff k m,
  same_module_iff k n,
  same_module_iff n m,
)

add_item-HasDistinctKeys :
    (n : Option Text) (gs : Groups) (item : Text × Produced)
    → HasDistinctKeys gs
    → HasDistinctKeys (add_item gs n item)
unfolding add_item has_key
add_item-HasDistinctKeys n [] item d = (refl, tt)
add_item-HasDistinctKeys n ((k, items) ∷ gs) item d = ground (
  arith,
  add_item-HasDistinctKeys n gs item d.1,
  has_key-add_item k n gs item,
  same_module_iff k n,
  same_module_iff n k,
)

pub group_from-HasDistinctKeys :
    (cbs : Callbacks) (acc : Groups) → HasDistinctKeys acc → HasDistinctKeys (group_from cbs acc)
unfolding group_from
group_from-HasDistinctKeys [] acc d = d
group_from-HasDistinctKeys ((m, name, cb) ∷ cbs) acc d =
    group_from-HasDistinctKeys cbs (add_item acc m (name, cb))
      (add_item-HasDistinctKeys m acc (name, cb) d)
