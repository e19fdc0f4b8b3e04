-- ===== src/Modules/Tests.antt =====
-- Runs of the registration of a module, and its theorems at concrete inputs.
use ohos_rs.Common.{◌≤◌, true, false, none, some, Option, List, [], ◌∷◌, ◌≡◌, ◌≢◌, refl}
use ohos_rs.Common.Text.{Text, codes}
use ohos_rs.Modules.{
  value, error, assign, create, throw, Callbacks, Groups, ClassRegistration, group_from,
  export_groups, nothing, register_module, define_classes,
}
use ohos_rs.Modules.Exports.{
  assigned, values_in, HasDistinctKeys, has_key, items_of, assigned-group_from,
}
use ohos_rs.Modules.Namespaces.{creations, exports_into, register_module-creations}
use ohos_rs.Modules.Classes.{
  Block, register_all, registered_props, registered_iterator, props_of, makes_iterator,
  register_all_lem, get_class_constructor,
}
use ohos_rs.Modules.Lifetime.{
  new_process, load, unload, is_live, Reachable, started, loaded, unloaded,
}
use ohos_rs.Modules.Lifetime.Live.{Reachable-held}
use ohos_rs.Runtime.{use_runtime}

abbrev math : Option Text
math = some (codes "math")

-- Two exports of a namespace, with a failing one and one of the module itself between them.
abbrev callbacks : Callbacks
callbacks =
    (math, codes "add", value 1)
    ∷ (none, codes "version", value 2)
    ∷ (math, codes "sub", error 9)
    ∷ (math, codes "mul", value 3)
    ∷ []

exports_made :
    (export_groups (group_from callbacks []) nothing).done
    ≡ create (codes "math")
      ∷ assign math (codes "add") 1
      ∷ throw 9
      ∷ assign math (codes "mul") 3
      ∷ assign none (codes "version") 2
      ∷ []
unfolding group_from export_groups
exports_made = refl

-- The groups as another order of the hash map gives them.
abbrev enumerated : Groups
enumerated =
    (none, (codes "version", value 2) ∷ [])
    ∷ (math, (codes "add", value 1) ∷ (codes "sub", error 9) ∷ (codes "mul", value 3) ∷ [])
    ∷ []

items_of-enumerated :
    (n : Option Text) → items_of n enumerated ≡ items_of n (group_from callbacks [])
unfolding items_of group_from
items_of-enumerated none = refl
items_of-enumerated (some n) = refl

HasDistinctKeys-enumerated : HasDistinctKeys enumerated
unfolding has_key
HasDistinctKeys-enumerated = (refl, (refl, tt))

assigned-group_from_example :
    assigned math (export_groups enumerated nothing).done ≡ values_in math callbacks
assigned-group_from_example =
    assigned-group_from math callbacks enumerated HasDistinctKeys-enumerated items_of-enumerated

abbrev counter : ClassRegistration
counter = record {
  js_name = codes "Counter";
  props = record { is_ctor = true; method = 4 } ∷ record { is_ctor = false; method = 5 } ∷ [];
  implement_iterator = false;
}

register_module-creations_example :
    (creations
        (codes "math")
        (register_module enumerated ((math, counter, 6) ∷ []) (some 8 ∷ [])).0.done
      ≤ 1)
    × (1
          ≤ exports_into
              (codes "math")
              (register_module enumerated ((math, counter, 6) ∷ []) (some 8 ∷ [])).0.done
        → creations
            (codes "math")
            (register_module enumerated ((math, counter, 6) ∷ []) (some 8 ∷ [])).0.done
          ≡ 1)
register_module-creations_example =
    register_module-creations (codes "math") enumerated ((math, counter, 6) ∷ []) (some 8 ∷ [])

-- The struct and an `impl` block of one type, with another type between them.
abbrev blocks : List Block
blocks =
    record {
      rust_type_id = 1;
      js_mod = math;
      name = codes "Counter";
      properties = record { is_ctor = false; method = 10 } ∷ [];
      is_iterator = false;
    }
    ∷ record {
      rust_type_id = 2;
      js_mod = math;
      name = codes "Other";
      properties = record { is_ctor = false; method = 11 } ∷ [];
      is_iterator = false;
    }
    ∷ record {
      rust_type_id = 1;
      js_mod = math;
      name = codes "Counter";
      properties = record { is_ctor = true; method = 12 } ∷ [];
      is_iterator = true;
    }
    ∷ []

blocks_joined :
    registered_props 1 math (register_all blocks [])
    ≡ record { is_ctor = false; method = 10 } ∷ record { is_ctor = true; method = 12 } ∷ []
unfolding registered_props register_all
blocks_joined = refl

register_all_lem_example :
    (registered_props 1 math (register_all blocks []) ≡ props_of 1 math blocks)
    × (registered_iterator 1 math (register_all blocks []) ≡ makes_iterator 1 math blocks)
register_all_lem_example = register_all_lem 1 math blocks

-- Two classes of one name in different namespaces: the first is not found any more.
same_name :
    get_class_constructor
      (codes "Counter")
      (define_classes ((math, counter, 6) ∷ (none, counter, 7) ∷ []) (nothing, [])).1
    ≡ some 7
unfolding get_class_constructor define_classes
same_name = refl

-- Two environments of which the first ends.
first_loaded : Reachable (load 1 (new_process 50))
unfolding is_live
first_loaded = loaded 1 (started 50) refl

second_loaded : Reachable (load 2 (load 1 (new_process 50)))
unfolding is_live load
second_loaded = loaded 2 first_loaded refl

first_ended : Reachable (unload 1 (load 2 (load 1 (new_process 50))))
unfolding is_live load
first_ended = unloaded 1 second_loaded refl

second_live : is_live 2 (unload 1 (load 2 (load 1 (new_process 50)))).live ≡ true
unfolding is_live load unload
second_live = refl

Reachable-held_example :
    (use_runtime (unload 1 (load 2 (load 1 (new_process 50)))).runtime).0 ≢ none
Reachable-held_example = Reachable-held 2 first_ended second_live
