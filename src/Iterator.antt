-- ===== src/Iterator.antt =====
-- The iterators of crates/napi/src/bindgen_runtime/iterator.rs: the callbacks that JavaScript calls as
-- `next`, `return` and `throw` of an instance. The property `[[GeneratorState]]` of the instance says
-- whether the generator is completed. The engine grants what it is asked for; a value that cannot be
-- converted raises an exception, and the callback may go on.
pub mod Completed
mod Tests
use ohos_rs.Common.{ℕ, if◌then◌else◌, Bool, true, false, Option, none, some, List, [], ◌∷◌}
use ohos_rs.Error.{Error, Result, ok, err}

-- What `catch` makes of an exception: a value or the end, or an exception that is thrown again.
pub data Caught (Y : Type 0) : Type 0 where
  caught : Option Y → Caught Y
  rethrown : ℕ → Caught Y

-- `ScopedGenerator`, with a state `G` of its own, the values `Y` that it yields, and the arguments `N` of
-- `next` and `R` of `return`. What `complete` returns is not used.
pub record Generator (G Y N R : Type 0) : Type 0 where
  pub next : Option N → G → Option Y × G
  pub complete : Option R → G → Option Y × G
  pub catch : ℕ → G → Caught Y × G

-- The conversions of the arguments and of a value, and `undefined`.
pub record Site (Y N R : Type 0) : Type 0 where
  pub to_next : ℕ → Result N
  pub to_return : ℕ → Result R
  pub to_value : Y → Result ℕ
  pub undefined : ℕ

-- The instance: the property of it, and the generator.
pub record Instance (G : Type 0) : Type 0 where
  pub completed : Bool
  pub generator : G

-- The object that a callback returns; a value that is not set is `undefined` there.
pub record IteratorResult : Type 0 where
  pub value : Option ℕ
  pub done : Bool

-- What is thrown: an error of the library, or an exception that is passed on.
pub data Thrown : Type 0 where
  error : Error → Thrown
  exception : ℕ → Thrown

-- What a callback leaves: an exception that is pending, and its object, `none` for the null pointer.
pub record Outcome : Type 0 where
  pub pending : Option Thrown
  pub result : Option IteratorResult

module _ {G Y N R : Type 0} (site : Site Y N R) (g : Generator G Y N R) where
  -- `set_generator_value`: the value, and the error that it raises.
  unfoldable pub set_generator_value : Y → Option ℕ × Option Thrown
  set_generator_value y = elim (site.to_value y) [
    | ok v ↦ (some v, none)
    | err e ↦ (none, some (error e))
  ]

  -- The argument of `next`, and the error that its conversion raises.
  unfoldable pub next_argument : Option ℕ → Option N × Option Thrown
  next_argument none = (none, none)
  next_argument (some arg) = elim (site.to_next arg) [
    | ok n ↦ (some n, none)
    | err e ↦ (none, some (error e))
  ]

  -- The first exception stays pending.
  abbrev first_thrown : Option Thrown → Option Thrown → Option Thrown
  first_thrown (some t) _ = some t
  first_thrown none u = u

  -- `generator_next`. The property is read, and is not written.
  unfoldable pub generator_next : Option ℕ → Instance G → Outcome × Instance G
  unfolding next_argument set_generator_value
  generator_next arg i =
      if i.completed
      then (record { pending = none; result = some (record { value = none; done = true }) }, i)
      else (let (n, thrown) = next_argument arg in
          let (item, after) = g.next n i.generator in
          elim item [
            | some y ↦ (
              record {
                pending = first_thrown thrown (set_generator_value y).1;
                result = some (record { value = (set_generator_value y).0; done = false });
              },
              record i { generator = after },
            )
            | none ↦ (
              record { pending = thrown; result = some (record { value = none; done = true }) },
              record i { generator = after },
            )
          ])

  -- `generator_return`.
  unfoldable pub generator_return : Option ℕ → Instance G → Outcome × Instance G
  generator_return none i = (
    record { pending = none; result = some (record { value = none; done = true }) },
    record { completed = true; generator = (g.complete none i.generator).1 },
  )
  generator_return (some arg) i = elim (site.to_return arg) [
    | err e ↦ (record { pending = some (error e); result = none }, i)
    | ok r ↦ (
      record { pending = none; result = some (record { value = some arg; done = true }) },
      record { completed = true; generator = (g.complete (some r) i.generator).1 },
    )
  ]

  -- `generator_throw`.
  unfoldable pub generator_throw : Option ℕ → Instance G → Outcome × Instance G
  unfolding set_generator_value
  generator_throw arg i =
      let (caught_by, after) =
        g.catch (elim arg [ some v ↦ v | none ↦ site.undefined ]) i.generator in
      elim caught_by [
        | rethrown v ↦ (
          record { pending = some (exception v); result = none },
          record { completed = true; generator = after },
        )
        | caught (some y) ↦ (
          record {
            pending = (set_generator_value y).1;
            result = some (record { value = (set_generator_value y).0; done = false });
          },
          record { completed = false; generator = after },
        )
        | caught none ↦ (
          record { pending = none; result = some (record { value = none; done = true }) },
          record { completed = true; generator = after },
        )
      ]
