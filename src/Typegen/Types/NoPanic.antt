-- ===== src/Typegen/Types/NoPanic.antt =====
-- The ladder of `handle_type_path` in crates/backend/src/typegen.rs, and its `unwrap`s.
use ohos_rs.Common.{
  Bool, true, false, ◌||◌, none, some, List, [], ◌∷◌, ◌≡◌, ◌≢◌, refl, arith, inl, inr, Option-cases,
}
use ohos_rs.Common.Text.{Text, codes, text_eq, lookup_text, split_before}
use ohos_rs.Typegen.Known.{known_type}
use ohos_rs.Typegen.Handlers.{
  Rendered, Handled, handled, unhandled, panic, Registry, handle_option_type,
  handle_async_task_type, handle_reference_type, handle_async_block_type,
  handle_threadsafe_function_type, handle_known_type, handle_generic_type,
}
use ohos_rs.Typegen.Types.{dispatch, first_arg, finish_path}

-- The names whose first argument is unwrapped.
abbrev pub wants_args : Text → Bool
wants_args name =
    text_eq name (codes "Result")
    || text_eq name (codes "FnArgs")
    || text_eq name (codes "ThreadsafeFunction")

-- Every alias has a `<`, as `handle_generic_type` takes for granted.
abbrev pub AliasesSplit : Registry → Type 0
AliasesSplit reg =
    (name alias : Text) → lookup_text name reg.aliases ≡ some alias → split_before b'<' alias ≢ none

option_no_panic : (rs : List Rendered) (f r : Bool) → handle_option_type rs f r ≢ panic
unfolding handle_option_type
option_no_panic [] f r = ground arith
option_no_panic (a ∷ rs) true r = ground arith
option_no_panic (a ∷ rs) false r = ground arith

task_no_panic : (reg : Registry) (rs : List Rendered) → handle_async_task_type reg rs ≢ panic
unfolding handle_async_task_type
task_no_panic reg [] = ground arith
task_no_panic reg (a ∷ rs) = ground arith

reference_no_panic :
    (reg : Registry) (rs : List Rendered) (t : Text) → handle_reference_type reg rs t ≢ panic
unfolding handle_reference_type
reference_no_panic reg [] t = ground arith
reference_no_panic reg (a ∷ rs) t = ground arith

block_no_panic : (rs : List Rendered) (t : Text) → handle_async_block_type rs t ≢ panic
unfolding handle_async_block_type
block_no_panic [] t = ground arith
block_no_panic (a ∷ rs) t = ground arith

known_no_panic : (n t : Text) (rs : List Rendered) (r : Bool) → handle_known_type n t rs r ≢ panic
unfolding handle_known_type
known_no_panic n t rs r = ground arith

tsfn_no_panic : (rs : List Rendered) → rs ≢ [] → handle_threadsafe_function_type rs ≢ panic
unfolding handle_threadsafe_function_type
tsfn_no_panic [] h = absurd (h refl)
tsfn_no_panic (a ∷ []) h = ground arith
tsfn_no_panic (a ∷ b ∷ []) h = ground arith
tsfn_no_panic (a ∷ b ∷ c ∷ rs) h = ground arith

generic_no_panic :
    (reg : Registry) (n : Text) (rs : List Rendered)
    → AliasesSplit reg
    → handle_generic_type reg n rs ≢ panic
unfolding handle_generic_type
generic_no_panic reg n [] al = ground arith
generic_no_panic reg n (a ∷ rs) al = elim (Option-cases (lookup_text n reg.aliases)) [
  | inl unknown ↦ rw (unknown, handle_generic_type) (ground arith)
  | inr (alias, e) ↦ rw (e, handle_generic_type) (ground (arith, al n alias))
]

first_no_panic : (rs : List Rendered) → rs ≢ [] → first_arg rs ≢ panic
unfolding first_arg
first_no_panic [] h = absurd (h refl)
first_no_panic (a ∷ rs) h = ground arith

pub dispatch_no_panic :
    (reg : Registry) (n : Text) (rs : List Rendered) (r f : Bool)
    → AliasesSplit reg
    → (wants_args n ≡ true → rs ≢ [])
    → dispatch reg n rs r f ≢ panic
unfolding dispatch
dispatch_no_panic reg n rs r f al h = elim (Option-cases (known_type n)) [
  | inl unknown ↦ ground (
    arith,
    option_no_panic rs f r,
    task_no_panic reg rs,
    reference_no_panic reg rs n,
    block_no_panic rs n,
    first_no_panic rs,
    tsfn_no_panic rs,
    generic_no_panic reg n rs al,
  )
  | inr (e, found) ↦ ground (
    arith,
    option_no_panic rs f r,
    task_no_panic reg rs,
    reference_no_panic reg rs n,
    block_no_panic rs n,
    first_no_panic rs,
    known_no_panic n e.template rs r,
  )
]

pub finish_some : (h : Handled) (c : Bool) → h ≢ panic → (x : Rendered) × (finish_path h c ≡ some x)
unfolding finish_path
finish_some panic c n = absurd (n refl)
finish_some unhandled c n = (_, refl)
finish_some (handled r) c n = (_, refl)
