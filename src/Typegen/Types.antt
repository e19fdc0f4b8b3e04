-- ===== src/Typegen/Types.antt =====
-- `ty_to_ts_type`, `handle_type_path` and `process_generic_arguments` of crates/backend/src/typegen.rs,
-- on the parts of a Rust type that they read. `none` is a panic.
pub mod Total
pub mod NoPanic
use mathlib.Core.Option
use ohos_rs.Common.{
  ℕ, zero, suc, ◌+◌, ◌==◌, if◌then◌else◌, Bool, true, false, not, ◌&&◌, ◌||◌, Option, none, some,
  List, [], ◌∷◌, ◌++◌, map,
}
use ohos_rs.Common.Text.{Text, codes, text_eq, join, decimal, lookup_text}
use ohos_rs.Typegen.Known.{Entry, known_type, is_ts_union_type, is_known_fn, typedarray_slice}
use ohos_rs.Typegen.Handlers.{
  Rendered, Handled, handled, unhandled, panic, Registry, handle_option_type,
  handle_async_task_type, handle_reference_type, handle_async_block_type,
  handle_threadsafe_function_type, handle_known_type, handle_generic_type,
}
use ohos_rs.Typegen.ArgList.{FnArg, from_iter, display}

-- Of a path only the last segment is read: its name and its generic arguments. `plain` stands for no
-- arguments and for parenthesised ones; `qualified` is a path with a `qself`, `nowhere` one without
-- segments, and `other` each kind of type that is not listed.
mutual
  pub data Ty : Type 0 where
    reference : Ty → Ty
    tuple : Tys → Ty
    path : Text → Arguments → Ty
    qualified : Text → Arguments → Ty
    nowhere : Ty
    group : Ty → Ty
    array : Ty → Ty
    paren : Ty → Ty
    slice : Ty → Ty
    other : Ty

  pub data Tys : Type 0 where
    nil : Tys
    cons : Ty → Tys → Tys

  pub data Arguments : Type 0 where
    plain : Arguments
    angle : Generics → Arguments

  -- A type, a boolean literal, a lifetime, or another generic argument, and those behind it.
  pub data Generics : Type 0 where
    end : Generics
    type_arg : Ty → Generics → Generics
    const_bool : Bool → Generics → Generics
    lifetime : Generics → Generics
    other_arg : Generics → Generics

unfoldable pub is_generic_function_type : Text → Bool
unfolding text_eq
is_generic_function_type t =
    text_eq t (codes "ThreadsafeFunction")
    || text_eq t (codes "Function")
    || text_eq t (codes "FnArgs")
    || text_eq t (codes "FunctionRef")

unfoldable pub is_ts_function_type_notation : Ty → Bool
unfolding is_known_fn
is_ts_function_type_notation (path name _) = is_known_fn name
is_ts_function_type_notation _ = false

pub is_fn_args_path : Ty → Bool
unfolding text_eq
is_fn_args_path (path name _) = text_eq name (codes "FnArgs")
is_fn_args_path _ = false

abbrev is_empty : Text → Bool
is_empty [] = true
is_empty (_ ∷ _) = false

pub wrap_fn_like_arg : Text → Ty → Bool → Text
unfolding is_fn_args_path
wrap_fn_like_arg ty (tuple nil) is_return_type = if is_return_type then codes "void" else []
wrap_fn_like_arg ty (tuple (cons _ _)) is_return_type =
    if is_return_type then ty else codes "arg: " ++ ty
wrap_fn_like_arg ty generic_ty is_return_type =
    if is_return_type || is_empty ty || is_fn_args_path generic_ty then ty else codes "arg: " ++ ty

-- `Some(args.first().unwrap().to_owned())`.
unfoldable pub first_arg : List Rendered → Handled
first_arg [] = panic
first_arg (a ∷ _) = handled a

-- The ladder of `handle_type_path` on the last segment's name and rendered arguments.
unfoldable pub dispatch : Registry → Text → List Rendered → Bool → Bool → Handled
dispatch reg rust_ty args is_return_ty is_struct_field =
    if text_eq rust_ty (codes "Result") && is_return_ty
    then first_arg args
    else if text_eq rust_ty (codes "Option")
    then handle_option_type args is_struct_field is_return_ty
    else if text_eq rust_ty (codes "AsyncTask")
    then handle_async_task_type reg args
    else if text_eq rust_ty (codes "Reference") || text_eq rust_ty (codes "WeakReference")
    then handle_reference_type reg args rust_ty
    else if text_eq rust_ty (codes "AsyncBlock")
    then handle_async_block_type args rust_ty
    else if text_eq rust_ty (codes "FnArgs")
    then first_arg args
    else elim (known_type rust_ty) [
      | some e ↦ handle_known_type rust_ty e.template args is_return_ty
      | none ↦ elim (lookup_text rust_ty reg.classes) [
        | some t ↦ handled (t, false)
        | none ↦
            if text_eq rust_ty (codes "ThreadsafeFunction")
            then handle_threadsafe_function_type args
            else handle_generic_type reg rust_ty args
      ]
    ]

-- `is_passthrough_type` is set in the branch of `FnArgs`, which no earlier branch takes.
unfoldable pub is_passthrough : Text → Bool
unfolding text_eq
is_passthrough rust_ty = text_eq rust_ty (codes "FnArgs")

unfoldable pub finish_path : Handled → Bool → Option Rendered
finish_path panic as_arg = none
finish_path unhandled as_arg = some (if as_arg then codes "arg: any" else codes "any", false)
finish_path (handled (ty, is_optional)) as_arg =
    some (if as_arg then codes "arg: " ++ ty else ty, is_optional)

-- The parameters `arg0`, `arg1`, .. of a tuple that is spread.
pub variadic_args : ℕ → List Rendered → List FnArg
unfolding decimal
variadic_args i [] = []
variadic_args i ((t, o) ∷ rest) =
    record { arg = codes "arg" ++ decimal i; ts_type = t; is_optional = o }
    ∷ variadic_args (i + 1) rest

unfoldable pub render_tuple : Bool → Bool → List Rendered → Rendered
unfolding variadic_args
render_tuple convert is_return_ty [] =
    (if convert then (if is_return_ty then codes "void" else []) else codes "undefined", false)
render_tuple convert is_return_ty (e ∷ es) =
    if convert
    then (display (from_iter (variadic_args 0 (e ∷ es))), false)
    else (codes "[" ++ (join (codes ", ") (map (λ r. r.0) (e ∷ es)) ++ codes "]"), false)

pub render_slice : Ty → Rendered
unfolding typedarray_slice
render_slice (path name _) = (Option.get_or (typedarray_slice name) (codes "any[]"), false)
render_slice (qualified name _) = (Option.get_or (typedarray_slice name) (codes "any[]"), false)
render_slice _ = (codes "any[]", false)

-- What becomes of a rendered type argument of `rust_ty`.
unfoldable pub wrap_arg : Text → Ty → Bool → Rendered → Rendered
unfolding is_generic_function_type wrap_fn_like_arg is_ts_function_type_notation
wrap_arg rust_ty generic_ty is_return_type (ty, is_optional) =
    let ty' =
      (if is_generic_function_type rust_ty && not (text_eq rust_ty (codes "FnArgs"))
        then wrap_fn_like_arg ty generic_ty is_return_type
        else ty) in
    (
      if is_ts_union_type rust_ty && is_ts_function_type_notation generic_ty
          then codes "(" ++ (ty' ++ codes ")")
          else ty',
      is_optional,
    )

-- `is_return_type` of the argument at `index`.
unfoldable pub is_return_arg : Text → ℕ → Bool → Bool
unfolding is_generic_function_type
is_return_arg rust_ty index is_function_with_lifetime =
    if is_function_with_lifetime
    then not (index == 1)
    else index == 1 && is_generic_function_type rust_ty

unfoldable pub cons_some : Option Rendered → Option (List Rendered) → Option (List Rendered)
cons_some none rest = none
cons_some (some r) none = none
cons_some (some r) (some rs) = some (r ∷ rs)

unfoldable mutual
  pub ty_to_ts_type : Ty → Registry → Bool → Bool → Bool → Option Rendered
  ty_to_ts_type (reference t) reg is_return_ty is_struct_field convert =
      ty_to_ts_type t reg is_return_ty is_struct_field false
  ty_to_ts_type (tuple ts) reg is_return_ty is_struct_field convert =
      Option.map (render_tuple convert is_return_ty) (elems_to_ts_types ts reg)
  ty_to_ts_type (path name args) reg is_return_ty is_struct_field convert =
      elim (process_generic_arguments args reg name) [
        | none ↦ none
        | some rs ↦
            finish_path (dispatch reg name rs is_return_ty is_struct_field)
              (convert && (not is_return_ty && not (is_passthrough name)))
      ]
  ty_to_ts_type (qualified name args) reg is_return_ty is_struct_field convert =
      some (codes "any", false)
  ty_to_ts_type nowhere reg is_return_ty is_struct_field convert =
      finish_path unhandled (convert && not is_return_ty)
  ty_to_ts_type (group t) reg is_return_ty is_struct_field convert =
      ty_to_ts_type t reg is_return_ty is_struct_field false
  ty_to_ts_type (array t) reg is_return_ty is_struct_field convert =
      Option.map (λ r. (r.0 ++ codes "[]", r.1))
        (ty_to_ts_type t reg is_return_ty is_struct_field false)
  ty_to_ts_type (paren t) reg is_return_ty is_struct_field convert =
      ty_to_ts_type t reg is_return_ty is_struct_field false
  ty_to_ts_type (slice t) reg is_return_ty is_struct_field convert = some (render_slice t)
  ty_to_ts_type other reg is_return_ty is_struct_field convert = some (codes "any", false)

  pub elems_to_ts_types : Tys → Registry → Option (List Rendered)
  elems_to_ts_types nil reg = some []
  elems_to_ts_types (cons t ts) reg =
      cons_some (ty_to_ts_type t reg false false false) (elems_to_ts_types ts reg)

  pub process_generic_arguments : Arguments → Registry → Text → Option (List Rendered)
  process_generic_arguments plain reg rust_ty = some []
  process_generic_arguments (angle gs) reg rust_ty = process_from gs reg rust_ty 0 false

  -- The `filter_map` from `index` on; a lifetime that stands first is remembered.
  pub process_from : Generics → Registry → Text → ℕ → Bool → Option (List Rendered)
  process_from end reg rust_ty index seen = some []
  process_from (type_arg t gs) reg rust_ty index seen =
      cons_some
        (Option.map (wrap_arg rust_ty t (is_return_arg rust_ty index seen)) (
          ty_to_ts_type t reg (is_return_arg rust_ty index seen) false
            (text_eq rust_ty (codes "FnArgs"))))
        (process_from gs reg rust_ty (index + 1) seen)
  process_from (const_bool b gs) reg rust_ty index seen =
      cons_some (some (if b then codes "true" else codes "false", false))
        (process_from gs reg rust_ty (index + 1) seen)
  process_from (lifetime gs) reg rust_ty index seen =
      process_from gs reg rust_ty (index + 1)
        (seen || (index == 0 && is_generic_function_type rust_ty))
  process_from (other_arg gs) reg rust_ty index seen = process_from gs reg rust_ty (index + 1) seen
