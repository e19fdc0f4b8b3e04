-- ===== src/Typegen/Handlers.antt =====
-- The `handle_*` functions of crates/backend/src/typegen.rs. A rendered type is its text and whether it
-- is optional.
pub mod Union
use ohos_rs.Common.{
  ℕ, zero, suc, ◌+◌, ◌==◌, if◌then◌else◌, Bool, true, false, not, ◌&&◌, ◌||◌, Option, none, some,
  List, [], ◌∷◌, ◌++◌, length, get_elem?, map,
}
use ohos_rs.Common.Text.{
  Text, codes, text_eq, starts_with, contains, join, split_before, mem_text, lookup_text,
}
use ohos_rs.Typegen.Known.{Entry, ignored_args}
use ohos_rs.Typegen.Template.{fill_ty}

abbrev pub Rendered : Type 0
Rendered = Text × Bool

-- `panic` is a failed `unwrap`; `unhandled` is the `None` that the caller turns into `any`.
pub data Handled : Type 0 where
  handled : Rendered → Handled
  unhandled panic : Handled

-- The thread-local tables: aliases, the exported names of classes, the output types of tasks.
pub record Registry : Type 0 where
  pub aliases : List (Text × Text)
  pub classes : List (Text × Text)
  pub tasks : List (Text × Text)

-- `Option<T>`.
unfoldable pub handle_option_type : List Rendered → Bool → Bool → Handled
unfolding contains starts_with
handle_option_type [] is_struct_field is_return_ty = unhandled
handle_option_type ((arg, _) ∷ _) is_struct_field is_return_ty =
    if is_struct_field
    then handled (arg, true)
    else let arg' = (if contains (codes "=>") arg then codes "(" ++ (arg ++ codes ")") else arg) in
      handled
        (arg' ++ (if is_return_ty then codes " | null" else codes " | undefined | null"), true)

-- `AsyncTask<T>`.
unfoldable pub handle_async_task_type : Registry → List Rendered → Handled
unfolding lookup_text
handle_async_task_type reg [] = unhandled
handle_async_task_type reg ((output_type, _) ∷ _) = elim (lookup_text output_type reg.tasks) [
  | some o ↦ handled (codes "Promise<" ++ (o ++ codes ">"), false)
  | none ↦ handled (codes "Promise<unknown>", false)
]

-- `Reference<T>` and `WeakReference<T>`.
unfoldable pub handle_reference_type : Registry → List Rendered → Text → Handled
unfolding lookup_text
handle_reference_type reg [] rust_ty = handled (rust_ty, false)
handle_reference_type reg ((output_type, _) ∷ _) rust_ty =
    elim (lookup_text output_type reg.tasks) [
      | some o ↦ handled (o, false)
      | none ↦ handled (output_type, false)
    ]

-- `AsyncBlock<T>`.
unfoldable pub handle_async_block_type : List Rendered → Text → Handled
handle_async_block_type [] rust_ty = handled (rust_ty, false)
handle_async_block_type (arg ∷ _) rust_ty =
    handled (codes "Promise<" ++ (arg.0 ++ codes ">"), false)

-- `args.get(2).or_else(|| args.first())`.
third_or_first : List Rendered → Option Rendered
third_or_first args = elim (get_elem? args 2) [ some a ↦ some a | none ↦ get_elem? args 0 ]

abbrev is_empty : Text → Bool
is_empty [] = true
is_empty (_ ∷ _) = false

named_arg : Text → Text
unfolding contains starts_with
named_arg arg = if contains (codes ":") arg || is_empty arg then arg else codes "arg: " ++ arg

-- `ThreadsafeFunction<..>`.
unfoldable pub handle_threadsafe_function_type : List Rendered → Handled
unfolding third_or_first named_arg text_eq
handle_threadsafe_function_type args =
    let handled_tsfn : Bool = elim (get_elem? args 4) [
      | some a ↦ text_eq a.0 (codes "true")
      | none ↦ true
    ] in
    let return_ty : Text = elim (get_elem? args 1) [ some a ↦ a.0 | none ↦ codes "any" ] in
    elim (third_or_first args) [
      | none ↦ panic
      | some a ↦
          if handled_tsfn
          then handled (
            codes "((err: Error | null, "
                ++ (named_arg a.0 ++ (codes ") => " ++ (return_ty ++ codes ")"))),
            false,
          )
          else handled
              (codes "((" ++ (named_arg a.0 ++ (codes ") => " ++ (return_ty ++ codes ")"))), false)
    ]

-- The fold that keeps the first of equal arguments.
unfoldable pub push_new : List Text → List Text → List Text
unfolding mem_text
push_new acc [] = acc
push_new acc (t ∷ ts) = push_new (if mem_text t acc then acc else acc ++ t ∷ []) ts

mem_ℕ : ℕ → List ℕ → Bool
mem_ℕ n [] = false
mem_ℕ n (k ∷ ks) = k == n || mem_ℕ n ks

drop_indices : List ℕ → ℕ → List Text → List Text
unfolding mem_ℕ
drop_indices ks i [] = []
drop_indices ks i (t ∷ ts) =
    let rest = drop_indices ks (i + 1) ts in if mem_ℕ i ks then rest else t ∷ rest

-- `EitherN` whose arguments are all the same TypeScript type is that type.
unfoldable pub union_of : Text → List Text → Rendered
unfolding fill_ty
union_of known_ty (t ∷ []) = (t, false)
union_of known_ty [] = (fill_ty known_ty [], false)
union_of known_ty (t ∷ u ∷ ts) = (fill_ty known_ty (t ∷ u ∷ ts), false)

filtered_args : Text → List Text → List Text
unfolding ignored_args drop_indices starts_with
filtered_args rust_ty args =
    let kept : List Text = elim (ignored_args rust_ty) [
      | some ks ↦ drop_indices ks 0 args
      | none ↦ args
    ] in
    if starts_with (codes "Function") rust_ty && length kept == 0
    then codes "arg?: unknown" ∷ codes "unknown" ∷ []
    else kept

-- A type of `KNOWN_TYPES`.
unfoldable pub handle_known_type : Text → Text → List Rendered → Bool → Handled
unfolding text_eq contains starts_with push_new union_of filtered_args fill_ty
handle_known_type rust_ty known_ty args is_return_ty =
    if text_eq rust_ty (codes "()") && is_return_ty
    then handled (codes "void", false)
    else if not (contains (codes "{}") known_ty)
    then handled (known_ty, false)
    else if starts_with (codes "Either") rust_ty
    then handled (union_of known_ty (push_new [] (map (λ a. a.0) args)))
    else handled (fill_ty known_ty (filtered_args rust_ty (map (λ a. a.0) args)), false)

-- Any other type, through its alias; an alias with no `<` panics where there are arguments.
unfoldable pub handle_generic_type : Registry → Text → List Rendered → Handled
unfolding lookup_text split_before join
handle_generic_type reg rust_ty [] = elim (lookup_text rust_ty reg.aliases) [
  | some alias ↦ handled (alias, false)
  | none ↦ handled (rust_ty, false)
]
handle_generic_type reg rust_ty (a ∷ args) =
    let tail = codes "<" ++ (join (codes ", ") (map (λ a. a.0) (a ∷ args)) ++ codes ">") in
    elim (lookup_text rust_ty reg.aliases) [
      | none ↦ handled (rust_ty ++ tail, false)
      | some alias ↦ elim (split_before b'<' alias) [
        | none ↦ panic
        | some ty ↦ handled (ty ++ tail, false)
      ]
    ]
