-- ===== src/Typegen/Tests.antt =====
-- Runs of the rendering of types, and its theorems at concrete inputs.
use ohos_rs.Common.{
  ◌==◌, if◌then◌else◌, Bool, true, false, none, some, List, [], ◌∷◌, ◌≡◌, refl, arith,
}
use ohos_rs.Common.Text.{Text, codes, text_eq, lookup_text}
use ohos_rs.Typegen.Escape.{escape_json}
use ohos_rs.Typegen.Escape.RoundTrip.{read_all, encode_all, plain, read_all-escape_json}
use ohos_rs.Common.Lines.{trim, trim_start}
use ohos_rs.Typegen.JsDoc.{cleanup_lines, display_doc}
use ohos_rs.Typegen.JsDoc.Closing.{ClosesAtEnd, display_doc-ClosesAtEnd}
use ohos_rs.Typegen.Template.{fill_ty}
use ohos_rs.Typegen.Template.Weave.{holes, weave, fill_ty-weave}
use ohos_rs.Typegen.Known.{known_type, is_ts_union_type}
use ohos_rs.Typegen.Handlers.{Registry, Rendered, handle_known_type}
use ohos_rs.Typegen.ArgList.{FnArg, from_iter, display}
use ohos_rs.Typegen.Types.{
  Ty, Arguments, path, tuple, angle, end, type_arg, nil, cons, cons_some, finish_path, dispatch,
  first_arg, wrap_arg, is_return_arg, render_tuple, ty_to_ts_type,
}
use ohos_rs.Typegen.Types.NoPanic.{AliasesSplit}
use ohos_rs.Typegen.Types.Total.{IsSafe, ty_to_ts_type_total}

abbrev reg : Registry
reg = record { aliases = []; classes = []; tasks = [] }

abbrev either3 : Ty
either3 = path (codes "Either3") (
    angle (
      type_arg (path (codes "f64") Arguments.plain) (
        type_arg (path (codes "String") Arguments.plain)
          (type_arg (path (codes "u32") Arguments.plain) end))))

-- Two numbers and a string make `any`.
either3_any : ty_to_ts_type either3 reg false false false ≡ some (codes "any", false)
unfolding ty_to_ts_type cons_some finish_path dispatch wrap_arg known_type handle_known_type
    is_ts_union_type text_eq
either3_any = refl

-- `Function<FnArgs<(f64, String)>, bool>`.
abbrev function : Ty
function = path (codes "Function") (
    angle (
      type_arg
        (path (codes "FnArgs") (
          angle (
            type_arg
              (tuple (
                cons (path (codes "f64") Arguments.plain)
                  (cons (path (codes "String") Arguments.plain) nil)))
              end)))
        (type_arg (path (codes "bool") Arguments.plain) end)))

function_spread :
    ty_to_ts_type function reg false false false
    ≡ some (codes "(arg0: number, arg1: string) => boolean", false)
unfolding ty_to_ts_type cons_some finish_path dispatch first_arg wrap_arg is_return_arg render_tuple
    display from_iter known_type handle_known_type is_ts_union_type text_eq
function_spread = refl

read_all-escape_json_example :
    read_all plain (escape_json (codes "a \"q\" \\\t")) ≡ some (encode_all (codes "a \"q\" \\\t"))
read_all-escape_json_example = read_all-escape_json (codes "a \"q\" \\\t") (
  omega arith,
  (
    omega arith,
    (omega arith, (omega arith, (omega arith, (omega arith, (omega arith, (omega arith, tt)))))),
  ),
)

fill_ty-weave_example : fill_ty (codes "{} | {}") (codes "A" ∷ codes "B" ∷ []) ≡ (
    if 2 == holes (codes "{} | {}")
    then weave (codes "{} | {}") (codes "A" ∷ codes "B" ∷ [])
    else codes "any")
fill_ty-weave_example = fill_ty-weave (codes "{} | {}") (codes "A" ∷ codes "B" ∷ [])

abbrev numbers : List Rendered
numbers = (codes "number", false) ∷ (codes "string", false) ∷ (codes "number", false) ∷ []

abbrev fn_arg : Text → Bool → FnArg
fn_arg name o = record { arg = name; ts_type = codes "number"; is_optional = o }

abbrev fn_args : List FnArg
fn_args = fn_arg (codes "a") false ∷ fn_arg (codes "b") true ∷ fn_arg (codes "c") true ∷ []

no_aliases : AliasesSplit reg
unfolding lookup_text
no_aliases name alias e = absurd (cc)

ty_to_ts_type_total_example :
    (x : Rendered) × (ty_to_ts_type function reg false false false ≡ some x)
unfolding IsSafe text_eq
ty_to_ts_type_total_example =
    ty_to_ts_type_total function reg false false false no_aliases
      (λ e. refl, ((λ e. refl, (((λ e. e, tt), ((λ e. e, tt), tt)), tt)), ((λ e. e, tt), tt)))

abbrev comment : List (List Text)
comment = (codes "ends */ here" ∷ []) ∷ []

comment_text : display_doc comment ≡ codes "/** ends *\\/ here */\n"
unfolding display_doc
comment_text = refl

-- The code counts an indentation in bytes: a line indented by one space and one indented by an
-- ideographic space make it cut through that character.
indentation_panics : cleanup_lines (codes " a" ∷ (0x3000 ∷ codes "b") ∷ []) ≡ none
unfolding cleanup_lines trim trim_start
indentation_panics = refl

display_doc-ClosesAtEnd_example : ClosesAtEnd (display_doc ((codes "ends */ here" ∷ []) ∷ []))
display_doc-ClosesAtEnd_example = display_doc-ClosesAtEnd (codes "ends */ here" ∷ []) []
