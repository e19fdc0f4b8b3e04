-- ===== src/Typegen/Types/Total.antt =====
-- When the rendering of a type panics, and that it does not otherwise.
use mathlib.Core.Option
use ohos_rs.Typegen.Types.NoPanic.{wants_args, AliasesSplit, dispatch_no_panic, finish_some}
use ohos_rs.Common.{
  ℕ, ◌+◌, Bool, true, false, Option, none, some, List, [], ◌∷◌, ◌≡◌, ◌≢◌, refl, ap,
}
use ohos_rs.Common.Text.{Text, codes, text_eq}
use ohos_rs.Typegen.Handlers.{Rendered, Handled, unhandled, panic, Registry}
use ohos_rs.Typegen.Types.{
  Ty, Tys, Arguments, Generics, reference, tuple, path, qualified, nowhere, group, array, paren,
  slice, other, nil, cons, plain, angle, end, type_arg, const_bool, lifetime, other_arg, dispatch,
  wrap_arg, is_return_arg, finish_path, cons_some, ty_to_ts_type, elems_to_ts_types,
  process_generic_arguments, process_from,
}

abbrev pub has_args : Generics → Bool
has_args end = false
has_args (type_arg _ _) = true
has_args (const_bool _ _) = true
has_args (lifetime gs) = has_args gs
has_args (other_arg gs) = has_args gs

abbrev pub given_args : Arguments → Bool
given_args plain = false
given_args (angle gs) = has_args gs

-- Every path whose name wants arguments has a type or a boolean among its own.
unfoldable mutual
  pub IsSafe : Ty → Type 0
  IsSafe (reference t) = IsSafe t
  IsSafe (tuple ts) = AllSafe ts
  IsSafe (path name args) = (wants_args name ≡ true → given_args args ≡ true) × ArgsSafe args
  IsSafe (qualified _ _) = Unit
  IsSafe nowhere = Unit
  IsSafe (group t) = IsSafe t
  IsSafe (array t) = IsSafe t
  IsSafe (paren t) = IsSafe t
  IsSafe (slice _) = Unit
  IsSafe other = Unit

  pub AllSafe : Tys → Type 0
  AllSafe nil = Unit
  AllSafe (cons t ts) = IsSafe t × AllSafe ts

  pub ArgsSafe : Arguments → Type 0
  ArgsSafe plain = Unit
  ArgsSafe (angle gs) = GenericsSafe gs

  pub GenericsSafe : Generics → Type 0
  GenericsSafe end = Unit
  GenericsSafe (type_arg t gs) = IsSafe t × GenericsSafe gs
  GenericsSafe (const_bool _ gs) = GenericsSafe gs
  GenericsSafe (lifetime gs) = GenericsSafe gs
  GenericsSafe (other_arg gs) = GenericsSafe gs

map-some {ℓ κ} :
    {A : Type ℓ} {B : Type κ} (f : A → B) (o : Option A) {a : A}
    → o ≡ some a
    → Option.map f o ≡ some (f a)
map-some f o e = ap (Option.map f) e

cons_both :
    (o : Option Rendered) (os : Option (List Rendered)) {r : Rendered} {rs : List Rendered}
    → o ≡ some r
    → os ≡ some rs
    → cons_some o os ≡ some (r ∷ rs)
unfolding cons_some
cons_both (some r) (some rs) e f = cc
cons_both none os e f = cc
cons_both (some r) none e f = cc

finish_cases :
    (o : Option (List Rendered)) (d : List Rendered → Handled) (c : Bool)
    → (w : (rs : List Rendered) × (o ≡ some rs) × (d rs ≢ panic))
    → (x : Rendered) × (elim o [ none ↦ none | some rs ↦ finish_path (d rs) c ] ≡ some x)
finish_cases none d c (rs, e, n) = cc
finish_cases (some ts) d c (rs, e, n) = finish_some (d ts) c (λ p. n (cc))

mutual
  unfolding ty_to_ts_type IsSafe

  ty_total :
      (t : Ty) (reg : Registry) (r f c : Bool)
      → AliasesSplit reg
      → IsSafe t
      → (x : Rendered) × (ty_to_ts_type t reg r f c ≡ some x)
  ty_total (reference t) reg r f c al s = ty_total t reg r f false al s
  ty_total (tuple ts) reg r f c al s =
      let (rs, e) = elems_total ts reg al s in (_, map-some _ (elems_to_ts_types ts reg) e)
  ty_total (path n args) reg r f c al s =
      let (rs, e, k) = args_total args reg n al s.1 in
      finish_cases (process_generic_arguments args reg n) (λ rs. dispatch reg n rs r f) _
        (rs, e, dispatch_no_panic reg n rs r f al (λ w. k (s.0 w)))
  ty_total (qualified n args) reg r f c al s = (_, refl)
  ty_total nowhere reg r f c al s = finish_some unhandled _ (λ e. cc)
  ty_total (group t) reg r f c al s = ty_total t reg r f false al s
  ty_total (array t) reg r f c al s =
      let (x, e) = ty_total t reg r f false al s in
      (_, map-some _ (ty_to_ts_type t reg r f false) e)
  ty_total (paren t) reg r f c al s = ty_total t reg r f false al s
  ty_total (slice t) reg r f c al s = (_, refl)
  ty_total other reg r f c al s = (_, refl)

  elems_total :
      (ts : Tys) (reg : Registry)
      → AliasesSplit reg
      → AllSafe ts
      → (rs : List Rendered) × (elems_to_ts_types ts reg ≡ some rs)
  elems_total nil reg al s = ([], refl)
  elems_total (cons t ts) reg al s =
      let (x, e) = ty_total t reg false false false al s.0 in
      let (xs, es) = elems_total ts reg al s.1 in
      (x ∷ xs, cons_both (ty_to_ts_type t reg false false false) (elems_to_ts_types ts reg) e es)

  args_total :
      (args : Arguments) (reg : Registry) (n : Text)
      → AliasesSplit reg
      → ArgsSafe args
      → (rs : List Rendered) × (process_generic_arguments args reg n ≡ some rs)
        × (given_args args ≡ true → rs ≢ [])
  args_total plain reg n al s = ([], refl, λ e. cc)
  args_total (angle gs) reg n al s = generics_total gs reg n 0 false al s

  generics_total :
      (gs : Generics) (reg : Registry) (n : Text) (i : ℕ) (seen : Bool)
      → AliasesSplit reg
      → GenericsSafe gs
      → (rs : List Rendered) × (process_from gs reg n i seen ≡ some rs)
        × (has_args gs ≡ true → rs ≢ [])
  generics_total end reg n i seen al s = ([], refl, λ e. cc)
  generics_total (type_arg t gs) reg n i seen al s =
      let (x, e) =
        ty_total t reg (is_return_arg n i seen) false (text_eq n (codes "FnArgs")) al s.0 in
      let (rs, es, _) = generics_total gs reg n (i + 1) seen al s.1 in
      (
        _,
        cons_both
            (Option.map (wrap_arg n t (is_return_arg n i seen))
              (ty_to_ts_type t reg (is_return_arg n i seen) false (text_eq n (codes "FnArgs"))))
            (process_from gs reg n (i + 1) seen)
            (map-some (wrap_arg n t (is_return_arg n i seen)) _ e) es,
        λ _ p. cc,
      )
  generics_total (const_bool b gs) reg n i seen al s =
      let (rs, e, _) = generics_total gs reg n (i + 1) seen al s in
      (_ ∷ rs, cons_both (some _) (process_from gs reg n (i + 1) seen) refl e, λ _ p. cc)
  generics_total (lifetime gs) reg n i seen al s = generics_total gs reg n (i + 1) _ al s
  generics_total (other_arg gs) reg n i seen al s = generics_total gs reg n (i + 1) seen al s

-- A type renders without a panic when every alias has a `<` and every path to `Result`, `FnArgs` or
-- `ThreadsafeFunction` in it has a type or a boolean among its generic arguments.
pub ty_to_ts_type_total :
    (t : Ty) (reg : Registry) (is_return_ty is_struct_field convert : Bool)
    → AliasesSplit reg
    → IsSafe t
    → (x : Rendered) × (ty_to_ts_type t reg is_return_ty is_struct_field convert ≡ some x)
ty_to_ts_type_total t reg r f c al s = ty_total t reg r f c al s
