-- ===== src/Typegen/ArgList.antt =====
-- `FnArgList` of crates/backend/src/typegen/fn.rs: the parameters of a TypeScript function.
use ohos_rs.Common.{
  ℕ, zero, suc, ◌+◌, ◌<◌, ◌≤◌, ltb, if◌then◌else◌, Bool, true, false, not, ◌&&◌, Option, none, some,
  List, [], ◌∷◌, ◌++◌, get_elem?, ◌≡◌, refl, arith, Bool-cases, inl, inr,
}
use ohos_rs.Common.Text.{Text, codes, text_eq}

pub record FnArg : Type 0 where
  pub arg : Text
  pub ts_type : Text
  pub is_optional : Bool

pub record FnArgList : Type 0 where
  pub this : Option FnArg
  pub args : List FnArg
  pub last_required : Option ℕ
  pub is_setter : Bool

-- The loop of `from_iter` sorts out the last argument that is named `this`.
split_this : List FnArg → Option FnArg → List FnArg → Option FnArg × List FnArg
unfolding text_eq
split_this [] this args = (this, args)
split_this (a ∷ rest) this args =
    split_this rest (if text_eq a.arg (codes "this") then some a else this)
      (if text_eq a.arg (codes "this") then args else args ++ a ∷ [])

-- The last index, from `i` on, of an argument that is not optional; `found` is the one before.
pub last_required_from : ℕ → Option ℕ → List FnArg → Option ℕ
last_required_from i found [] = found
last_required_from i found (a ∷ rest) =
    last_required_from (i + 1) (if a.is_optional then found else some i) rest

unfoldable pub from_iter : List FnArg → FnArgList
unfolding split_this last_required_from
from_iter list =
    let (this, args) = split_this list none [] in
    record {
      this = this;
      args = args;
      last_required = last_required_from 0 none args;
      is_setter = false;
    }

unfoldable pub with_setter_context : FnArgList → Bool → FnArgList
with_setter_context l is_setter = record l { is_setter = is_setter }

after_last : Option ℕ → ℕ → Bool
after_last none i = true
after_last (some last_required) i = ltb last_required i

-- Whether the argument with index `i` is written with a question mark.
unfoldable pub is_marked : FnArgList → ℕ → FnArg → Bool
unfolding after_last
is_marked l i a = not l.is_setter && (a.is_optional && after_last l.last_required i)

display_arg : Bool → FnArg → Text
display_arg marked a = a.arg ++ ((if marked then codes "?: " else codes ": ") ++ a.ts_type)

display_from : FnArgList → ℕ → Bool → List FnArg → Text
unfolding is_marked display_arg
display_from l i first [] = []
display_from l i first (a ∷ rest) =
    (if first then [] else codes ", ")
    ++ (display_arg (is_marked l i a) a ++ display_from l (i + 1) false rest)

unfoldable pub display : FnArgList → Text
unfolding display_from
display l = elim l.this [
  | some this ↦ codes "this: " ++ (this.ts_type ++ display_from l 0 false l.args)
  | none ↦ display_from l 0 true l.args
]

last_required_grows :
    (i m : ℕ) (args : List FnArg)
    → m ≤ i
    → (k : ℕ) × (last_required_from i (some m) args ≡ some k) × (m ≤ k)
unfolding last_required_from
last_required_grows i m [] h = (m, refl, omega arith)
last_required_grows i m (a ∷ rest) h = elim (Bool-cases a.is_optional) [
  | inl o ↦
      let (k, e, b) = last_required_grows (i + 1) m rest (omega arith) in
      (k, rw (o, last_required_from) e, b)
  | inr r ↦
      let (k, e, b) = last_required_grows (i + 1) i rest (omega arith) in
      (k, rw (r, last_required_from) e, omega arith)
]

last_required_bound :
    (i : ℕ) (found : Option ℕ) (args : List FnArg) (j : ℕ) (a : FnArg)
    → get_elem? args j ≡ some a
    → a.is_optional ≡ false
    → (k : ℕ) × (last_required_from i found args ≡ some k) × (i + j ≤ k)
unfolding last_required_from
last_required_bound i found [] j a e r = cc
last_required_bound i found (b ∷ rest) zero a e r =
    let (k, g, h) = last_required_grows (i + 1) i rest (omega arith) in
    (k, ground arith, omega arith)
last_required_bound i found (b ∷ rest) (suc j) a e r =
    let (k, g, h) =
      last_required_bound (i + 1) (if b.is_optional then found else some i) rest j a e r in
    (k, g, omega arith)

-- In the list of a function that is no setter, whatever stands behind a parameter that is written with
-- a question mark is optional and is written with one too, as TypeScript demands.
pub marked_suffix :
    (list : List FnArg) (i j : ℕ) (a b : FnArg)
    → get_elem? (from_iter list).args j ≡ some b
    → i < j
    → is_marked (from_iter list) i a ≡ true
    → (b.is_optional ≡ true) × (is_marked (from_iter list) j b ≡ true)
unfolding from_iter is_marked
marked_suffix list i j a b eb lt m = elim (Bool-cases b.is_optional) [
  | inl o ↦ (o, ground arith)
  | inr r ↦
      let (k, e, h) = last_required_bound 0 none (from_iter list).args j b eb r in
      absurd (ground arith)
]
