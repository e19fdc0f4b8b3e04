-- ===== src/Error/Chain/GivenBack.antt =====
-- Each reference that a chain holds is given back once by its conversion.
use mathlib.Core.List.{append-nil}
use mathlib.Core.Option
use ohos_rs.Common.{
  ℕ, suc, ◌==◌, if◌then◌else◌, true, false, Option, none, some, List, [], ◌∷◌, ◌++◌, ◌≡◌, refl, ap,
  ◌∙◌, arith, inl, inr, Bool-cases,
}
use ohos_rs.Error.{Error, Result, ok, err, check_status, is_ok}
use ohos_rs.Error.Chain.{
  Chain, single, caused, head, RefCall, get_value, increase, unref, delete, RefReplies, drop_error,
  drop_chain, drop_cause, Kind, js_error, JsValue, take_value, give_back, is_existing, begin_value,
  make_error, make_with_cause, to_value_with, into_value, to_napi_value,
}

-- The references that the chain holds, one for each link that has one.
unfoldable pub reference_of : Error → List ℕ
reference_of e = if e.maybe_raw == 0 then [] else e.maybe_raw ∷ []

unfoldable pub references : Chain → List ℕ
references (single e) = reference_of e
references (caused e c) = reference_of e ++ references c

-- The references of which one count was given back, in order.
unfoldable pub given_back : List RefCall → List ℕ
given_back [] = []
given_back (get_value _ ∷ cs) = given_back cs
given_back (increase _ ∷ cs) = given_back cs
given_back (unref r ∷ cs) = r ∷ given_back cs
given_back (delete _ ∷ cs) = given_back cs

-- The engine grants what is asked about the reference of one link.
pub record Grants (r : RefReplies) : Type 0 where
  pub value_ok : is_ok r.value.0 ≡ true
  pub unref_ok : is_ok r.unref_reply.0 ≡ true
  pub delete_ok : is_ok r.deleted ≡ true

given_back-append : (xs ys : List RefCall) → given_back (xs ++ ys) ≡ given_back xs ++ given_back ys
unfolding given_back
given_back-append [] ys = refl
given_back-append (get_value _ ∷ cs) ys = given_back-append cs ys
given_back-append (increase _ ∷ cs) ys = given_back-append cs ys
given_back-append (unref r ∷ cs) ys = ap (λ l. r ∷ l) (given_back-append cs ys)
given_back-append (delete _ ∷ cs) ys = given_back-append cs ys

drop_error-once : (e : Error) (r : _) → given_back (drop_error e r) ≡ reference_of e
unfolding given_back drop_error reference_of
drop_error-once e r = ground arith

begin_value-once : (e : Error) (r : RefReplies) → given_back (begin_value e r) ≡ reference_of e
unfolding given_back begin_value give_back reference_of
begin_value-once e r = ground arith

take_value-once :
    (e : Error) (r : RefReplies)
    → Grants r
    → (e.maybe_raw == 0) ≡ false
    → given_back (take_value e r).1 ≡ reference_of e
unfolding given_back take_value check_status reference_of
take_value-once e r g h = ground arith

pub take_value-ok :
    (e : Error) (r : RefReplies) → Grants r → (take_value e r).0 ≡ ok (JsValue.existing r.value.1)
unfolding take_value check_status
take_value-ok e r g = ground arith

drop_chain-once :
    (c : Chain) (ans : ℕ → RefReplies) (d : ℕ) → given_back (drop_chain c ans d) ≡ references c
unfolding drop_chain references
drop_chain-once (single e) ans d = drop_error-once e (ans d).drop_unref
drop_chain-once (caused e c) ans d =
    given_back-append (drop_error e (ans d).drop_unref) (drop_chain c ans (suc d))
    ∙ (rw (drop_error-once e (ans d).drop_unref, drop_chain-once c ans (suc d)) refl)

take_cause-once :
    (c : Chain) (ans : ℕ → RefReplies) (d : ℕ)
    → Grants (ans d)
    → ((head c).maybe_raw == 0) ≡ false
    → given_back ((take_value (head c) (ans d)).1 ++ drop_cause c ans d) ≡ references c
unfolding drop_cause references given_back
take_cause-once (single e) ans d g h =
    given_back-append (take_value e (ans d)).1 []
    ∙ rw (take_value-once e (ans d) g h) (append-nil (reference_of e))
take_cause-once (caused e c) ans d g h =
    given_back-append (take_value e (ans d)).1 (drop_chain c ans (suc d))
    ∙ rw (take_value-once e (ans d) g h, drop_chain-once c ans (suc d)) refl

-- A conversion that made a value and gave back what the chain holds.
Good : Chain → Option JsValue × List RefCall → Type 0
Good c r = (v : JsValue) × (r.0 ≡ some v) × (given_back r.1 ≡ references c)

GoodValue : Chain → Option (Result JsValue) × List RefCall → Type 0
GoodValue c r = (v : JsValue) × (r.0 ≡ some (ok v)) × (given_back r.1 ≡ references c)

to_value_with-GoodValue :
    (whole : Option JsValue × List RefCall) (c : Chain) (ans : ℕ → RefReplies) (d : ℕ)
    → Grants (ans d)
    → Good c whole
    → GoodValue c (to_value_with whole c ans d)
unfolding to_value_with Good GoodValue
to_value_with-GoodValue whole c ans d g (v, e, b) = elim (Bool-cases ((head c).maybe_raw == 0)) [
  | inl h ↦ rw h (v, ap (Option.map ok) e, b)
  | inr h ↦ rw h (
    JsValue.existing (ans d).value.1,
    ap some (take_value-ok (head c) (ans d) g),
    take_cause-once c ans d g h,
  )
]

-- What `into_value` makes of an error and the value of its cause.
with_cause :
    Kind
    → Error
    → RefReplies
    → Option (Result JsValue) × List RefCall
    → Option JsValue × List RefCall
with_cause k e r (cause, calls) = (
  elim cause [
    | none ↦ none
    | some (err _) ↦ none
    | some (ok v) ↦ some (make_with_cause k e r.cause_set v)
  ],
  begin_value e r ++ calls,
)

with_cause-Good :
    (k : Kind) (e : Error) (r : RefReplies) (c : Chain) (p : Option (Result JsValue) × List RefCall)
    → GoodValue c p
    → Good (caused e c) (with_cause k e r p)
unfolding with_cause Good GoodValue references
with_cause-Good k e r c (none, calls) (v, h, b) = absurd (cc)
with_cause-Good k e r c (some (err x), calls) (v, h, b) = absurd (cc)
with_cause-Good k e r c (some (ok w), calls) (v, h, b) = (
  make_with_cause k e r.cause_set w,
  refl,
  given_back-append (begin_value e r) calls ∙ rw (begin_value-once e r, b) refl,
)

existing-Good :
    (v : ℕ) (e : Error) (c : Chain) (ans : ℕ → RefReplies) (d : ℕ)
    → Good
        (caused e c)
        (some (JsValue.existing v), begin_value e (ans d) ++ drop_cause (caused e c) ans d)
unfolding Good drop_cause references
existing-Good v e c ans d = (
  JsValue.existing v,
  refl,
  given_back-append (begin_value e (ans d)) (drop_chain c ans (suc d))
      ∙ rw (begin_value-once e (ans d), drop_chain-once c ans (suc d)) refl,
)

into_value-Good :
    (k : Kind) (c : Chain) (ans : ℕ → RefReplies) (d : ℕ)
    → ((n : ℕ) → Grants (ans n))
    → Good c (into_value k c ans d)
unfolding into_value with_cause
into_value-Good k (single e) ans d g =
    elim (is_existing e (ans d))
      as (λ o. Good (single e) (elim o [
        | some v ↦ (some (JsValue.existing v), begin_value e (ans d))
        | none ↦ (some (make_error k e), begin_value e (ans d))
      ])) [
        | none ↦ unfold Good references in (make_error k e, refl, begin_value-once e (ans d))
        | some v ↦ unfold Good references in (JsValue.existing v, refl, begin_value-once e (ans d))
      ]
into_value-Good k (caused e c) ans d g =
    let inner =
      with_cause-Good k e (ans d) c
        (to_value_with (into_value js_error c ans (suc d)) c ans (suc d))
        (to_value_with-GoodValue (into_value js_error c ans (suc d)) c ans (suc d) (g (suc d))
          (into_value-Good js_error c ans (suc d) g)) in
    elim (is_existing e (ans d))
      as (λ o. Good (caused e c) (elim o [
        | some v ↦
            (some (JsValue.existing v), begin_value e (ans d) ++ drop_cause (caused e c) ans d)
        | none ↦
            with_cause k e (ans d) (to_value_with (into_value js_error c ans (suc d)) c ans (suc d))
      ])) [ none ↦ inner | some v ↦ existing-Good v e c ans d ]

-- When the engine grants what is asked, an error becomes a JavaScript value, without a panic, and
-- each reference in its chain of causes is given back exactly once, in their order, whether the value is
-- made anew, with its causes, or is that of a reference.
pub to_napi_value-references :
    (c : Chain) (ans : ℕ → RefReplies) (d : ℕ)
    → ((n : ℕ) → Grants (ans n))
    → (v : JsValue) × ((to_napi_value c ans d).0 ≡ some (ok v))
      × (given_back (to_napi_value c ans d).1 ≡ references c)
unfolding to_napi_value GoodValue
to_napi_value-references c ans d g =
    to_value_with-GoodValue (into_value js_error c ans d) c ans d (g d)
      (into_value-Good js_error c ans d g)
