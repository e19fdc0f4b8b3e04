-- ===== src/Error/Import/Back.antt =====
-- A JavaScript error that becomes an `Error` and then a JavaScript value again.
use mathlib.Core.Option
use ohos_rs.Common.{
  ℕ, zero, suc, ◌==◌, true, false, Option, none, some, ◌≡◌, ◌≢◌, refl, ap, subst, ◌∙◌, arith,
}
use ohos_rs.Error.{Error, ok, is_ok}
use ohos_rs.Error.Chain.{
  Chain, single, caused, head, RefReplies, JsValue, to_value_with, to_napi_value,
}
use ohos_rs.Error.Import.{
  Values, Next, stop, cause, ignored, import_value, own_error, with_next, from_unknown,
}
use ohos_rs.Error.Chain.GivenBack.{Grants, take_value-ok}

-- The engine makes a reference to the value, which is not null; `held` is the value that each of its
-- references holds.
pub record IsHeld (h : Values) (held : ℕ → ℕ) (v : ℕ) : Type 0 where
  pub made : is_ok (h.reference v).0 ≡ true
  pub not_null : (h.reference v).1 ≢ 0
  pub same : held (h.reference v).1 ≡ v

-- It grants what is asked about the reference `raw`, and gives the value that this reference holds.
pub record Answers (held : ℕ → ℕ) (raw : ℕ) (r : RefReplies) : Type 0 where
  pub granted : Grants r
  pub value_of : r.value.1 ≡ held raw

some-head : (x c : Chain) (e : Error) → some x ≡ some c → head x ≡ e → head c ≡ e
some-head x c e h p = (let q : x ≡ c = cc in subst (λ z. head z ≡ e) q p)

map-head :
    (f : Chain → Chain) (o : Option Chain) (c : Chain) (e : Error)
    → ((x : Chain) → head (f x) ≡ e)
    → Option.map f o ≡ some c
    → head c ≡ e
map-head f none c e p h = absurd (cc)
map-head f (some x) c e p h = some-head (f x) c e h (p x)

with_next-head :
    (e : Error) (x : Next) (inner : ℕ → Option Chain) (c : Chain)
    → with_next e x inner ≡ some c
    → head c ≡ e
unfolding with_next
with_next-head e stop inner c h = some-head (single e) c e h refl
with_next-head e (cause w) inner c h = map-head (caused e) (inner w) c e (λ x. refl) h
with_next-head e (ignored w) inner c h = map-head (λ _. single e) (inner w) c e (λ x. refl) h

from_unknown-head :
    (h : Values) (n v : ℕ) (c : Chain) → from_unknown h n v ≡ some c → head c ≡ (import_value h v).0
unfolding from_unknown
from_unknown-head h zero v c e = absurd (cc)
from_unknown-head h (suc n) v c e =
    with_next-head (import_value h v).0 (import_value h v).1 (λ w. from_unknown h n w) c e

-- The reference that the chain begins with.
from_unknown-raw :
    (h : Values) (n v : ℕ) (c : Chain)
    → is_ok (h.reference v).0 ≡ true
    → from_unknown h n v ≡ some c
    → (head c).maybe_raw ≡ (h.reference v).1
from_unknown-raw h n v c k e =
    ap (λ x. x.maybe_raw) (from_unknown-head h n v c e)
    ∙ (unfold import_value own_error in (rw k refl))

-- A JavaScript value that was converted to an error, with whatever chain of causes, is the value that
-- this error is converted back to, provided that the engine made a reference to the value, and that it
-- answers the calls on the reference of this error by what that reference holds.
pub to_napi_value-from_unknown :
    (h : Values) (held : ℕ → ℕ) (n v : ℕ) (c : Chain) (ans : ℕ → RefReplies) (d : ℕ)
    → IsHeld h held v
    → Answers held (head c).maybe_raw (ans d)
    → from_unknown h n v ≡ some c
    → (to_napi_value c ans d).0 ≡ some (ok (JsValue.existing v))
to_napi_value-from_unknown h held n v c ans d k a e =
    let raw = from_unknown-raw h n v c k.made e in
    let back : (ans d).value.1 ≡ v = a.value_of ∙ ap held raw ∙ k.same in
    let shut : ((head c).maybe_raw == 0) ≡ false = ground (arith, k.not_null, raw) in
    unfold to_napi_value to_value_with in
    (rw shut
      (ap some (take_value-ok (head c) (ans d) a.granted ∙ ap (λ w. ok (JsValue.existing w)) back)))
