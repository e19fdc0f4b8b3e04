-- ===== src/Serde/Fields.antt =====
-- What the calls for a struct or a map in crates/napi/src/js_values/ser.rs leave in the object, and how
-- `JsObjectAccess` of crates/napi/src/js_values/de.rs reads it.
use ohos_rs.Common.{
  append-nil, ◌≡◌, refl, ap, sym, ◌∙◌, subst, false, some, List, [], ◌∷◌, ◌++◌, arith,
}
use ohos_rs.Common.Text.{Text, text_eq_refl, mem_text, lookup_text}
use ohos_rs.Serde.{
  Js, SerFields, no_fields, field, Engine, Content, ContentFields, no_pairs, pair, Outcome, done,
  and_then,
}
use ohos_rs.Serde.Ser.{set_property, to_fields, serialize, serialize_fields}
use ohos_rs.Serde.De.{read_pairs, names_of}

abbrev pub keys : {V : Type 0} → List (Text × V) → List Text
keys [] = []
keys ((k, v) ∷ ps) = k ∷ keys ps

-- The names are distinct, and none of them was seen before.
abbrev pub IsFresh : List Text → List Text → Type 0
IsFresh seen [] = Unit
IsFresh seen (k ∷ ks) = (mem_text k seen ≡ false) × IsFresh (seen ++ k ∷ []) ks

module _ {V : Type 0} where
  pub append-cons : (xs : List V) (y : V) (zs : List V) → (xs ++ y ∷ []) ++ zs ≡ xs ++ y ∷ zs
  append-cons [] y zs = refl
  append-cons (x ∷ xs) y zs = ap (λ l. x ∷ l) (append-cons xs y zs)

  pub keys-concat :
      (ps : List (Text × V)) (k : Text) (v : V) → keys (ps ++ (k, v) ∷ []) ≡ keys ps ++ k ∷ []
  keys-concat [] k v = refl
  keys-concat ((k', v') ∷ ps) k v = ap (λ l. k' ∷ l) (keys-concat ps k v)

  lookup_text-append :
      (ps qs : List (Text × V)) (k : Text) (v : V)
      → mem_text k (keys ps) ≡ false
      → lookup_text k (ps ++ (k, v) ∷ qs) ≡ some v
  unfolding lookup_text mem_text
  lookup_text-append [] qs k v h = ground (arith, text_eq_refl k)
  lookup_text-append ((k', v') ∷ ps) qs k v h = ground (arith, lookup_text-append ps qs k v)

set_property-new :
    (ps : List (Text × Js)) (k : Text) (v : Js)
    → mem_text k (keys ps) ≡ false
    → set_property ps k v ≡ ps ++ (k, v) ∷ []
unfolding set_property mem_text
set_property-new [] k v h = refl
set_property-new ((k', v') ∷ ps) k v h = ground (arith, set_property-new ps k v)

-- A field that is new goes to the end of the object.
pub set_property-step :
    (ps rest : List (Text × Js)) (k : Text) (v : Js) (ks : List Text)
    → IsFresh (keys ps) (k ∷ ks)
    → (set_property ps k v ≡ ps ++ (k, v) ∷ []) × IsFresh (keys (ps ++ (k, v) ∷ [])) ks
set_property-step ps rest k v ks f =
    (set_property-new ps k v f.0, subst (λ seen. IsFresh seen ks) (sym (keys-concat ps k v)) f.1)

abbrev pub field_names : SerFields → List Text
field_names no_fields = []
field_names (field k v fs) = k ∷ field_names fs

abbrev pub all_fields : Engine → SerFields → List (Text × Js)
all_fields engine no_fields = []
all_fields engine (field k v fs) = (k, serialize engine v) ∷ all_fields engine fs

pub serialize_fields-append :
    (engine : Engine) (fs : SerFields) (obj : List (Text × Js))
    → IsFresh (keys obj) (field_names fs)
    → serialize_fields engine fs obj ≡ obj ++ all_fields engine fs
unfolding serialize_fields
serialize_fields-append engine no_fields obj f = sym (append-nil obj)
serialize_fields-append engine (field k v fs) obj f =
    let (e, g) = set_property-step obj [] k (serialize engine v) (field_names fs) f in
    ap (serialize_fields engine fs) e
    ∙ serialize_fields-append engine fs _ g
    ∙ append-cons obj (k, serialize engine v) (all_fields engine fs)

pub names_of-to_fields : (ps : List (Text × Js)) → names_of (to_fields ps) ≡ keys ps
unfolding names_of to_fields
names_of-to_fields [] = refl
names_of-to_fields ((k, v) ∷ ps) = ap (λ l. k ∷ l) (names_of-to_fields ps)

-- The pairs that a visitor is given, as the properties that give them.
abbrev pub all_done : ContentFields → List (Text × Outcome Content)
all_done no_pairs = []
all_done (pair k c ps) = (k, done c) ∷ all_done ps

abbrev pub pair_names : ContentFields → List Text
pair_names no_pairs = []
pair_names (pair k c ps) = k ∷ pair_names ps

read_pairs-append :
    (pre : List (Text × Outcome Content)) (ps : ContentFields)
    → IsFresh (keys pre) (pair_names ps)
    → read_pairs (pair_names ps) (pre ++ all_done ps) ≡ done ps
unfolding read_pairs and_then
read_pairs-append pre no_pairs f = refl
read_pairs-append pre (pair k c ps) f =
    let here = lookup_text-append pre (all_done ps) k (done c) f.0 in
    let rest =
      read_pairs-append (pre ++ (k, done c) ∷ []) ps
        (subst (λ seen. IsFresh seen (pair_names ps)) (sym (keys-concat pre k (done c))) f.1) in
    let whole =
      ap (read_pairs (pair_names ps)) (sym (append-cons pre (k, done c) (all_done ps))) ∙ rest in
    rw (here, whole) refl

pub read_pairs-all_done :
    (ps : ContentFields)
    → IsFresh [] (pair_names ps)
    → read_pairs (pair_names ps) (all_done ps) ≡ done ps
read_pairs-all_done ps f = read_pairs-append [] ps f
