-- ===== src/Serde/Elements.antt =====
-- What the element calls of the serializer in crates/napi/src/js_values/ser.rs leave in the array.
use ohos_rs.Common.{
  append-nil, ℕ, zero, suc, ◌≤◌, ◌≡◌, refl, ap, sym, ◌∙◌, Option, none, some, List, [], ◌∷◌, ◌++◌,
  length, drop, arith, length-append,
}
use ohos_rs.Serde.{Js, SerValues, nil, cons, Engine}
use ohos_rs.Serde.Ser.{set_element, new_array, array_for, count, serialize, serialize_elements}

abbrev pub all_serialized : Engine → SerValues → List Js
all_serialized engine nil = []
all_serialized engine (cons v vs) = serialize engine v ∷ all_serialized engine vs

set_element-append :
    (pre rest : List Js) (v : Js)
    → set_element (pre ++ rest) (length pre) v ≡ (pre ++ v ∷ []) ++ drop 1 rest
unfolding set_element
set_element-append [] [] v = refl
set_element-append [] (x ∷ rest) v = refl
set_element-append (p ∷ pre) rest v = ap (λ l. p ∷ l) (set_element-append pre rest v)

drop-drop : (n : ℕ) (xs : List Js) → drop n (drop 1 xs) ≡ drop (suc n) xs
drop-drop zero [] = refl
drop-drop (suc n) [] = refl
drop-drop n (x ∷ xs) = refl

append-append : (xs ys zs : List Js) → (xs ++ ys) ++ zs ≡ xs ++ (ys ++ zs)
append-append [] ys zs = refl
append-append (x ∷ xs) ys zs = ap (λ l. x ∷ l) (append-append xs ys zs)

serialize_elements-append :
    (engine : Engine) (vs : SerValues) (pre rest : List Js)
    → serialize_elements engine vs (length pre) (pre ++ rest)
      ≡ pre ++ (all_serialized engine vs ++ drop (count vs) rest)
unfolding serialize_elements count
serialize_elements-append engine nil pre rest = refl
serialize_elements-append engine (cons v vs) pre rest =
    let pre' : List Js = pre ++ serialize engine v ∷ [] in
    let longer : length pre' ≡ suc (length pre) =
      omega (arith, length-append pre (serialize engine v ∷ [])) in
    ap (serialize_elements engine vs (suc (length pre)))
      (set_element-append pre rest (serialize engine v))
    ∙ ap (λ i. serialize_elements engine vs i (pre' ++ drop 1 rest)) (sym longer)
    ∙ serialize_elements-append engine vs pre' (drop 1 rest)
    ∙ append-append pre (serialize engine v ∷ []) _
    ∙ ap (λ l. pre ++ (serialize engine v ∷ (all_serialized engine vs ++ l)))
        (drop-drop (count vs) rest)

drop-new_array : (n m : ℕ) → n ≤ m → drop m (new_array n) ≡ []
unfolding new_array
drop-new_array zero zero h = refl
drop-new_array zero (suc m) h = refl
drop-new_array (suc n) zero h = absurd (omega arith)
drop-new_array (suc n) (suc m) h = drop-new_array n m (omega arith)

pub serialize_elements-new_array :
    (engine : Engine) (vs : SerValues) (n : ℕ)
    → n ≤ count vs
    → serialize_elements engine vs 0 (new_array n) ≡ all_serialized engine vs
serialize_elements-new_array engine vs n h =
    serialize_elements-append engine vs [] (new_array n)
    ∙ ap (λ l. all_serialized engine vs ++ l) (drop-new_array n (count vs) h)
    ∙ append-nil _

-- The hint of a sequence is no more than its length.
abbrev pub IsHint : Option ℕ → SerValues → Type 0
IsHint none vs = Unit
IsHint (some n) vs = n ≤ count vs

pub serialize_elements-array_for :
    (engine : Engine) (vs : SerValues) (hint : Option ℕ)
    → IsHint hint vs
    → serialize_elements engine vs 0 (array_for hint) ≡ all_serialized engine vs
unfolding array_for new_array
serialize_elements-array_for engine vs none h =
    serialize_elements-new_array engine vs 0 (omega arith)
serialize_elements-array_for engine vs (some n) h = serialize_elements-new_array engine vs n h
