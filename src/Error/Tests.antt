-- ===== src/Error/Tests.antt =====
-- Runs of errors and their references, and their theorems at concrete inputs.
use ohos_rs.Common.{
  ℕ, ◌+◌, ◌-◌, ◌==◌, if◌then◌else◌, true, none, some, List, [], ◌∷◌, ◌≡◌, refl, arith,
}
use ohos_rs.Common.Int.{pos}
use ohos_rs.Status.{Status, as_ref}
use ohos_rs.Error.{Error, ok, err, new, from_reason, check_status}
use ohos_rs.Error.Chain.{
  Chain, single, caused, set_cause, RefReplies, JsValue, Kind, js_error, js_type_error,
  to_napi_value, get_value, unref, delete, throw_into,
}
use ohos_rs.Error.Chain.GivenBack.{Grants, given_back, references, to_napi_value-references}
use ohos_rs.Error.Import.{Values, value, ValueType, object, from_unknown, own_error}
use ohos_rs.Error.Import.Back.{IsHeld, Answers, to_napi_value-from_unknown}
use ohos_rs.Error.Counting.{
  Event, clone, drop_event, into_value, to_value, run, start, run_deletes_once,
}

abbrev granted : ℕ → RefReplies
granted d = record {
  value = (pos 0, 40);
  unref_reply = (pos 0, 0);
  deleted = pos 0;
  drop_unref = (pos 0, 0);
  is_error = true;
  cause_set = pos 0;
}

abbrev inner : Error
inner = record { status = Status.generic_failure; reason = "inner"; maybe_raw = 7 }

abbrev outer : Chain
outer = set_cause (single (from_reason "outer")) (single inner)

-- A new error takes the value of a reference as its cause.
outer_made :
    (to_napi_value outer granted 0).0
    ≡ some (ok (JsValue.made_with_cause js_error "GenericFailure" "outer" (JsValue.existing 40)))
unfolding to_napi_value from_reason set_cause ohos_rs.Error.Chain.into_value as_ref check_status
outer_made = refl

granted-Grants : (n : ℕ) → Grants (granted n)
granted-Grants n = record { value_ok = refl; unref_ok = refl; delete_ok = refl }

to_napi_value-references_example :
    (v : JsValue) × ((to_napi_value outer granted 0).0 ≡ some (ok v))
    × (given_back (to_napi_value outer granted 0).1 ≡ references outer)
to_napi_value-references_example = to_napi_value-references outer granted 0 granted-Grants

-- Value 1 is an error whose cause is 2, and value 2 is an error that is its own cause.
abbrev values : Values
values = record {
  reference = λ v. (pos 0, v + 10);
  text = λ v. ok "text";
  get_type = λ v. ok object;
  get_cause = λ v. value 2;
}

own_cause : from_unknown values 5 1 ≡ none
unfolding from_unknown
own_cause = refl

-- Value 3 is an error without a cause.
abbrev plain : Values
plain = record values {
  get_cause = λ v. value 9;
  get_type = λ v. if v == 9 then ok ValueType.undefined else ok object;
}

-- Value 1 has the cause 2, whose own cause is null.
abbrev nested : Values
nested = record values {
  get_cause = λ v. value (v + 1);
  get_type = λ v. if v == 3 then ok ValueType.null else ok object;
}

nested_converted :
    from_unknown nested 2 1 ≡ some (caused (own_error nested 1) (single (own_error nested 2)))
unfolding from_unknown
nested_converted = refl

-- The reference 10 above a value holds it.
plain-IsHeld : IsHeld plain (λ raw. raw - 10) 40
plain-IsHeld = record { made = refl; not_null = omega arith; same = refl }

granted-Answers : Answers (λ raw. raw - 10) 50 (granted 0)
granted-Answers = record { granted = granted-Grants 0; value_of = refl }

to_napi_value-from_unknown_example :
    (to_napi_value (single (own_error plain 40)) granted 0).0 ≡ some (ok (JsValue.existing 40))
to_napi_value-from_unknown_example =
    to_napi_value-from_unknown plain (λ raw. raw - 10) 1 40 (single (own_error plain 40)) granted 0
      plain-IsHeld (unfold own_error in granted-Answers) (unfold from_unknown in refl)

abbrev history : List Event
history =
    clone (pos 0)
    ∷ clone (pos 9)
    ∷ clone (pos 0)
    ∷ into_value (pos 0) (pos 0)
    ∷ to_value (pos 0) (pos 0)
    ∷ drop_event (pos 0) (pos 0)
    ∷ []

-- A refused unref leaves the variable at 0, and the reference is deleted although a clone holds it.
refused_unref_deletes :
    run inner (clone (pos 0) ∷ drop_event (pos 9) (pos 0) ∷ []) start
    ≡ record { owners = 1; count = 2; deleted = 1; late = 0 }
unfolding run
refused_unref_deletes = refl

run_deletes_once_example :
    ((run inner history start).deleted ≡ (if (run inner history start).owners == 0 then 1 else 0))
    × ((run inner history start).late ≡ 0)
run_deletes_once_example =
    run_deletes_once inner history (omega arith)
      (tt, (tt, (tt, ((refl, refl), ((refl, refl), ((refl, refl), tt))))))
