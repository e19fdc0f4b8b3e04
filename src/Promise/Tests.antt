-- ===== src/Promise/Tests.antt =====
-- Runs of promises, and their theorems at concrete inputs.
use ohos_rs.Common.{ℕ, ◌+◌, ◌==◌, if◌then◌else◌, false, some, List, [], ◌∷◌, ◌≡◌, refl}
use ohos_rs.Common.Int.{pos}
use ohos_rs.Status.{Status}
use ohos_rs.Error.{Result, ok, err, new}
use ohos_rs.Error.Import.{refused, ValueType}
use ohos_rs.Promise.Deferred.{
  NewReplies, ResolveReplies, completed, owned_string, panic_error, execute_tokio_future,
}
use ohos_rs.Promise.Deferred.Settled.{
  settlements, settlement_of, to_list, Grants, map_option, outcome, execute_tokio_future-settles,
}
use ohos_rs.Promise.Raw.{Event, settle, collection}
use ohos_rs.Promise.Await.{Site, fulfilled, callbacks, poll, awaited, callbacks-awaited}

abbrev made : NewReplies
made = record {
  promise_made = pos 0;
  name_made = pos 0;
  tsfn_made = pos 0;
  raw_tsfn = 3;
  raw_promise = 4;
}

abbrev accepted : ResolveReplies
accepted = record { called = pos 0; released = pos 0; resolved = pos 0 }

accepted-Grants : Grants made accepted
accepted-Grants = record {
  promise_ok = refl;
  name_ok = refl;
  tsfn_ok = refl;
  called_ok = refl;
  released_ok = refl;
  resolved_ok = refl;
}

abbrev plus_one : ℕ → Result ℕ
plus_one n = ok (n + 1)

-- The text of a panic with a formatted message is lost.
lost_text :
    panic_error (owned_string "index 7") ≡ new Status.generic_failure "Panic in async function"
unfolding panic_error
lost_text = refl

execute_tokio_future-settles_example :
    ((execute_tokio_future plus_one (completed (ok 6)) (some 8) 5 made accepted).0 ≡ ok 4)
    × (settlements (execute_tokio_future plus_one (completed (ok 6)) (some 8) 5 made accepted).1
        ≡ to_list (map_option (settlement_of 5) (outcome plus_one (completed (ok 6)))))
execute_tokio_future-settles_example =
    execute_tokio_future-settles plus_one (completed (ok 6)) (some 8) 5 made accepted
      accepted-Grants

abbrev events : List (Event ℕ ℕ ℕ)
events = settle (pos 0) (ok 1) plus_one plus_one ∷ collection ∷ []

-- Values below 5 are numbers; 9 is the error that is made.
abbrev site : Site ℕ
site = record {
  then_info = pos 0;
  catch_info = pos 0;
  from_napi_value = λ v. if v == 7 then err (new Status.number_expected "no number") else ok v;
  values = record {
    reference = λ v. (pos 0, v + 10);
    text = λ v. ok "text";
    get_type = λ v. ok ValueType.object;
    get_cause = λ v. refused (pos 9);
  };
  make_error = λ t. 9;
  is_empty = λ s. false;
  undefined = ok 0;
  canceled = "oneshot canceled";
}

callbacks-awaited_example :
    ((callbacks site (fulfilled 7)).sent ≡ awaited site (fulfilled 7) ∷ [])
    × (poll site (callbacks site (fulfilled 7)) ≡ awaited site (fulfilled 7))
callbacks-awaited_example = callbacks-awaited site (fulfilled 7) refl refl
