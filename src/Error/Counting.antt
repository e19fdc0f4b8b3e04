-- ===== src/Error/Counting.antt =====
-- The engine's reference to one JavaScript error, under every sequence of clones, drops and conversions
-- of the errors that share it. The engine counts the references, and answers to an accepted
-- `napi_reference_unref` the count that is left.
use ohos_rs.Common.{
  ℕ, ◌+◌, ◌-◌, ◌==◌, if◌then◌else◌, ltb, true, List, [], ◌∷◌, ◌≡◌, ◌≢◌, refl, arith, All,
}
use ohos_rs.Common.Int.{ℤ, pos}
use ohos_rs.Error.{Error, ok, err, is_ok, check_status}
use ohos_rs.Error.Chain.{
  single, RefCall, get_value, increase, unref, delete, drop_error, give_back, take_value, try_clone,
  RefReplies,
}

-- `owners` counts the errors that hold the reference, `count` is the engine's count, `deleted` the
-- deletions that it accepted, and `late` the calls on the reference after one of them.
pub record World : Type 0 where
  pub owners : ℕ
  pub count : ℕ
  pub deleted : ℕ
  pub late : ℕ

-- The numbers are the engine's statuses: of the increase; of the unref and the deletion. `into_value` is
-- the one of `JsError`, and `to_value` is `ToNapiValue for Error`.
pub data Event : Type 0 where
  clone : ℤ → Event
  drop_event : ℤ → ℤ → Event
  into_value : ℤ → ℤ → Event
  to_value : ℤ → ℤ → Event

-- What one call does to the reference, with the status of a change of the count and of a deletion.
unfoldable pub perform : ℤ → ℤ → RefCall → World → World
perform change deletion call w =
    let t = record w { late = w.late + (if ltb 0 w.deleted then 1 else 0) } in
    elim call [
      | get_value _ ↦ t
      | increase _ ↦ if is_ok change then record t { count = t.count + 1 } else t
      | unref _ ↦ if is_ok change then record t { count = t.count - 1 } else t
      | delete _ ↦ if is_ok deletion then record t { deleted = t.deleted + 1 } else t
    ]

unfoldable pub perform_all : ℤ → ℤ → List RefCall → World → World
unfolding perform
perform_all change deletion [] w = w
perform_all change deletion (c ∷ cs) w =
    perform_all change deletion cs (perform change deletion c w)

-- The error that each owner holds, with the reference `raw`.
abbrev lose : World → World
lose w = record w { owners = w.owners - 1 }

-- The replies to a conversion, and to a `Drop` after it.
abbrev granting : ℤ × ℕ → ℤ → RefReplies
granting unref_reply deleted = record {
  value = (pos 0, 0);
  unref_reply = unref_reply;
  deleted = deleted;
  drop_unref = (unref_reply.0, unref_reply.1 - 1);
  is_error = true;
  cause_set = pos 0;
}

-- Nothing happens without an owner.
unfoldable pub step : Error → Event → World → World
unfolding perform_all drop_error give_back take_value try_clone check_status
step e (clone r) w =
    if ltb 0 w.owners
    then (let t = perform_all r (pos 0) (try_clone (single e) r).1 w in
        elim (try_clone (single e) r).0 [ ok _ ↦ record t { owners = t.owners + 1 } | err _ ↦ t ])
    else w
step e (drop_event r d) w =
    if ltb 0 w.owners then lose (perform_all r d (drop_error e (r, w.count - 1)) w) else w
step e (into_value r d) w =
    if ltb 0 w.owners
    then lose (perform_all r d (give_back e.maybe_raw (granting (r, w.count - 1) d)) w)
    else w
step e (to_value r d) w =
    if ltb 0 w.owners
    then lose (perform_all r d (take_value e (granting (r, w.count - 1) d)).1 w)
    else w

unfoldable pub run : Error → List Event → World → World
unfolding step
run e [] w = w
run e (x ∷ xs) w = run e xs (step e x w)

-- What `From<Unknown>` hands out.
abbrev pub start : World
start = record { owners = 1; count = 1; deleted = 0; late = 0 }

-- The engine accepts what the events ask for, apart from an increase.
abbrev pub Accepts : Event → Type 0
Accepts (clone _) = Unit
Accepts (drop_event r d) = (is_ok r ≡ true) × (is_ok d ≡ true)
Accepts (into_value r d) = (is_ok r ≡ true) × (is_ok d ≡ true)
Accepts (to_value r d) = (is_ok r ≡ true) × (is_ok d ≡ true)

-- As long as an owner is left, the engine's count is that of the owners.
pub record IsSound (w : World) : Type 0 where
  pub same : w.count ≡ w.owners
  pub gone : w.deleted ≡ (if w.owners == 0 then 1 else 0)
  pub never_late : w.late ≡ 0

step-IsSound :
    (e : Error) (x : Event) (w : World)
    → e.maybe_raw ≢ 0
    → Accepts x
    → IsSound w
    → IsSound (step e x w)
unfolding step perform_all perform drop_error give_back take_value try_clone check_status
step-IsSound e (clone r) w n a s = ground arith
step-IsSound e (drop_event r d) w n a s = ground arith
step-IsSound e (into_value r d) w n a s = ground arith
step-IsSound e (to_value r d) w n a s = ground arith

run-IsSound :
    (e : Error) (xs : List Event) (w : World)
    → e.maybe_raw ≢ 0
    → All Accepts xs
    → IsSound w
    → IsSound (run e xs w)
unfolding run
run-IsSound e [] w n a s = s
run-IsSound e (x ∷ xs) w n a s = run-IsSound e xs (step e x w) n a.1 (step-IsSound e x w n a.0 s)

-- However the errors that share a reference are cloned, dropped, and converted by `into_value` or
-- `to_napi_value`, the reference is deleted
-- exactly once, namely when the last of them is gone, and no call is made on it afterwards. The
-- engine has to accept that a reference is given back or deleted; it may refuse a clone.
pub run_deletes_once :
    (e : Error) (xs : List Event)
    → e.maybe_raw ≢ 0
    → All Accepts xs
    → ((run e xs start).deleted ≡ (if (run e xs start).owners == 0 then 1 else 0))
      × ((run e xs start).late ≡ 0)
run_deletes_once e xs n a =
    let s = run-IsSound e xs start n a (record { same = refl; gone = refl; never_late = refl }) in
    (s.gone, s.never_late)
