-- ===== src/Iterator/Tests.antt =====
-- Runs of a generator, and its theorems at concrete inputs.
use ohos_rs.Common.{
  ℕ, Bool, Option, List, ◌+◌, ◌==◌, if◌then◌else◌, true, false, none, some, [], ◌∷◌, ◌≡◌, refl,
}
use ohos_rs.Error.{ok}
use ohos_rs.Iterator.{
  Generator, Site, Instance, Outcome, caught, rethrown, generator_return, generator_throw,
}
use ohos_rs.Iterator.Completed.{call_next, all_done, call_all, ReportEnd, call_all-generator_return}

abbrev site : Site ℕ ℕ ℕ
site = record { to_next = λ v. ok v; to_return = λ v. ok v; to_value = λ y. ok y; undefined = 0 }

-- It yields 0, ends, and then yields 2; it catches an exception below 5.
abbrev counter : Generator ℕ ℕ ℕ ℕ
counter = record {
  next = λ n s. (if s == 1 then none else some s, s + 1);
  complete = λ r s. (none, s);
  catch = λ v s. (if v == 4 then caught (some 9) else rethrown v, s);
}

abbrev fresh : Instance ℕ
fresh = record { completed = false; generator = 0 }

abbrev yields : ℕ → Outcome
yields v = record { pending = none; result = some (record { value = some v; done = false }) }

abbrev ends : Outcome
ends = record { pending = none; result = some (record { value = none; done = true }) }

-- The end is not recorded, so a generator that goes on after its end is asked again.
goes_on :
    (call_next site counter (none ∷ none ∷ none ∷ []) fresh).0 ≡ yields 0 ∷ ends ∷ yields 2 ∷ []
unfolding call_next
goes_on = refl

-- A `throw` that the generator catches opens it again after `return`.
opened_again :
    (generator_throw site counter (some 4) (generator_return site counter none fresh).1).1 ≡ fresh
unfolding generator_throw generator_return
opened_again = refl

abbrev calls : List (Bool × Option ℕ)
calls = (true, none) ∷ (false, some 2) ∷ (true, some 3) ∷ []

call_all-generator_return_example :
    let j = (generator_return site counter (some 8) fresh).1 in
    ReportEnd site counter calls (call_all site counter calls j).0
    × ((call_all site counter calls j).1.completed ≡ true)
    × (call_next site counter (none ∷ some 3 ∷ []) j
        ≡ (all_done site counter (none ∷ some 3 ∷ []), j))
call_all-generator_return_example =
    call_all-generator_return site counter (some 8) (none ∷ some 3 ∷ []) calls fresh
      (unfold generator_return in refl)
