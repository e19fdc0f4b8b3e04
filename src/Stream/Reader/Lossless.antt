-- ===== src/Stream/Reader/Lossless.antt =====
-- What a reader hands out over a stream of JavaScript, from the first request to the end.
use ohos_rs.Common.{
  ℕ, zero, suc, ◌≤◌, ◌&&◌, ltb, not, if◌then◌else◌, Bool, true, false, Option, none, some, List, [],
  ◌∷◌, ◌≡◌, refl, arith, ap, ◌∙◌,
}
use ohos_rs.Error.{Error, Result, ok, err}
use ohos_rs.Stream.Reader.{
  Reader, Poll, pending, ready, new_reader, poll_next, on_done, on_chunk, on_error,
}

-- A poll, one of the two writes of an answer, or a rejection.
pub data Event (T : Type 0) : Type 0 where
  polled : Event T
  begun : Bool → Event T
  stored : Option T → Event T
  failed : Error → Event T

module _ {T : Type 0} where
  abbrev may_answer : Reader T → Bool
  may_answer r = ltb 0 r.requests && not r.answering

  -- The outcomes of the polls. There is no answer without a request that is open, and no second write
  -- without a first.
  unfoldable pub run : List (Event T) → Reader T → List (Poll T)
  unfolding poll_next on_done on_chunk on_error
  run [] r = []
  run (polled ∷ es) r = (poll_next r).0 ∷ run es (poll_next r).1
  run (begun done ∷ es) r = run es (if may_answer r then on_done done r else r)
  run (stored value ∷ es) r = run es (if r.answering then on_chunk value r else r)
  run (failed e ∷ es) r = run es (if may_answer r then on_error e r else r)

  unfoldable pub polls : ℕ → List (Event T) → List (Event T)
  polls zero es = es
  polls (suc n) es = polled ∷ polls n es

  unfoldable pub repeated : ℕ → Poll T → List (Poll T) → List (Poll T)
  repeated zero o l = l
  repeated (suc n) o l = o ∷ repeated n o l

  -- The answers of a stream: chunks and rejections, and in the end the flag without a value. Of the
  -- numbers, the first counts the polls between the two writes of an answer, and the second the polls
  -- after the one that follows it.
  unfoldable pub script : List (Result T × (ℕ × ℕ)) → ℕ × ℕ → List (Event T)
  unfolding polls
  script [] (between, after) = begun true ∷ polls between (stored none ∷ polls (suc after) [])
  script ((ok v, (between, after)) ∷ vs) end =
      begun false ∷ polls between (stored (some v) ∷ polled ∷ polls after (script vs end))
  script ((err e, (between, after)) ∷ vs) end = failed e ∷ polled ∷ polls after (script vs end)

  unfoldable pub expected : List (Result T × (ℕ × ℕ)) → ℕ × ℕ → List (Poll T)
  unfolding repeated
  expected [] (between, after) =
      repeated between (ready none) (repeated (suc after) (ready none) [])
  expected ((ok v, (between, after)) ∷ vs) end =
      repeated between pending (ready (some (ok v)) ∷ repeated after pending (expected vs end))
  expected ((err e, (between, after)) ∷ vs) end =
      ready (some (err e)) ∷ repeated after pending (expected vs end)

  -- The states of a reader: a request is open, an answer is between its writes, a chunk waits, and the
  -- end was reported.
  record IsAsking (r : Reader T) : Type 0 where
    empty : r.chunk ≡ ok none
    goes_on : r.done ≡ false
    idle : r.answering ≡ false
    asked : 1 ≤ r.requests

  record IsNew (r : Reader T) : Type 0 where
    empty : r.chunk ≡ ok none
    goes_on : r.done ≡ false
    idle : r.answering ≡ false

  record IsAnswering (r : Reader T) : Type 0 where
    empty : r.chunk ≡ ok none
    goes_on : r.done ≡ false
    within : r.answering ≡ true

  record IsWaiting (v : Result T) (r : Reader T) : Type 0 where
    full : r.chunk ≡ (elim v [ ok x ↦ ok (some x) | err e ↦ err e ])
    goes_on : r.done ≡ false
    idle : r.answering ≡ false

  record IsEnding (r : Reader T) : Type 0 where
    empty : r.chunk ≡ ok none
    ended : r.done ≡ true

  -- A poll with this outcome that leads from one state to another.
  abbrev Polls : (Reader T → Type 0) → Poll T → (Reader T → Type 0) → Type 0
  Polls P o Q = (r : Reader T) → P r → ((poll_next r).0 ≡ o) × Q (poll_next r).1

  IsAsking-poll : Polls IsAsking pending IsAsking
  unfolding poll_next
  IsAsking-poll r p = ground arith

  IsNew-poll : Polls IsNew pending IsAsking
  unfolding poll_next
  IsNew-poll r p = ground arith

  new_reader-IsNew : IsNew new_reader
  unfolding new_reader
  new_reader-IsNew = record { empty = refl; goes_on = refl; idle = refl }

  IsAnswering-poll : Polls IsAnswering pending IsAnswering
  unfolding poll_next
  IsAnswering-poll r p = ground arith

  IsWaiting-poll : (v : Result T) → Polls (IsWaiting v) (ready (some v)) IsAsking
  unfolding poll_next
  IsWaiting-poll (ok v) r p = ground arith
  IsWaiting-poll (err e) r p = ground arith

  IsEnding-poll : Polls IsEnding (ready none) IsEnding
  unfolding poll_next
  IsEnding-poll r p = ground arith

  -- From such a state the polls have these outcomes.
  abbrev Yields : (Reader T → Type 0) → List (Event T) → List (Poll T) → Type 0
  Yields P es l = (r : Reader T) → P r → run es r ≡ l

  polled-Yields :
      (P Q : Reader T → Type 0) (o : Poll T) (es : List (Event T)) (l : List (Poll T))
      → Polls P o Q
      → Yields Q es l
      → Yields P (polled ∷ es) (o ∷ l)
  unfolding run
  polled-Yields P Q o es l step rest r p =
      ap (λ x. x ∷ run es (poll_next r).1) (step r p).0
      ∙ ap (λ x. o ∷ x) (rest (poll_next r).1 (step r p).1)

  polls-Yields :
      (P : Reader T → Type 0) (o : Poll T) (n : ℕ) (es : List (Event T)) (l : List (Poll T))
      → Polls P o P
      → Yields P es l
      → Yields P (polls n es) (repeated n o l)
  unfolding polls repeated
  polls-Yields P o zero es l step rest = rest
  polls-Yields P o (suc n) es l step rest =
      polled-Yields P P o (polls n es) (repeated n o l) step (polls-Yields P o n es l step rest)

  begun-Yields :
      (es : List (Event T)) (l : List (Poll T))
      → Yields IsAnswering es l
      → Yields IsAsking (begun false ∷ es) l
  unfolding run on_done
  begun-Yields es l rest r p =
      let open_now : may_answer r ≡ true = ground arith in
      rw open_now (rest (on_done false r) (ground arith))

  ended-Yields :
      (es : List (Event T)) (l : List (Poll T))
      → Yields IsEnding es l
      → Yields IsAsking (begun true ∷ es) l
  unfolding run on_done
  ended-Yields es l rest r p =
      let open_now : may_answer r ≡ true = ground arith in
      rw open_now (rest (on_done true r) (ground arith))

  stored-Yields :
      (v : T) (es : List (Event T)) (l : List (Poll T))
      → Yields (IsWaiting (ok v)) es l
      → Yields IsAnswering (stored (some v) ∷ es) l
  unfolding run on_chunk
  stored-Yields v es l rest r p = rw p.within (rest (on_chunk (some v) r) (ground arith))

  closed-Yields :
      (es : List (Event T)) (l : List (Poll T))
      → Yields IsEnding es l
      → Yields IsEnding (stored none ∷ es) l
  unfolding run on_chunk
  closed-Yields es l rest r p = rest (if r.answering then on_chunk none r else r) (ground arith)

  failed-Yields :
      (e : Error) (es : List (Event T)) (l : List (Poll T))
      → Yields (IsWaiting (err e)) es l
      → Yields IsAsking (failed e ∷ es) l
  unfolding run on_error
  failed-Yields e es l rest r p =
      let open_now : may_answer r ≡ true = ground arith in
      rw open_now (rest (on_error e r) (ground arith))

  nothing-Yields : (P : Reader T → Type 0) → Yields P [] []
  unfolding run
  nothing-Yields P r p = refl

  script-Yields :
      (vs : List (Result T × (ℕ × ℕ))) (end : ℕ × ℕ)
      → Yields IsAsking (script vs end) (expected vs end)
  unfolding script expected
  script-Yields [] (between, after) = ended-Yields _ _ (
      polls-Yields IsEnding (ready none) between _ _ IsEnding-poll (
        closed-Yields _ _ (
          polls-Yields IsEnding (ready none) (suc after) [] [] IsEnding-poll
            (nothing-Yields IsEnding))))
  script-Yields ((ok v, (between, after)) ∷ vs) end = begun-Yields _ _ (
      polls-Yields IsAnswering pending between _ _ IsAnswering-poll (
        stored-Yields v _ _ (
          polled-Yields (IsWaiting (ok v)) IsAsking (ready (some (ok v))) _ _
            (IsWaiting-poll (ok v))
            (polls-Yields IsAsking pending after _ _ IsAsking-poll (script-Yields vs end)))))
  script-Yields ((err e, (between, after)) ∷ vs) end = failed-Yields e _ _ (
      polled-Yields (IsWaiting (err e)) IsAsking (ready (some (err e))) _ _ (IsWaiting-poll (err e))
        (polls-Yields IsAsking pending after _ _ IsAsking-poll (script-Yields vs end)))

  -- A new reader that is polled at least once before the first answer, and at least once after each
  -- answer and before the next one, hands out each chunk and each rejection exactly once and in order, and
  -- then the end for good. A poll beyond those is pending before the end, also one between the two
  -- writes of a chunk. The last answer has the flag and no value.
  pub run-script :
      (first : ℕ) (vs : List (Result T × (ℕ × ℕ))) (end : ℕ × ℕ)
      → run (polls (suc first) (script vs end)) new_reader
        ≡ repeated (suc first) pending (expected vs end)
  run-script first vs end =
      let later =
        polls-Yields IsAsking pending first (script vs end) (expected vs end) IsAsking-poll
          (script-Yields vs end) in
      unfold polls repeated in
      polled-Yields IsNew IsAsking pending _ _ IsNew-poll later new_reader new_reader-IsNew
