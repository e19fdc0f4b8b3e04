-- ===== src/Stream/Tests.antt =====
-- Runs of streams, and their theorems at concrete inputs.
use ohos_rs.Common.{ℕ, true, false, none, some, List, [], ◌∷◌, ◌++◌, ◌≡◌, refl}
use ohos_rs.Status.{Status}
use ohos_rs.Error.{Result, ok, err, new}
use ohos_rs.Stream.Reader
use ohos_rs.Stream.Source
use ohos_rs.Stream.Reader.{pending, ready, new_reader}
use ohos_rs.Stream.Reader.Lossless.{
  polled, begun, stored, polls, repeated, script, expected, run-script,
}
use ohos_rs.Stream.Source.{
  pull_called, lock_taken, item_ready, callback, cancel_called, cancel_callback, new_source,
}
use ohos_rs.Stream.Source.Pulled.{value_got, values_left, values_of, run-new_source}

-- Two polls make two requests; when both are answered before the next poll, the first chunk is lost.
chunk_lost :
    Reader.Lossless.run {T = ℕ}
      (polled
        ∷ polled
        ∷ begun false
        ∷ stored (some 1)
        ∷ begun false
        ∷ stored (some 2)
        ∷ polled
        ∷ [])
      new_reader
    ≡ pending ∷ pending ∷ ready (some (ok 2)) ∷ []
unfolding Reader.Lossless.run new_reader
chunk_lost = refl

-- An answer with a last chunk and the flag together: a poll between the two writes ends the stream before
-- the chunk is there.
end_before_chunk :
    Reader.Lossless.run {T = ℕ} (polled ∷ begun true ∷ polled ∷ stored (some 1) ∷ []) new_reader
    ≡ pending ∷ ready none ∷ []
unfolding Reader.Lossless.run new_reader
end_before_chunk = refl

-- Nothing is taken from an answer that was not asked for.
not_asked :
    Reader.Lossless.run {T = ℕ} (begun false ∷ stored (some 1) ∷ polled ∷ []) new_reader
    ≡ pending ∷ []
unfolding Reader.Lossless.run new_reader
not_asked = refl

abbrev chunks : List (Result ℕ × (ℕ × ℕ))
chunks = (ok 1, (1, 2)) ∷ (err (new Status.generic_failure "no"), (0, 0)) ∷ (ok 2, (0, 1)) ∷ []

run-script_example :
    Reader.Lossless.run {T = ℕ} (polls 2 (script chunks (1, 1))) new_reader
    ≡ repeated 2 pending (expected chunks (1, 1))
run-script_example = run-script 1 chunks (1, 1)

abbrev items : List (Result ℕ)
items = ok 1 ∷ err (new Status.generic_failure "no") ∷ ok 2 ∷ []

abbrev one_pull : List Source.Event
one_pull = pull_called ∷ lock_taken ∷ item_ready ∷ callback true ∷ pull_called ∷ []

run-new_source_example :
    (Source.run one_pull (new_source items)).enqueued
      ++ (value_got (Source.run one_pull (new_source items)).pull
          ++ values_left (Source.run one_pull (new_source items)).stream)
    ≡ values_of items
run-new_source_example = run-new_source items one_pull (tt, (tt, (tt, (refl, (tt, tt)))))
