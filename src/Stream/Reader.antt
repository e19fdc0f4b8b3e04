-- ===== src/Stream/Reader.antt =====
-- `Reader`: each `poll_next` asks JavaScript for a chunk, and hands out the chunk that an earlier request
-- has left in the state that they share.
pub mod Lossless
use ohos_rs.Common.{
  ℕ, ◌+◌, ◌-◌, if◌then◌else◌, Bool, true, false, Option, none, some, List, [], ◌∷◌, ◌++◌,
}
use ohos_rs.Error.{Error, Result, ok, err}

-- The shared state, the number of requests that are not answered yet, and whether an answer is between
-- its two writes.
pub record Reader (T : Type 0) : Type 0 where
  pub chunk : Result (Option T)
  pub done : Bool
  pub requests : ℕ
  pub answering : Bool

-- `Poll`.
pub data Poll (T : Type 0) : Type 0 where
  pending : Poll T
  ready : Option (Result T) → Poll T

module _ {T : Type 0} where
  unfoldable pub new_reader : Reader T
  new_reader = record { chunk = ok none; done = false; requests = 0; answering = false }

  abbrev poll_of : Poll T → Result (Option T) → Poll T
  poll_of empty (ok (some v)) = ready (some (ok v))
  poll_of empty (ok none) = empty
  poll_of empty (err e) = ready (some (err e))

  -- `poll_next`; the chunk is taken out of the state. A poll that finds the stream done asks for no
  -- chunk.
  unfoldable pub poll_next : Reader T → Poll T × Reader T
  poll_next r =
      if r.done
      then (poll_of (ready none) r.chunk, record r { chunk = ok none })
      else (poll_of pending r.chunk, record r { chunk = ok none; requests = r.requests + 1 })

  -- The callback of `then`, with the fields of an `IteratorValue`, writes the flag and then the chunk; a
  -- poll of another thread may come in between.
  unfoldable pub on_done : Bool → Reader T → Reader T
  on_done done r =
      let s = record r { requests = r.requests - 1; answering = true } in
      if done then record s { done = true } else s

  unfoldable pub on_chunk : Option T → Reader T → Reader T
  on_chunk value r =
      let s = record r { answering = false } in
      elim value [ some x ↦ record s { chunk = ok (some x) } | none ↦ s ]

  -- The callback of `catch`.
  unfoldable pub on_error : Error → Reader T → Reader T
  on_error e r = record r { chunk = err e; requests = r.requests - 1 }
