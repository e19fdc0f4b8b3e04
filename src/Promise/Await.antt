-- ===== src/Promise/Await.antt =====
-- A JavaScript promise that Rust awaits: `Promise::from_napi_value` puts a sender into the callbacks of
-- `then` and `catch`, and `poll` reads what was sent. A promise of JavaScript calls the first callback
-- when it is fulfilled, and the second when it is rejected or when the first throws.
use Prim.Native.String.{String}
use ohos_rs.Common.{
  ℕ, if◌then◌else◌, Bool, true, false, Option, none, some, List, [], ◌∷◌, ◌++◌, ◌≡◌, arith,
}
use ohos_rs.Common.Int.{ℤ}
use ohos_rs.Status.{Status}
use ohos_rs.Error.{Result, ok, err, new, check_status, is_ok}
use ohos_rs.Error.Import.{Values, import_value}
use ohos_rs.Promise.Raw.{new_boxes, handle_callback, throw_error}

-- What the engine answers: the callback infos, the conversion of a value, the error with a code and a
-- message that it makes, and `undefined`, which both callbacks return. `canceled` is the text of the
-- channel's error.
pub record Site (T : Type 0) : Type 0 where
  pub then_info : ℤ
  pub catch_info : ℤ
  pub from_napi_value : ℕ → Result T
  pub values : Values
  pub make_error : String × String → ℕ
  pub is_empty : String → Bool
  pub undefined : Result ℕ
  pub canceled : String

-- The cell of the sender that both callbacks share, and what was sent.
pub record Channel (T : Type 0) : Type 0 where
  pub has_sender : Bool
  pub sent : List (Result T)

abbrev pub new_channel : {T : Type 0} → Channel T
new_channel = record { has_sender = true; sent = [] }

unfoldable pub send : {T : Type 0} → Result T → Channel T → Channel T
send r c = if c.has_sender then record { has_sender = false; sent = c.sent ++ r ∷ [] } else c

-- How a promise of JavaScript ends: with a value, or with the reason of its rejection.
pub data JsEnd : Type 0 where
  fulfilled rejected : ℕ → JsEnd

module _ {T : Type 0} (site : Site T) where
  -- The callback of `then`: the value that it throws, if any, and the channel.
  unfoldable pub then_callback : ℕ → Channel T → Option ℕ × Channel T
  unfolding handle_callback throw_error send
  then_callback v c =
      let value = site.from_napi_value v in
      let (result, b) =
        handle_callback "Get callback info from then callback failed" site.then_info value
          (λ _. ok tt) (λ _. site.undefined) new_boxes in
      (
        elim result [
          | ok _ ↦ none
          | err e ↦ some (site.make_error (throw_error e site.is_empty "Error in Promise.then"))
        ],
        elim value [ err _ ↦ c | ok t ↦ if b.executed then send (ok t) c else c ],
      )

  -- The callback of `catch`, whose argument is converted to an error.
  unfoldable pub catch_callback : ℕ → Channel T → Channel T
  unfolding handle_callback send import_value
  catch_callback x c =
      let (result, b) =
        handle_callback "Get callback info from catch callback failed" site.catch_info (ok x)
          (λ _. ok tt) (λ _. site.undefined) new_boxes in
      if b.executed then send (err (import_value site.values x).0) c else c

  -- The callbacks that run for the end of the JavaScript promise, on a new channel.
  unfoldable pub callbacks : JsEnd → Channel T
  unfolding then_callback catch_callback
  callbacks (fulfilled v) =
      let (thrown, c) = then_callback v new_channel in
      elim thrown [ none ↦ c | some x ↦ catch_callback x c ]
  callbacks (rejected x) = catch_callback x new_channel

  -- `poll`, when the callbacks are gone; nothing sent is a sender that was dropped.
  unfoldable pub poll : Channel T → Result T
  unfolding new
  poll c = elim c.sent [ [] ↦ err (new Status.generic_failure site.canceled) | r ∷ _ ↦ r ]

  -- What an await is meant to yield.
  unfoldable pub awaited : JsEnd → Result T
  unfolding throw_error import_value
  awaited (fulfilled v) = elim (site.from_napi_value v) [
    | ok t ↦ ok t
    | err e ↦
        err
          (import_value site.values
            (site.make_error (throw_error e site.is_empty "Error in Promise.then"))).0
  ]
  awaited (rejected x) = err (import_value site.values x).0

  -- One result is sent for a promise that ends, and the await yields it: the value of a promise that
  -- is fulfilled; when this cannot be converted, the error that JavaScript makes of that failure; and
  -- the error of a promise that is rejected. The engine has to hand the callbacks their arguments.
  pub callbacks-awaited :
      (end : JsEnd)
      → is_ok site.then_info ≡ true
      → is_ok site.catch_info ≡ true
      → ((callbacks end).sent ≡ awaited end ∷ []) × (poll (callbacks end) ≡ awaited end)
  unfolding callbacks then_callback catch_callback handle_callback send check_status awaited poll
  callbacks-awaited (fulfilled v) t c = ground (arith, t, c)
  callbacks-awaited (rejected x) t c = ground (arith, t, c)
