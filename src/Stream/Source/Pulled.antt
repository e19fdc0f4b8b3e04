-- ===== src/Stream/Source/Pulled.antt =====
-- What JavaScript gets of a Rust stream.
use ohos_rs.Common.{
  ℕ, true, false, Option, none, some, List, [], ◌∷◌, ◌++◌, ◌≡◌, refl, arith, All, ap, ◌∙◌, sym,
  subst,
}
use mathlib.Core.List.{append_assoc}
use ohos_rs.Error.{Result, ok, err}
use ohos_rs.Stream.Source.{
  Pull, idle, spawned, locked, got, Source, Event, pull_called, lock_taken, item_ready,
  cancel_called, callback, new_source, next_item, finish_pull, begin_pull, cancel_callback, step,
  run,
}

-- The events of a stream that is not cancelled and whose controller accepts each call.
abbrev pub Accepts : Event → Type 0
Accepts pull_called = Unit
Accepts lock_taken = Unit
Accepts item_ready = Unit
Accepts (callback accepted) = accepted ≡ true
Accepts cancel_called = ⊥

module _ {T : Type 0} where
  -- The source is cancelled, and JavaScript has got this.
  record IsStopped (out : List T) (closes : ℕ) (s : Source T) : Type 0 where
    stopped : s.cancelled ≡ true
    same_out : s.enqueued ≡ out
    same_closes : s.closes ≡ closes

  step-IsStopped :
      (out : List T) (n : ℕ) (e : Event) (s : Source T)
      → IsStopped out n s
      → IsStopped out n (step e s)
  unfolding step begin_pull next_item finish_pull cancel_callback
  step-IsStopped out n pull_called s i = ground arith
  step-IsStopped out n lock_taken s i = ground arith
  step-IsStopped out n item_ready s i = ground arith
  step-IsStopped out n (callback accepted) s i = ground arith
  step-IsStopped out n cancel_called s i = ground arith

  run-IsStopped :
      (out : List T) (n : ℕ) (es : List Event) (s : Source T)
      → IsStopped out n s
      → IsStopped out n (run es s)
  unfolding run
  run-IsStopped out n [] s i = i
  run-IsStopped out n (e ∷ es) s i = run-IsStopped out n es (step e s) (step-IsStopped out n e s i)

  cancel_callback-IsStopped : (s : Source T) → IsStopped s.enqueued s.closes (cancel_callback s)
  unfolding cancel_callback
  cancel_callback-IsStopped s = ground arith

  -- Once JavaScript has cancelled a stream, nothing is enqueued to it any more and it is not closed,
  -- whatever state a pull that is under way has reached, and whatever happens later.
  pub run-cancel_callback :
      (es : List Event) (s : Source T)
      → ((run es (cancel_callback s)).enqueued ≡ s.enqueued)
        × ((run es (cancel_callback s)).closes ≡ s.closes)
  run-cancel_callback es s =
      let i =
        run-IsStopped s.enqueued s.closes es (cancel_callback s) (cancel_callback-IsStopped s) in
      (i.same_out, i.same_closes)

  -- The values among the items of a stream.
  unfoldable pub values_of : List (Result T) → List T
  values_of [] = []
  values_of (ok x ∷ items) = x ∷ values_of items
  values_of (err e ∷ items) = values_of items

  -- The value that waits for its callback, and the values that are left in the stream.
  unfoldable pub value_got : Pull T → List T
  value_got (got (ok (some x))) = x ∷ []
  value_got (got (ok none)) = []
  value_got (got (err e)) = []
  value_got idle = []
  value_got spawned = []
  value_got locked = []

  unfoldable pub values_left : Option (List (Result T)) → List T
  unfolding values_of
  values_left none = []
  values_left (some items) = values_of items

  next_item-values :
      (o : Option (List (Result T)))
      → value_got (got (next_item o).0) ++ values_left (next_item o).1 ≡ values_left o
  unfolding next_item value_got values_left values_of
  next_item-values none = refl
  next_item-values (some []) = refl
  next_item-values (some (ok x ∷ items)) = refl
  next_item-values (some (err e ∷ items)) = refl

  next_item-ended :
      (o : Option (List (Result T))) → (next_item o).0 ≡ ok none → values_left (next_item o).1 ≡ []
  unfolding next_item values_left values_of
  next_item-ended none h = refl
  next_item-ended (some []) h = refl
  next_item-ended (some (ok x ∷ items)) h = absurd (cc)
  next_item-ended (some (err e ∷ items)) h = absurd (cc)

  got-same : (r : Result (Option T)) → got r ≡ got (ok none) → r ≡ ok none
  got-same r h = cc

  -- Nothing of the stream is lost or passed on twice.
  record IsTracked (items : List (Result T)) (s : Source T) : Type 0 where
    live : s.cancelled ≡ false
    order : s.enqueued ++ (value_got s.pull ++ values_left s.stream) ≡ values_of items
    ended : s.pull ≡ got (ok none) → values_left s.stream ≡ []

  -- The order, with the pull that is under way.
  order_at :
      (items : List (Result T)) (s : Source T) (p : Pull T)
      → IsTracked items s
      → s.pull ≡ p
      → s.enqueued ++ (value_got p ++ values_left s.stream) ≡ values_of items
  order_at items s p i e =
      subst (λ x. s.enqueued ++ (value_got x ++ values_left s.stream) ≡ values_of items) e i.order

  item-IsTracked :
      (items : List (Result T)) (s : Source T)
      → IsTracked items s
      → s.pull ≡ locked
      → IsTracked items
          (record s { pull = got (next_item s.stream).0; stream = (next_item s.stream).1 })
  item-IsTracked items s i e = record {
    live = i.live;
    order =
        ap (λ x. s.enqueued ++ x) (next_item-values s.stream)
        ∙ (unfold value_got in order_at items s locked i e);
    ended = λ h. next_item-ended s.stream (got-same (next_item s.stream).0 h);
  }

  finish_pull-IsTracked :
      (items : List (Result T)) (s : Source T) (r : Result (Option T))
      → IsTracked items s
      → s.pull ≡ got r
      → IsTracked items (finish_pull true r s)
  unfolding finish_pull value_got values_left
  finish_pull-IsTracked items s (err e) i h = record {
    live = i.live;
    order = order_at items s (got (err e)) i h;
    ended = λ p. absurd (cc);
  }
  finish_pull-IsTracked items s (ok (some x)) i h = rw (i.live) (record {
    live = refl;
    order =
        append_assoc s.enqueued (x ∷ []) (value_got idle ++ values_left s.stream)
        ∙ (order_at items s (got (ok (some x))) i h);
    ended = λ p. absurd (cc);
  })
  finish_pull-IsTracked items s (ok none) i h = rw (i.live) (record {
    live = refl;
    order = ap (λ x. s.enqueued ++ x) (sym (i.ended h)) ∙ (order_at items s (got (ok none)) i h);
    ended = λ p. absurd (cc);
  })

  step-IsTracked :
      (items : List (Result T)) (e : Event) (s : Source T)
      → Accepts e
      → IsTracked items s
      → IsTracked items (step e s)
  unfolding step begin_pull value_got
  step-IsTracked items pull_called s a i = ground arith
  step-IsTracked items lock_taken s a i = ground arith
  step-IsTracked items item_ready s a i = ground (arith, item-IsTracked items s i)
  step-IsTracked items (callback accepted) s a i =
      elim s.pull
          as (λ p.
            s.pull ≡ p → IsTracked items (elim p [ got r ↦ finish_pull accepted r s | _ ↦ s ])) [
              | idle ↦ λ h. i
              | spawned ↦ λ h. i
              | locked ↦ λ h. i
              | got r ↦ λ h. rw a (finish_pull-IsTracked items s r i h)
            ]
        refl
  step-IsTracked items cancel_called s a i = absurd a

  run-IsTracked :
      (items : List (Result T)) (es : List Event) (s : Source T)
      → All Accepts es
      → IsTracked items s
      → IsTracked items (run es s)
  unfolding run
  run-IsTracked items [] s a i = i
  run-IsTracked items (e ∷ es) s a i =
      run-IsTracked items es (step e s) a.1 (step-IsTracked items e s a.0 i)

  -- As long as JavaScript does not cancel a stream and accepts what it is given, it gets the values of the
  -- stream in their order, each once: those that were enqueued, the one whose callback is due, and those
  -- that are left in the stream are together all its values, however pulls and their futures are
  -- interleaved. An error among the items fails its pull and is no value.
  pub run-new_source :
      (items : List (Result T)) (es : List Event)
      → All Accepts es
      → (run es (new_source items)).enqueued
          ++ (value_got (run es (new_source items)).pull
              ++ values_left (run es (new_source items)).stream)
        ≡ values_of items
  run-new_source items es a =
      (run-IsTracked items es (new_source items) a (
        unfold new_source value_got values_left in
        record { live = refl; order = refl; ended = λ p. absurd (cc) })).order
