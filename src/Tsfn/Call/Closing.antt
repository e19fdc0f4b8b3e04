-- ===== src/Tsfn/Call/Closing.antt =====
-- No call of any kind reaches the engine through an aborted handle.
use Prim.Native.String.{String}
use ohos_rs.Common.{ℕ, true, [], ◌≡◌, Option}
use ohos_rs.Common.Int.{ℤ}
use ohos_rs.Status.{Status}
use ohos_rs.Error.{Result, err, from_status}
use ohos_rs.Tsfn.Handle.{Handle}
use ohos_rs.Tsfn.Call.{
  CallMode, Priority, call, call_with_return_value, call_with_priority, call_fatal,
  call_with_return_value_fatal, call_with_priority_fatal, call_async, call_async_fatal,
}

module _ {T R : Type 0} where
  -- On an aborted handle every kind of call, with or without `CalleeHandled`, reports `Closing` and
  -- queues nothing, whatever the engine would answer and whatever the channel holds.
  pub aborted_refuses :
      (h : Handle) (v : Result T) (t : T) (m : CallMode) (p : Priority) (i : ℕ) (reply : ℤ)
      (canceled : String) (o : Option (Result R)) (o' : Option R)
      → h.aborted ≡ true
      → (call T h v m reply ≡ (Status.closing, []))
        × (call_with_return_value T h v m i reply ≡ (Status.closing, []))
        × (call_with_priority T h v p reply ≡ (Status.closing, []))
        × (call_fatal T h t m reply ≡ (Status.closing, []))
        × (call_with_return_value_fatal T h t m i reply ≡ (Status.closing, []))
        × (call_with_priority_fatal T h t p reply ≡ (Status.closing, []))
        × (call_async T R h v reply o ≡ (err (from_status Status.closing), []))
        × (call_async_fatal T R canceled h t reply o' ≡ (err (from_status Status.closing), []))
  unfolding call call_with_return_value call_with_priority call_fatal call_with_return_value_fatal
      call_with_priority_fatal call_async call_async_fatal
  aborted_refuses h v t m p i reply canceled o o' a =
      (simp a, simp a, simp a, simp a, simp a, simp a, simp a, simp a)
