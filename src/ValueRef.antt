-- ===== src/ValueRef.antt =====
-- The references to an instance of a class in
-- crates/napi/src/bindgen_runtime/js_values/value_ref.rs: `Reference` and `WeakReference`, the entry of the
-- map of references, and `raw_finalize_unchecked` of crates/napi/src/bindgen_runtime/mod.rs, which the
-- engine calls when the instance is collected. One instance is followed; the numbers are the engine's
-- statuses.
pub mod Life
mod Tests
use Prim.Native.String.{String}
use ohos_rs.Common.{
  ℕ, ◌+◌, ◌-◌, ◌==◌, ltb, if◌then◌else◌, Bool, true, false, Option, none, some, List, [], ◌∷◌, ◌++◌,
}
use ohos_rs.Common.Int.{ℤ}
use ohos_rs.Status.{Status}
use ohos_rs.Error.{Error, Result, ok, err, new, check_status, is_ok}

-- `mapped` says whether the map has the entry, `strong` is the count of the shared finalize callback,
-- which the entry shares too, `count` the engine's count of the reference, and `shared` the
-- values that the finalize callback drops, the newest first. The others are observed: whether the
-- instance was freed, the values that were dropped, the deletions of the reference, the calls made on it
-- afterwards, and the handles made for a freed instance.
pub record Store : Type 0 where
  pub mapped : Bool
  pub strong : ℕ
  pub count : ℕ
  pub shared : List ℕ
  pub handles : ℕ
  pub freed : ℕ
  pub dropped : List ℕ
  pub deleted : ℕ
  pub late : ℕ
  pub dangling : ℕ

-- What `_construct` leaves: the engine's count is 0.
unfoldable pub construct : Store
construct = record {
  mapped = true;
  strong = 1;
  count = 0;
  shared = [];
  handles = 0;
  freed = 0;
  dropped = [];
  deleted = 0;
  late = 0;
  dangling = 0;
}

-- A call on the reference.
abbrev touch : Store → Store
touch s = record s { late = s.late + (if ltb 0 s.deleted then 1 else 0) }

-- `napi_reference_ref`, and the handle that is made of it.
unfoldable pub take_handle : ℤ → String → Store → Result (Unit {0}) × Store
unfolding check_status
take_handle reply text s =
    let t = touch s in
    elim (check_status reply text) [
      | err e ↦ (err e, t)
      | ok _ ↦ (
        ok tt,
        record t {
          count = t.count + 1;
          strong = t.strong + 1;
          handles = t.handles + 1;
          dangling = t.dangling + (if ltb 0 t.freed then 1 else 0);
        },
      )
    ]

-- `Reference::from_value_ptr`.
unfoldable pub from_value_ptr : ℤ → String → Store → Result (Unit {0}) × Store
unfolding take_handle new
from_value_ptr reply not_found s =
    if s.mapped
    then take_handle reply "Failed to ref napi reference" s
    else (err (new Status.invalid_arg not_found), s)

-- `Reference::clone`.
unfoldable pub clone_reference : ℤ → Store → Result (Unit {0}) × Store
unfolding take_handle
clone_reference reply s = take_handle reply "Failed to ref napi reference" s

-- `WeakReference::upgrade`; the second component of the result says whether there is a reference.
unfoldable pub upgrade : ℤ → Store → Result Bool × Store
unfolding take_handle
upgrade reply s =
    if ltb 0 s.strong
    then (let (r, t) = take_handle reply "Failed to ref napi reference" s in
        (elim r [ ok _ ↦ ok true | err e ↦ err e ], t))
    else (ok false, s)

-- `Drop for Reference`.
unfoldable pub drop_reference : ℤ → Store → Store
drop_reference reply s =
    let t =
      if ltb 1 s.strong
      then (let u = touch s in if is_ok reply then record u { count = u.count - 1 } else u)
      else s in
    record t { strong = t.strong - 1; handles = t.handles - 1 }

-- `share_with`, of a reference or of a shared one, which it consumes: on an error of the closure the
-- reference is dropped, with the reply to its unref.
unfoldable pub share_with : ℤ → Result ℕ → Store → Result (Unit {0}) × Store
unfolding drop_reference
share_with reply (err e) s = (err e, drop_reference reply s)
share_with reply (ok v) s = (ok tt, record s { shared = v ∷ s.shared })

-- `raw_finalize_unchecked`, with the result of the instance's own `finalize`.
unfoldable pub raw_finalize : Result (Unit {0}) → Store → Store
raw_finalize (err e) s = record s { freed = s.freed + 1 }
raw_finalize (ok _) s =
    let t = record s { freed = s.freed + 1 } in
    if s.mapped
    then (let u = touch t in
        record u {
          mapped = false;
          strong = u.strong - 1;
          dropped = u.dropped ++ u.shared;
          deleted = u.deleted + 1;
        })
    else t
