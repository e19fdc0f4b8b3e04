-- ===== src/Tsfn/Handle.antt =====
-- `ThreadsafeFunctionHandle`, `ThreadsafeFunction::create`, `abort`, `Drop` and `thread_finalize_cb`.
pub mod Creation
use ohos_rs.Common.{ℕ, ◌==◌, if◌then◌else◌, Bool, true, false, not, List, [], ◌∷◌, ◌++◌}
use ohos_rs.Common.Int.{ℤ, pos, negsuc}
use ohos_rs.Error.{Error, Result, ok, err, ◌>>=◌, check_status, is_ok}

-- `raw` is 0 for the null pointer.
pub record Handle : Type 0 where
  pub raw : ℕ
  pub aborted : Bool

unfoldable pub new_handle : ℕ → Handle
new_handle raw = record { raw = raw; aborted = false }

pub data ReleaseMode : Type 0 where
  release abort : ReleaseMode

pub data EngineCall : Type 0 where
  create_name create_tsfn : EngineCall
  unref_tsfn : ℕ → EngineCall
  release_tsfn : ℕ → ReleaseMode → EngineCall

-- An operation finishes with a result, or panics on a failed `assert!`.
pub data Outcome (A : Type 0) : Type 0 where
  finished : A → Outcome A
  panicked : Outcome A

-- `Drop for ThreadsafeFunctionHandle`, with the engine's answer to the release.
unfoldable pub drop_handle : Handle → ℤ → Outcome (Unit {0}) × List EngineCall
drop_handle h reply =
    if h.aborted then (finished tt, []) else if h.raw == 0 then (finished tt, []) else (
      if is_ok reply then finished tt else panicked,
      release_tsfn h.raw ReleaseMode.release ∷ [],
    )

-- `abort`, up to the drop of `self`.
unfoldable pub abort_handle : Handle → ℤ → Result (Unit {0}) × Handle × List EngineCall
abort_handle h reply = if h.aborted then (ok tt, h, []) else elim (check_status reply "") [
  | ok _ ↦ (ok tt, record h { aborted = true }, release_tsfn h.raw ReleaseMode.abort ∷ [])
  | err e ↦ (err e, h, release_tsfn h.raw ReleaseMode.abort ∷ [])
]

-- `thread_finalize_cb` on a handle that is still alive.
unfoldable pub finalize_handle : Handle → Handle
finalize_handle h = if not h.aborted then record h { aborted = true } else h

-- What the engine answers to `create`, in the order of the calls.
pub record CreateReplies : Type 0 where
  pub name : ℤ
  pub created : ℤ
  pub unref : ℤ
  pub released : ℤ
  pub raw : ℕ

-- A failed step drops the handle that exists by then.
abandon : Error → Handle → ℤ → List EngineCall → Outcome (Result Handle) × List EngineCall
unfolding drop_handle
abandon e h reply made =
    let (dropped, calls) = drop_handle h reply in
    (elim dropped [ finished _ ↦ finished (err e) | panicked ↦ panicked ], made ++ calls)

-- The last step, on the handle of the function that the engine created.
unref_if_weak : Bool → CreateReplies → Handle → Outcome (Result Handle) × List EngineCall
unfolding abandon
unref_if_weak weak r h =
    if weak
    then elim (check_status r.unref "Unref threadsafe function failed in Weak mode") [
      | ok _ ↦ (finished (ok h), create_name ∷ create_tsfn ∷ unref_tsfn h.raw ∷ [])
      | err e ↦ abandon e h r.released (create_name ∷ create_tsfn ∷ unref_tsfn h.raw ∷ [])
    ]
    else (finished (ok h), create_name ∷ create_tsfn ∷ [])

unfoldable pub create : Bool → CreateReplies → Outcome (Result Handle) × List EngineCall
unfolding new_handle abandon unref_if_weak
create weak r =
    elim (check_status r.name "Create string utf8 in ThreadsafeFunction::create failed") [
      | err e ↦ (finished (err e), create_name ∷ [])
      | ok _ ↦
          elim (check_status r.created
            "Create threadsafe function in ThreadsafeFunction::create failed") [
              | err e ↦ abandon e (new_handle 0) r.released (create_name ∷ create_tsfn ∷ [])
              | ok _ ↦ unref_if_weak weak r (record (new_handle 0) { raw = r.raw })
            ]
    ]
