-- ===== src/Tsfn/Report.antt =====
-- `handle_call_js_cb_status`: what becomes of the status that the JavaScript call left.
use ohos_rs.Common.{
  ◌&&◌, ◌==◌, if◌then◌else◌, Bool, true, false, ◌||◌, List, [], ◌∷◌, ◌≡◌, ◌≢◌, arith, ◌⊎◌, subst,
}
use ohos_rs.Common.Int.{ℤ, pos, negsuc}
use ohos_rs.Status.{Status, from_code, from_code-ten}
use ohos_rs.Error.{is_ok}
use ohos_rs.Tsfn.Handle.{Outcome, finished, panicked}

abbrev pub is_pending : ℤ → Bool
is_pending (pos c) = c == 10
is_pending (negsuc _) = false

-- What the engine answers, in the order of the calls.
pub record ReportReplies : Type 0 where
  pub cleared : ℤ
  pub code_string : ℤ
  pub message_string : ℤ
  pub error : ℤ
  pub fatal : ℤ

-- `raise_error` carries the status whose name is the code of the error that is raised.
pub data ReportEffect : Type 0 where
  clear_exception raise_exception : ReportEffect
  raise_error : Status → ReportEffect

-- The `assert!` on the answer of `napi_fatal_exception`.
check_raised : ℤ → Outcome (Unit {0})
check_raised stat = if is_ok stat || is_pending stat then finished tt else panicked

report_error : ℤ → ReportReplies → Outcome (Unit {0}) × List ReportEffect
unfolding check_raised
report_error status r =
    if is_ok r.code_string
    then if is_ok r.message_string
      then if is_ok r.error
        then (check_raised r.fatal, raise_error (from_code status) ∷ [])
        else (finished tt, [])
      else (finished tt, [])
    else (finished tt, [])

unfoldable pub handle_call_js_cb_status : ℤ → ReportReplies → Outcome (Unit {0}) × List ReportEffect
unfolding report_error check_raised
handle_call_js_cb_status status r =
    if is_ok status
    then (finished tt, [])
    else if is_pending status
    then if is_ok r.cleared
      then (check_raised r.fatal, clear_exception ∷ raise_exception ∷ [])
      else (panicked, clear_exception ∷ [])
    else report_error status r

-- A success raises nothing. A pending exception is cleared and then raised as itself, once, unless
-- it cannot be cleared. Any other status is raised once as an error of that status, unless the engine
-- refuses to make that error. The report panics only on an exception that cannot be cleared or on a
-- refused raise.
pub handle_call_js_cb_status_lem :
    (status : ℤ) (r : ReportReplies)
    → let (outcome, effects) = handle_call_js_cb_status status r in
      ((is_ok status ≡ true) × (outcome ≡ finished tt) × (effects ≡ [])
        ⊎ (is_pending status ≡ true)
          × ((is_ok r.cleared ≡ false) ⊎ (effects ≡ clear_exception ∷ raise_exception ∷ []))
        ⊎ (is_ok status || is_pending status ≡ false)
          × ((is_ok r.code_string && is_ok r.message_string && is_ok r.error ≡ false)
              ⊎ (effects ≡ raise_error (from_code status) ∷ [])))
      × ((outcome ≢ panicked)
          ⊎ (is_pending status ≡ true) × (is_ok r.cleared ≡ false)
          ⊎ (is_ok r.fatal || is_pending r.fatal ≡ false))
unfolding handle_call_js_cb_status
handle_call_js_cb_status_lem status r = (ground arith, ground arith)

pub from_code-pending : (c : ℤ) → is_pending c ≡ true → from_code c ≡ Status.pending_exception
from_code-pending (pos n) h =
    subst (λ k. from_code (pos k) ≡ Status.pending_exception) (ground arith) from_code-ten
from_code-pending (negsuc n) h = cc
