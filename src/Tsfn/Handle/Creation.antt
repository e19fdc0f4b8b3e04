-- ===== src/Tsfn/Handle/Creation.antt =====
-- `create` hands out the engine's function or gives it back.
use ohos_rs.Common.{
  ◌||◌, not, ℕ, suc, ◌+◌, if◌then◌else◌, Bool, true, false, ◌&&◌, List, [], ◌∷◌, ◌≡◌, ◌≢◌, arith,
  ◌⊎◌,
}
use ohos_rs.Error.{Result, ok, err, check_status, is_ok}
use ohos_rs.Tsfn.Handle.{
  Handle, EngineCall, create_name, create_tsfn, unref_tsfn, release_tsfn, Outcome, finished,
  panicked, CreateReplies, create,
}

abbrev pub releases : List EngineCall → ℕ
releases [] = 0
releases (release_tsfn _ _ ∷ cs) = suc (releases cs)
releases (create_name ∷ cs) = releases cs
releases (create_tsfn ∷ cs) = releases cs
releases (unref_tsfn _ ∷ cs) = releases cs

abbrev pub handed : Outcome (Result Handle) → ℕ
handed (finished (ok _)) = 1
handed (finished (err _)) = 0
handed panicked = 0

-- The functions that the engine created.
abbrev pub created : CreateReplies → ℕ
created r = if is_ok r.name && is_ok r.created then 1 else 0

-- Each function that the engine created is either handed out or released, exactly once, however the
-- steps of `create` fail.
pub releases-create :
    (weak : Bool) (r : CreateReplies)
    → r.raw ≢ 0
    → releases (create weak r).1 + handed (create weak r).0 ≡ created r
unfolding create check_status
releases-create weak r h = ground arith

-- `create` succeeds exactly when the engine accepts every step, the one that makes the function weak
-- included; then the handle holds the engine's function and is not aborted. Else no handle is made.
pub create_succeeds :
    (weak : Bool) (r : CreateReplies)
    → (is_ok r.name && is_ok r.created && (not weak || is_ok r.unref) ≡ true)
        × ((create weak r).0 ≡ finished (ok (record { raw = r.raw; aborted = false })))
      ⊎ (is_ok r.name && is_ok r.created && (not weak || is_ok r.unref) ≡ false)
        × (handed (create weak r).0 ≡ 0)
unfolding create check_status
create_succeeds weak r = ground arith
