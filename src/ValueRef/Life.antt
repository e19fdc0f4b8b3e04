-- ===== src/ValueRef/Life.antt =====
-- An instance and its references under every sequence of events.
use ohos_rs.Common.{
  ℕ, zero, suc, ◌+◌, ◌-◌, ◌≤◌, ◌==◌, ◌&&◌, not, ltb, if◌then◌else◌, Bool, true, false, List, [],
  ◌∷◌, ◌≡◌, refl, arith, All,
}
use Prim.Native.String.{String}
use ohos_rs.Common.Int.{ℤ}
use ohos_rs.Error.{Result, ok, err, is_ok, check_status}
use ohos_rs.ValueRef.{
  Store, construct, take_handle, from_value_ptr, clone_reference, upgrade, drop_reference,
  share_with, raw_finalize,
}

pub data Event : Type 0 where
  get_reference : ℤ → String → Event
  clone : ℤ → Event
  upgrade_weak : ℤ → Event
  drop : ℤ → Event
  share : ℤ → Result ℕ → Event
  collected : Result (Unit {0}) → Event
  exited : Result (Unit {0}) → Event

-- A handle is needed for a clone, a drop and a share. The engine finalizes an instance once: it collects
-- it only while its count is 0, and at the exit of the process whatever the count is.
unfoldable pub step : Event → Store → Store
unfolding from_value_ptr clone_reference upgrade drop_reference share_with raw_finalize
step (get_reference r text) s = (from_value_ptr r text s).1
step (clone r) s = if ltb 0 s.handles then (clone_reference r s).1 else s
step (upgrade_weak r) s = (upgrade r s).1
step (drop r) s = if ltb 0 s.handles then drop_reference r s else s
step (share r v) s = if ltb 0 s.handles then (share_with r v s).1 else s
step (collected r) s = if s.count == 0 && s.freed == 0 then raw_finalize r s else s
step (exited r) s = if s.freed == 0 then raw_finalize r s else s

unfoldable pub run : List Event → Store → Store
unfolding step
run [] s = s
run (e ∷ es) s = run es (step e s)

unfoldable pub drops : ℕ → ℤ → List Event
drops zero r = []
drops (suc n) r = drop r ∷ drops n r

-- While the process runs: the engine accepts every unref, and the instance's own `finalize` succeeds; a
-- new reference may be refused.
abbrev pub Accepts : Event → Type 0
Accepts (get_reference _ _) = Unit
Accepts (clone _) = Unit
Accepts (upgrade_weak _) = Unit
Accepts (drop r) = is_ok r ≡ true
Accepts (share r _) = is_ok r ≡ true
Accepts (collected r) = r ≡ ok tt
Accepts (exited _) = ⊥

abbrev count : Bool → ℕ
count true = 1
count false = 0

-- The engine counts the handles; the entry is gone once the instance is.
record IsSound (s : Store) : Type 0 where
  counted : s.count ≡ s.handles
  strongly : s.strong ≡ s.handles + count s.mapped
  entry : s.freed ≡ count (not s.mapped)
  gone : s.mapped ≡ false → s.handles ≡ 0
  deletions : s.deleted ≡ s.freed
  never_late : s.late ≡ 0
  never_dangling : s.dangling ≡ 0
  drops : s.dropped ≡ (if s.mapped then [] else s.shared)

step-IsSound : (e : Event) (s : Store) → Accepts e → IsSound s → IsSound (step e s)
unfolding step from_value_ptr clone_reference upgrade drop_reference share_with raw_finalize
    take_handle check_status
step-IsSound (get_reference r text) s a i = ground arith
step-IsSound (clone r) s a i = ground arith
step-IsSound (upgrade_weak r) s a i = ground arith
step-IsSound (drop r) s a i = ground arith
step-IsSound (share r (ok v)) s a i = ground arith
step-IsSound (share r (err e)) s a i = ground arith
step-IsSound (collected r) s a i = ground arith
step-IsSound (exited r) s a i = absurd a

run-IsSound : (es : List Event) (s : Store) → All Accepts es → IsSound s → IsSound (run es s)
unfolding run
run-IsSound [] s a i = i
run-IsSound (e ∷ es) s a i = run-IsSound es (step e s) a.1 (step-IsSound e s a.0 i)

construct-IsSound : IsSound construct
unfolding construct
construct-IsSound = record {
  counted = refl;
  strongly = refl;
  entry = refl;
  gone = λ p. refl;
  deletions = refl;
  never_late = refl;
  never_dangling = refl;
  drops = refl;
}

-- After the exit of the process: no entry is left, and the handles alone share the finalize callback.
record IsOver (s : Store) (k late : ℕ) : Type 0 where
  held : s.handles ≡ k
  strongly : s.strong ≡ k
  was_freed : s.freed ≡ 1
  was_deleted : s.deleted ≡ 1
  calls : s.late ≡ late
  never_dangling : s.dangling ≡ 0
  drops : s.dropped ≡ s.shared

exited-IsOver : (s : Store) → IsSound s → IsOver (step (exited (ok tt)) s) s.handles 0
unfolding step raw_finalize
exited-IsOver s i = ground arith

-- A drop calls the engine unless it is the last one.
drop-IsOver :
    (r : ℤ) (s : Store) (k late : ℕ)
    → IsOver s (suc k) late
    → IsOver (step (drop r) s) k (late + (if k == 0 then 0 else 1))
unfolding step drop_reference
drop-IsOver r s k late i = ground arith

run_drops-IsOver :
    (r : ℤ) (n : ℕ) (s : Store) (late : ℕ)
    → IsOver s n late
    → IsOver (run (drops n r) s) 0 (late + (n - 1))
unfolding run drops
run_drops-IsOver r zero s late i = ground arith
run_drops-IsOver r (suc n) s late i = ground (
  arith,
  run_drops-IsOver r n (step (drop r) s) (late + (if n == 0 then 0 else 1))
      (drop-IsOver r s n late i),
)

running :
    (s : Store)
    → IsSound s
    → (s.late ≡ 0)
      × (s.dangling ≡ 0)
      × (s.freed ≤ 1)
      × (s.deleted ≡ s.freed)
      × (s.dropped ≡ (if s.freed == 0 then [] else s.shared))
running s i = ground arith

exiting :
    (r : ℤ) (s : Store)
    → IsSound s
    → let t = run (exited (ok tt) ∷ drops s.handles r) s in
      (t.late ≡ s.handles - 1)
      × (t.dangling ≡ 0)
      × (t.freed ≡ 1)
      × (t.deleted ≡ 1)
      × (t.dropped ≡ t.shared)
unfolding run
exiting r s i =
    let o = run_drops-IsOver r s.handles (step (exited (ok tt)) s) 0 (exited-IsOver s i) in
    ground arith

-- However an instance is referenced, cloned, upgraded, shared, dropped and collected while the process
-- runs, no call is made on its reference once that is deleted, and no handle is made for it once it is
-- freed. It is freed at most once, its reference is deleted as often, and the values that were shared
-- from it are dropped when it is freed, once each, the newest first. If the process then
-- exits and all references that are left are dropped, it is freed and its reference deleted exactly
-- once, its shared values are dropped, and of these drops all but the last call the engine on the deleted
-- reference. The engine has to collect an instance only while its count is
-- 0 and to accept every unref before the exit, and the `finalize` of the instance to succeed.
pub run_never_dangling :
    (es : List Event) (r : ℤ)
    → All Accepts es
    → let s = run es construct in
      let t = run (exited (ok tt) ∷ drops s.handles r) s in
      ((s.late ≡ 0)
        × (s.dangling ≡ 0)
        × (s.freed ≤ 1)
        × (s.deleted ≡ s.freed)
        × (s.dropped ≡ (if s.freed == 0 then [] else s.shared)))
      × ((t.late ≡ s.handles - 1)
          × (t.dangling ≡ 0)
          × (t.freed ≡ 1)
          × (t.deleted ≡ 1)
          × (t.dropped ≡ t.shared))
run_never_dangling es r a =
    let i = run-IsSound es construct a construct-IsSound in
    (running (run es construct) i, exiting r (run es construct) i)
