-- ===== src/ValueRef/Tests.antt =====
-- Runs of an instance and its references, and the theorem at a concrete input.
use ohos_rs.Common.{◌-◌, ◌≤◌, ◌==◌, if◌then◌else◌, List, [], ◌∷◌, ◌≡◌, refl}
use ohos_rs.Common.Int.{pos}
use ohos_rs.Status.{Status}
use ohos_rs.Error.{ok, err, new}
use ohos_rs.ValueRef.{construct}
use ohos_rs.ValueRef.Life.{
  Event, get_reference, clone, drop, share, collected, exited, drops, run, run_never_dangling,
}

abbrev events : List Event
events =
    get_reference (pos 0) "none"
    ∷ share (pos 0) (ok 5)
    ∷ clone (pos 0)
    ∷ drop (pos 0)
    ∷ share (pos 0) (ok 6)
    ∷ drop (pos 0)
    ∷ collected (ok tt)
    ∷ []

newest_first : (run events construct).dropped ≡ 6 ∷ 5 ∷ []
unfolding run construct
newest_first = refl

-- When the `finalize` of the instance fails, it is freed, but its entry stays, and a handle is made of it.
failed_finalize_dangles :
    (run
      (collected (err (new Status.generic_failure "no")) ∷ get_reference (pos 0) "none" ∷ [])
      construct).dangling
    ≡ 1
unfolding run construct
failed_finalize_dangles = refl

-- Two references at the exit: the first drop is a call on the deleted reference, the last is none.
abbrev at_exit : List Event
at_exit = get_reference (pos 0) "none" ∷ clone (pos 0) ∷ []

late_at_exit : (run (exited (ok tt) ∷ drops 2 (pos 0)) (run at_exit construct)).late ≡ 1
unfolding run construct drops
late_at_exit = refl

run_never_dangling_example :
    let s = run at_exit construct in
    let t = run (exited (ok tt) ∷ drops s.handles (pos 0)) s in
    ((s.late ≡ 0)
      × (s.dangling ≡ 0)
      × (s.freed ≤ 1)
      × (s.deleted ≡ s.freed)
      × (s.dropped ≡ (if s.freed == 0 then [] else s.shared)))
    × ((t.late ≡ s.handles - 1)
        × (t.dangling ≡ 0)
        × (t.freed ≡ 1)
        × (t.deleted ≡ 1)
        × (t.dropped ≡ t.shared))
run_never_dangling_example = run_never_dangling at_exit (pos 0) (tt, (tt, tt))
