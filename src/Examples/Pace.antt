-- ===== src/Examples/Pace.antt =====
-- A list that is refreshed every second.
use playback_sync.Base.{true, false, ◌≡◌, refl, some, List, [], ◌∷◌}
use playback_sync.Number.Fixed.{Fixed, fixed_number, pos}
use playback_sync.Refresh.{
  Refresh, Event, framed, visibility, switched, called, stored, use_auto_refresh, enabled_changed,
  read_initial_enabled, truthy, store, schedule_tick, fire_and_reset, tick, switch, stop,
  on_visibility_change, step, run,
}
use playback_sync.Refresh.Paced.{IsPaced, run-IsPaced}
use playback_sync.Refresh.Frozen.{SameRing, run_frozen}

abbrev second : Fixed
second = some (pos 1000000)

abbrev mounted : Refresh Fixed
mounted = use_auto_refresh second (some "refresh") false (some "1") false (some (pos 0))

abbrev frames : List (Event Fixed)
frames =
    framed (some (pos 400000)) (some (pos 400000))
    ∷ framed (some (pos 1100000)) (some (pos 1101000))
    ∷ []

-- The second frame is past the end of the cycle.
fires : (run second (some "refresh") mounted frames).out ≡ called ∷ stored "refresh" "1" ∷ []
unfolding use_auto_refresh enabled_changed read_initial_enabled truthy store schedule_tick
    fire_and_reset tick switch stop on_visibility_change step run
fires = refl

abbrev absence : List (Event Fixed)
absence =
    visibility true (some (pos 600000))
    ∷ visibility false (some (pos 900000))
    ∷ framed (some (pos 950000)) (some (pos 950000))
    ∷ []

abbrev paused : Refresh Fixed
paused =
    run second (some "refresh") mounted
      (framed (some (pos 400000)) (some (pos 400000)) ∷ switched false (some (pos 500000)) ∷ [])

paused_progress : paused.progress ≡ some (pos 400)
unfolding use_auto_refresh enabled_changed read_initial_enabled truthy store schedule_tick
    fire_and_reset tick switch stop on_visibility_change step run
paused_progress = refl

is_paused : paused.enabled ≡ false
unfolding use_auto_refresh enabled_changed read_initial_enabled truthy store schedule_tick
    fire_and_reset tick switch stop on_visibility_change step run
is_paused = refl

run-IsPaced_example : IsPaced (run second (some "refresh") mounted frames)
run-IsPaced_example =
    run-IsPaced refl second (some "refresh") false (some "1") false (some (pos 0)) frames

run_frozen_example :
    SameRing (run second (some "refresh") paused absence) paused
    × SameRing
        (step second
          (some "refresh")
          (run second (some "refresh") paused absence)
          (switched true (some (pos 1000000))))
        paused
run_frozen_example =
    run_frozen second (some "refresh") paused absence (some (pos 1000000)) is_paused
      (refl, (refl, (refl, tt)))
