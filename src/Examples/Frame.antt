-- ===== src/Examples/Frame.antt =====
-- A concrete media frame: it joins a room, its player is nudged, and the room ends.
use playback_sync.Base.{true, false, ◌≡◌, refl, some, List, [], ◌∷◌}
use playback_sync.Number.Fixed.{Fixed, fixed_number}
use playback_sync.Protocol.Frames.{playing}
use playback_sync.Messages.{VideoState, nudge_rate}
use playback_sync.Media.{Media, new_media, active}
use playback_sync.Media.Runs.{Event, room, command, resolved, registered, nudge_timer, step, run}
use playback_sync.Media.Gates.{driven}
use playback_sync.Media.Outside.{run_outside}
use playback_sync.Media.Rates.{rate_of}
use playback_sync.Media.Restored.{by_timer, run_restored}
use playback_sync.Examples.{milli}

abbrev behind : VideoState Fixed
behind = record { current_pos = milli 12000; player_state = playing }

abbrev nudge : Event Fixed
nudge = command (nudge_rate (milli 12300)) (some behind) false

abbrev nudged_events : List (Event Fixed)
nudged_events = room true ∷ registered 0 ∷ resolved 0 ∷ nudge ∷ []

abbrev nudged_frame : Media Fixed
nudged_frame = run true new_media nudged_events

-- The player runs fast before its timer fires.
sped_up : (nudged_frame.state ≡ active 0 (some 0)) × (rate_of 0 nudged_frame.out ≡ milli 1050)
unfolding run step new_media
sped_up = (refl, refl)

run_restored_example : rate_of 0 (step true nudged_frame nudge_timer).out ≡ milli 1000
run_restored_example = run_restored true nudged_events nudge_timer 0 (some 0) by_timer sped_up.0

abbrev left_frame : Media Fixed
left_frame = run true new_media (room true ∷ registered 0 ∷ resolved 0 ∷ room false ∷ [])

left_room : left_frame.room_active ≡ false
unfolding run step new_media
left_room = refl

run_outside_example : driven (step true left_frame nudge).out ≡ driven left_frame.out
run_outside_example =
    run_outside true (room true ∷ registered 0 ∷ resolved 0 ∷ room false ∷ []) nudge left_room
