-- ===== src/Examples/Dashboard.antt =====
-- The rooms of the dashboard: a command that the server refuses, before and after a refresh.
use playback_sync.Base.{
  ℕ, ◌+◌, false, ◌≡◌, refl, none, some, List, [], ◌∷◌, String, get_elem?, if◌then◌else◌, ◌==◌,
}
use playback_sync.Number.Fixed.{Fixed, fixed_number}
use playback_sync.Examples.{milli}
use playback_sync.Rooms.{RoomLiveState, Room, PlaybackAction, Task, find_room, Rooms, new_rooms}
use playback_sync.Rooms.Errors.{Failure}
use playback_sync.Rooms.Actions.{captured}
use playback_sync.Rooms.Runs.{
  load_rooms, refresh_rooms, command, listed, failed, Event, act, replied, step, run,
}
use playback_sync.Rooms.Answers.{answers, owed, calls, IsPaired, run_answered}
use playback_sync.Rooms.Rollback.{shown, failed-command, shown-replied}

abbrev demo_live : RoomLiveState Fixed
demo_live = record {
  connected_count = 0;
  clients = [];
  player_state = "paused";
  video_pos = milli 0;
  last_activity_ms = none;
}

abbrev demo_room : Room Fixed
demo_room = record {
  uuid = "r1";
  name = none;
  bootstrap_url = "https://example.org/watch/2";
  single_mode = false;
  freeform_mode = false;
  playlist = [];
  cursor_entry_id = none;
  created_at = 0;
  expires_at = 1;
  share_link = "https://example.org/s/r1";
  live = some demo_live;
}

abbrev conflict : Failure
conflict = some (record { status = some 409; body = none })

abbrev play_room : Event Fixed String
play_room = act (command "r1" PlaybackAction.play none)

abbrev loaded : List (Event Fixed String)
loaded = act load_rooms ∷ replied 0 (listed (demo_room ∷ [])) ∷ []

abbrev refused : List (Event Fixed String)
refused =
    act load_rooms
    ∷ replied 0 (listed (demo_room ∷ []))
    ∷ play_room
    ∷ replied 0 (failed conflict)
    ∷ []

run_answered_example :
    (answers (run (new_rooms demo_room) refused).out
        + owed (run (new_rooms demo_room) refused).tasks
      ≡ calls refused)
    × IsPaired (run (new_rooms demo_room) refused).out
run_answered_example = run_answered demo_room refused

abbrev one_room : Rooms Fixed String
one_room = record (new_rooms demo_room) { rooms = 0 ∷ []; next = 1 }

captured_demo : captured "r1" one_room ≡ some (0, demo_live)
unfolding captured new_rooms
captured_demo = refl

found_demo : find_room "r1" one_room.objects one_room.rooms ≡ some 0
unfolding find_room new_rooms
found_demo = refl

live_demo : (one_room.objects 0).live ≡ some demo_live
unfolding new_rooms
live_demo = refl

waiting_demo :
    get_elem? (run one_room (play_room ∷ act refresh_rooms ∷ [])).tasks 1
    ≡ get_elem? (step one_room play_room).tasks 0
unfolding run step captured new_rooms
waiting_demo = refl

failed-command_example :
    let u = run one_room (play_room ∷ act refresh_rooms ∷ []) in
    let v = step u (replied 1 (failed conflict)) in
    ((j : ℕ)
      → v.objects j
        ≡ (if j == 0 then record (u.objects 0) { live = some demo_live } else u.objects j))
    × (v.rooms ≡ u.rooms)
failed-command_example =
    failed-command one_room "r1" PlaybackAction.play none (act refresh_rooms ∷ []) 1 conflict 0
      demo_live found_demo live_demo waiting_demo

abbrev overtaken : List (Event Fixed String)
overtaken =
    act load_rooms ∷ replied 0 (listed (demo_room ∷ [])) ∷ play_room ∷ act refresh_rooms ∷ []

listing_demo : get_elem? (run (new_rooms demo_room) overtaken).tasks 0 ≡ some Task.refreshing
unfolding run step captured new_rooms
listing_demo = refl

-- The command that waits fails behind the refresh.
shown-replied_example :
    let v = step (run (new_rooms demo_room) overtaken) (replied 0 (listed (demo_room ∷ []))) in
    (shown v ≡ demo_room ∷ []) × (shown (step v (replied 0 (failed conflict))) ≡ demo_room ∷ [])
shown-replied_example =
    shown-replied demo_room overtaken 0 0 Task.refreshing (demo_room ∷ []) conflict listing_demo
      refl
