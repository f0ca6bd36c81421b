-- ===== src/Examples/Visit.antt =====
-- A concrete visit of a guarded tab: it joins a room, and its user moves on.
use playback_sync.Base.{true, false, ◌≡◌, refl, ◌⊎◌, none, some, List, [], ◌∷◌, All, lookup, insert}
use playback_sync.Number.Fixed.{Fixed, fixed_number}
use playback_sync.Protocol.Frames.{RoomStateFrame, room_state, playing}
use playback_sync.Messages.{VideoState, ContentIdentity}
use playback_sync.Session.{create_session}
use playback_sync.Urls.Paths.{strip, span}
use playback_sync.Background.{Tab, new_tab}
use playback_sync.Background.Navigation.{nav_due}
use playback_sync.Background.Runs.{
  Event, Answer, booted, status, identity, received, navigated, nav_timer, resume, intent, step,
  run, reload_timer, request_timer, resume_task, receive_any,
}
use playback_sync.Background.Routes.{url_changed, route_status, route_identity}
use playback_sync.Background.Rescue.{IsOptIn, run_rescued}
use playback_sync.Background.Intents.{HasPassed, run_intents}
use playback_sync.Background.Gist.{sent}
use playback_sync.Examples.{demo_room, milli}
use playback_sync.Examples.Runs.{demo_creds}
use playback_sync.Session.Folds.{apply_room_state}
use playback_sync.Session.Windows.{record_command}
use playback_sync.Examples.Guard.{demo_parse, second_cursor, demo_seek}

abbrev freeform_room : RoomStateFrame Fixed
freeform_room = record demo_room { cursor = some second_cursor }

abbrev demo_status : VideoState Fixed
demo_status = record { current_pos = milli 12500; player_state = playing }

abbrev demo_identity : ContentIdentity
demo_identity = record { provider_id = "miruro"; video_id = "20-ep2"; normalized_url = "n" }

-- The tab joins, the room answers, and the user goes to the third episode.
abbrev demo_visit : List (Event Fixed)
demo_visit =
    booted false demo_creds
    ∷ identity 1 0 "miruro" demo_identity "https://www.miruro.to/watch/20/frieren?ep=2" true
    ∷ status 2 4 true "miruro" demo_status
    ∷ received 3 (room_state freeform_room)
    ∷ []

abbrev demo_answer : Answer
demo_answer = record {
  now = 9000;
  live = some "https://www.miruro.to/watch/20/frieren?ep=3";
  stored = none;
  pooled = true;
}

abbrev demo_move : List (Event Fixed)
demo_move =
    booted false demo_creds
    ∷ identity 1 0 "miruro" demo_identity "https://www.miruro.to/watch/20/frieren?ep=2" true
    ∷ status 2 4 true "miruro" demo_status
    ∷ received 3 (room_state freeform_room)
    ∷ navigated "https://www.miruro.to/watch/20/frieren?ep=3"
    ∷ nav_timer
    ∷ resume 0 demo_answer
    ∷ []

demo_move-IsOptIn : All (IsOptIn {N = Fixed}) demo_move
demo_move-IsOptIn = (tt, (refl, (tt, (tt, (tt, (tt, (tt, tt)))))))

abbrev demo_moved : Tab Fixed
demo_moved = run demo_parse (new_tab 7) demo_move

-- The move has been forwarded: the session waits for the room.
moved :
    (demo_moved.session ≡ some 0)
    × ((demo_moved.objects 0).ever_converged ≡ true)
    × ((demo_moved.objects 0).converged ≡ false)
unfolding run step resume_task url_changed receive_any route_status route_identity new_tab
    create_session apply_room_state lookup insert record_command strip span nav_due
moved = (refl, refl, refl)

run_rescued_example :
    ((step demo_parse
        (step demo_parse demo_moved (reload_timer 20000))
        (request_timer 20001)).objects
      0).converged
    ≡ true
run_rescued_example =
    run_rescued demo_parse 7 0 20000 20001 demo_move demo_move-IsOptIn moved.0 moved.1

abbrev demo_joined : Tab Fixed
demo_joined = run demo_parse (new_tab 7) demo_visit

run_intents_example :
    (sent (step demo_parse demo_joined (intent 30000 4 demo_seek)).out ≡ sent demo_joined.out)
    ⊎ HasPassed demo_joined
        (intent 30000 4 demo_seek)
        (step demo_parse demo_joined (intent 30000 4 demo_seek))
run_intents_example =
    run_intents demo_parse 7 demo_visit (intent 30000 4 demo_seek) (tt, (refl, (tt, (tt, tt))))
