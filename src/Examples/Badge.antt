-- ===== src/Examples/Badge.antt =====
-- A popup that watches a tab as it joins a room.
use playback_sync.Base.{true, false, Option, none, ◌++◌, String, ◌≡◌, refl, some, List, [], ◌∷◌}
use playback_sync.Number.Fixed.{Fixed, fixed_number}
use playback_sync.Session.{create_session}
use playback_sync.Session.Folds.{apply_room_state}
use playback_sync.Popup.{PopupSnapshot, new_popups, build_snapshot, joined}
use playback_sync.Popup.Runs.{
  Event, changed, closed, subscribed, creds_set, opening, opened, room_state, run, step,
}
use playback_sync.Popup.Ports.{last_shown}
use playback_sync.Popup.Fresh.{unseen, run_shown}
use playback_sync.Examples.{demo_room}

abbrev client_of : Option PopupSnapshot → Option String
client_of none = none
client_of (some s) = s.client_id

abbrev watched : List (Event Fixed)
watched =
    subscribed 3 7
    ∷ changed 7 (some create_session)
    ∷ creds_set 7 "wss://example.org/room"
    ∷ opening 7 "wss://example.org/room"
    ∷ opened 7
    ∷ changed 7 (some (apply_room_state create_session demo_room).0)
    ∷ room_state 7
    ∷ []

-- The popup shows the room at the end.
shown :
    ((run new_popups watched).port_tabs 3 ≡ some 7)
    × ((build_snapshot 7 (run new_popups watched)).status ≡ joined)
unfolding run step new_popups apply_room_state
shown = (refl, refl)

run_shown_example :
    last_shown 3 (run new_popups watched).out ≡ some (build_snapshot 7 (run new_popups watched))
run_shown_example = run_shown watched 3 7 shown.0 refl

-- Behind a failed adapter, whose route drops the session without a notice, the popup shows its id still.
abbrev failed_tab : List (Event Fixed)
failed_tab = watched ++ closed 7 ∷ changed 7 none ∷ []

shows_dropped :
    (unseen 7 false failed_tab ≡ true)
    × (client_of (last_shown 3 (run new_popups failed_tab).out) ≡ some "c1")
    × ((build_snapshot 7 (run new_popups failed_tab)).client_id ≡ none)
unfolding run step new_popups apply_room_state
shows_dropped = (refl, refl, refl)
