-- ===== src/Examples/Runs.antt =====
-- Concrete runs of one WebSocket runtime.
use playback_sync.Base.{
  ◌≤◌, Bool, true, false, ◌≡◌, refl, none, some, List, [], ◌∷◌, String, All, has, insert,
}
use playback_sync.Number.Fixed.{Fixed, fixed_number}
use playback_sync.Protocol.Frames.{room_state}
use playback_sync.Session.{create_session}
use playback_sync.Ws.{Ws, Creds, is_terminal}
use playback_sync.Ws.Lifecycle.{connect, open_socket, new_runtime}
use playback_sync.Ws.Effects.{link}
use playback_sync.Ws.Runs.{
  Event, socket_open, frame, socket_close, join_deadline, reconnect_timer, run,
}
use playback_sync.Ws.Sound.{IsSound}
use playback_sync.Ws.Invariant.{run-IsSound}
use playback_sync.Ws.Joins.{joins}
use playback_sync.Ws.Once.{IsFrom, content_joins, run-IsFrom, run_content_once}
use playback_sync.Ws.Backoff.{retries, retries_terminated}
use playback_sync.Session.Player.{obey_all}
use playback_sync.Protocol.Encoder.{encode_frame}
use playback_sync.Protocol.Server.{client_frame}
use playback_sync.Protocol.Json.{obj}
use playback_sync.Ws.Frames.{on_message}
use playback_sync.Ws.Delivery.{commands, Heeds, on_message-Follows}
use playback_sync.Examples.{
  demo_room, resumes, demo_player, print_one, parse_one, demo_sent, demo_sent-IsSendable,
}

abbrev pub demo_creds : Creds
demo_creds = record {
  sync_url = "wss://example.org/room";
  sync_password = "secret";
  client_id = none;
}

abbrev every_url : String → Bool
every_url url = true

abbrev never_same : Fixed → Fixed → Bool
never_same a b = false

abbrev demo_runtime : Ws Fixed
demo_runtime =
    open_socket every_url
      (record { pool = (7, 1) ∷ []; self = new_runtime 1 7 demo_creds create_session; out = [] })

demo_connected :
    connect every_url [] 1 7 demo_creds (create_session {N = Fixed}) ≡ some demo_runtime
unfolding connect has insert
demo_connected = refl

-- The first JOIN waits out its deadline, the room answers, and the socket drops and comes back.
abbrev demo_events : List (Event Fixed)
demo_events =
    socket_open
    ∷ join_deadline
    ∷ frame 90 (room_state demo_room)
    ∷ socket_close ""
    ∷ reconnect_timer
    ∷ socket_open
    ∷ []

run-IsSound_example : IsSound (link (run every_url never_same demo_runtime demo_events).self)
run-IsSound_example =
    run-IsSound every_url never_same [] 1 7 demo_creds create_session demo_runtime demo_events
      demo_connected

run-IsFrom_example :
    All (IsFrom demo_creds) (joins (run every_url never_same demo_runtime demo_events).out)
run-IsFrom_example =
    run-IsFrom every_url never_same [] 1 7 demo_creds create_session demo_runtime demo_events
      demo_connected

run_content_once_example :
    content_joins (joins (run every_url never_same demo_runtime demo_events).out) ≤ 1
run_content_once_example =
    run_content_once every_url never_same [] 1 7 demo_creds create_session demo_runtime demo_events
      demo_connected

fresh_attempt : demo_runtime.self.reconnect_attempt ≡ 0
unfolding open_socket new_runtime
fresh_attempt = refl

fresh_terminated : demo_runtime.self.terminated ≡ false
unfolding open_socket new_runtime
fresh_terminated = refl

abbrev dropped : List String
dropped = "" ∷ "" ∷ "" ∷ []

dropped_quietly : All (λ r. is_terminal r ≡ false) dropped
dropped_quietly = (refl, (refl, (refl, tt)))

retries_terminated_example : (retries every_url demo_runtime dropped).self.terminated ≡ false
retries_terminated_example =
    retries_terminated every_url dropped demo_runtime fresh_attempt refl fresh_terminated
      dropped_quietly

on_message-Follows_example : Heeds (client_frame (demo_sent [])) demo_player (
    obey_all resumes demo_player (
      commands
        (on_message never_same parse_one 90
          (some (print_one (obj (encode_frame (demo_sent [])))))
          demo_runtime).out))
on_message-Follows_example =
    on_message-Follows never_same resumes print_one parse_one 90 demo_runtime demo_player
      (demo_sent []) demo_sent-IsSendable refl
