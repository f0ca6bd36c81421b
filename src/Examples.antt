-- ===== src/Examples.antt =====
-- Concrete runs of the extension's background: one session, one runtime, and the frames of a small
-- room, over numbers in thousandths.
mod Runs
mod Guard
mod Visit
mod Frame
mod Badge
mod Slots
mod Log
mod Dashboard
mod Notices
mod Site
mod Console
mod Links
mod Pace
mod Episodes
mod Lifecycle
use text.Mathlib.Text.{◌==◌ as str_eq}
use mathlib.Core.Bool.{true≢false}
use playback_sync.Base.{
  ℕ, ◌+◌, ◌*◌, ◌≤◌, min, Bool, true, false, ◌≡◌, ◌≢◌, ap, sym, refl, Option, none, some, List, [],
  ◌∷◌, ◌++◌, String, arith, All, any, leb, length,
}
use playback_sync.Number.{Number, IsIeee, ◌≼◌}
use playback_sync.Number.Fixed.{Fixed, ℤ, pos, fixed_number, Fixed-IsIeee}
use playback_sync.Protocol.Frames.{
  PlayerState, playing, paused, buffering, EventKind, CursorRef, RoomStateFrame, StateFrame,
  CursorChangeFrame, InboundFrame, room_state,
}
use playback_sync.Protocol.Json.{Json, obj}
use playback_sync.Protocol.Parts.{Decoded, ok, or_shape}
use playback_sync.Protocol.Decode.{decode}
use playback_sync.Protocol.Encoder.{encode_frame}
use playback_sync.Protocol.Valid.{IsFin, IsValidFrame, IsSendable}
use playback_sync.Protocol.Server.{ReplayEvent, cursor_moved, ServerFrame, client_frame}
use playback_sync.Protocol.RoundTrip.{unknown_event, decode-encode_frame}
use playback_sync.Protocol.Sound.{decode-IsValidFrame}
use playback_sync.Messages.{AuthoritativeCommand, play, seek, LocalIntent}
use playback_sync.Session.{
  SessionState, RoomPlayback, create_session, effective_cursor_video_id, set_pending_cursor_target,
}
use playback_sync.Session.Folds.{apply_room_state, apply_state, apply_cursor_change}
use playback_sync.Session.Windows.{should_suppress}
use playback_sync.Session.Echo.{record_all, reflects, should_suppress-record_all}
use playback_sync.Session.Clock.{build_resync_commands, resync_position}
use playback_sync.Session.Player.{
  Player, IsAt, obey_all, obey_all-apply_room_state, obey_all-apply_state, IsCaughtUp,
  seconds_since, obey_all-build_resync_commands,
}
use playback_sync.Session.Ops.{Op, run, mark, begin_reload, reset}
use playback_sync.Session.Gate.{IsGated, IsEnd, run-IsGated, run_held}
use playback_sync.Session.Watermark.{Broadcast, state, cursor, id_of, fold_all, fold_all_watermark}

abbrev pub milli : ℕ → Fixed
milli n = some (pos n)

abbrev demo_cursor : CursorRef
demo_cursor = record {
  entry_id = "e1";
  provider_id = "miruro";
  video_id = "ep-2";
  page_url = "https://example.org/watch/2";
  label = some "Episode 2";
}

abbrev pub demo_room : RoomStateFrame Fixed
demo_room = record {
  client_id = "c1";
  nickname = "SwiftFox42";
  single_mode = false;
  freeform_mode = true;
  cursor = some demo_cursor;
  playlist_version = "v1";
  player_state = playing;
  video_pos = milli 12500;
  last_event_id = milli 4000;
  server_ts = milli 90000;
  recent_events = none;
}

abbrev demo_state : StateFrame Fixed
demo_state = record {
  player_state = paused;
  video_pos = milli 20250;
  event_id = milli 5000;
  server_ts = milli 95000;
}

abbrev demo_change : CursorChangeFrame Fixed
demo_change = record { cursor = demo_cursor; event_id = milli 6000; server_ts = milli 96000 }

-- A printer and a parser of one text.
abbrev pub print_one : Json Fixed → String
print_one v = "frame"

-- What the server writes of it, with the events that it replays.
abbrev pub demo_sent : List (ReplayEvent Fixed) → ServerFrame Fixed
demo_sent events = ServerFrame.room_state (record {
  client_id = demo_room.client_id;
  nickname = demo_room.nickname;
  single_mode = demo_room.single_mode;
  freeform_mode = demo_room.freeform_mode;
  cursor = demo_room.cursor;
  playlist_version = demo_room.playlist_version;
  player_state = demo_room.player_state;
  video_pos = demo_room.video_pos;
  last_event_id = demo_room.last_event_id;
  server_ts = demo_room.server_ts;
  recent_events = events;
})

abbrev pub parse_one : String → Decoded (Json Fixed)
parse_one text = ok (obj (encode_frame (demo_sent [])))

pub demo_sent-IsSendable : IsSendable (demo_sent [])
demo_sent-IsSendable = record {
  video_pos = refl;
  last_event_id = refl;
  server_ts = refl;
  recent_events = tt;
}

demo_room-IsValidFrame : IsValidFrame (room_state demo_room)
demo_room-IsValidFrame = record {
  video_pos = refl;
  last_event_id = refl;
  server_ts = refl;
  recent_events = tt;
}

decode-encode_frame_example :
    decode parse_one "frame" ≡ or_shape unknown_event (client_frame (demo_sent []))
decode-encode_frame_example =
    decode-encode_frame print_one parse_one (demo_sent []) demo_sent-IsSendable refl

-- A client that reconnects behind a move of the cursor refuses the ROOM_STATE.
abbrev moved_event : ReplayEvent Fixed
moved_event = record {
  kind = cursor_moved;
  value = none;
  client_id = "SwiftFox42";
  ts = milli 89000;
  event_id = milli 4000;
}

refused_replay :
    decode (λ text. ok (obj (encode_frame (demo_sent (moved_event ∷ []))))) "frame"
    ≡ or_shape unknown_event none
refused_replay =
    decode-encode_frame print_one (λ text. ok (obj (encode_frame (demo_sent (moved_event ∷ [])))))
      (demo_sent (moved_event ∷ []))
      (record {
        video_pos = refl;
        last_event_id = refl;
        server_ts = refl;
        recent_events = (record { value = tt; ts = refl; event_id = refl }, tt);
      })
      refl

decode_one : decode parse_one "frame" ≡ ok (room_state demo_room)
unfolding or_shape
decode_one = decode-encode_frame_example

decode-IsValidFrame_example : IsValidFrame (room_state demo_room)
decode-IsValidFrame_example =
    decode-IsValidFrame parse_one "frame" (room_state demo_room) decode_one

abbrev pub demo_player : Player Fixed
demo_player = record { position = milli 0; running = false }

-- A player that resumes on every seek.
abbrev pub resumes : Bool → Fixed → Bool
resumes running time = true

abbrev demo_playback : RoomPlayback Fixed
demo_playback = record { video_pos = milli 12500; player_state = playing; server_ts = milli 90000 }

abbrev joined_session : SessionState Fixed
joined_session = (apply_room_state create_session demo_room).0

joined_playback : joined_session.last_room_playback ≡ some demo_playback
unfolding apply_room_state
joined_playback = refl

obey_all-build_resync_commands_example :
    IsCaughtUp playing
      (milli 12500)
      (seconds_since joined_session.server_clock_offset_ms 93 (milli 90000))
      (obey_all resumes demo_player (build_resync_commands 93 joined_session))
obey_all-build_resync_commands_example =
    obey_all-build_resync_commands resumes 93 joined_session demo_playback demo_player
      joined_playback

abbrev demo_intent : LocalIntent Fixed
demo_intent = record { kind = EventKind.seek; time = milli 5400 }

abbrev demo_history : List (ℕ × AuthoritativeCommand Fixed)
demo_history = (1000, seek (milli 5000)) ∷ (1100, play) ∷ []

demo_history_past : All (λ e. e.0 ≤ 1500) demo_history
demo_history_past = (omega arith, (omega arith, tt))

should_suppress-record_all_example :
    should_suppress 1500 (record_all create_session demo_history) demo_intent ≡ true
should_suppress-record_all_example =
    should_suppress-record_all 1500 demo_intent demo_history demo_history_past

run-IsGated_example :
    IsGated {N = Fixed} (run create_session (mark 100 ∷ begin_reload ∷ mark 200 ∷ []))
run-IsGated_example = run-IsGated (mark 100 ∷ begin_reload ∷ mark 200 ∷ [])

never_ends : All (λ (o : Op Fixed). ¬ IsEnd o) (mark 100 ∷ reset ∷ [])
never_ends = (λ e. e, (λ e. e, tt))

run_held_example :
    (run (create_session {N = Fixed}) (begin_reload ∷ mark 100 ∷ reset ∷ [])).converged ≡ false
run_held_example = run_held create_session (mark 100 ∷ reset ∷ []) never_ends

fresh_finite : IsFin (create_session {N = Fixed}).last_event_id
unfolding create_session
fresh_finite = refl

fold_all_watermark_example :
    ((create_session {N = Fixed}).last_event_id
      ≼ (fold_all create_session (state demo_state ∷ cursor demo_change ∷ [])).last_event_id)
    × All
        (λ b.
          id_of b
          ≼ (fold_all create_session (state demo_state ∷ cursor demo_change ∷ [])).last_event_id)
        (state demo_state ∷ cursor demo_change ∷ [])
fold_all_watermark_example =
    fold_all_watermark Fixed-IsIeee create_session (state demo_state ∷ cursor demo_change ∷ [])
      fresh_finite (refl, (refl, tt))
