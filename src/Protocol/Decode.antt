-- ===== src/Protocol/Decode.antt =====
-- `decode` of extension/src/background/protocol.ts and its decoders, one for each frame. A decoder
-- returns the frame or a tagged error. `JSON.parse` is a parameter: it returns a value, or the
-- message of the error that it throws.
use text.Mathlib.Text.{◌==◌ as str_eq}
use playback_sync.Base.{Option, none, some, String, if◌then◌else◌, ◌>>=◌}
use playback_sync.Number.{Number}
use playback_sync.Protocol.Frames.{
  InboundFrame, NoticeData, state, cursor_change, sync_adjust, clock_pong, error, notice,
}
use playback_sync.Protocol.Json.{
  Json, Fields, get, is_obj, as_string, as_nullable_string, as_player_state, as_number, as_int,
}
use playback_sync.Protocol.Parts.{
  Decoded, ok, bad, invalid_json, unknown_type, or_shape, and_then, decode_optional_cursor,
  decode_change_cursor, as_adjust_mode, as_notice_event, as_notice_category, as_notice_actor,
  notice_video_ref,
}
use playback_sync.Protocol.RoomState.{decode_room_state}
use playback_sync.Protocol.Playlist.{decode_playlist_update}

module _ {N : Type 0} ⦃n : Number N⦄ where
  unfoldable pub decode_state : Fields N → Decoded (InboundFrame N)
  decode_state o = or_shape "STATE missing or mistyped required field" do
    player_state ← as_player_state (get "playerState" o)
    video_pos ← as_number (get "videoPos" o)
    event_id ← as_int (get "eventId" o)
    server_ts ← as_int (get "serverTs" o)
    some (
        state (record {
          player_state = player_state;
          video_pos = video_pos;
          event_id = event_id;
          server_ts = server_ts;
        }))

  unfoldable pub decode_cursor_change : Fields N → Decoded (InboundFrame N)
  decode_cursor_change o =
      and_then (decode_change_cursor (decode_optional_cursor (get "cursor" o))) λ c.
        or_shape "CURSOR_CHANGE missing fields" do
          event_id ← as_int (get "eventId" o)
          server_ts ← as_int (get "serverTs" o)
          some (cursor_change (record { cursor = c; event_id = event_id; server_ts = server_ts }))

  unfoldable pub decode_sync_adjust : Fields N → Decoded (InboundFrame N)
  decode_sync_adjust o =
      and_then
        (or_shape "SYNC_ADJUST missing fields" do
          server_time ← as_int (get "serverTime" o)
          target_pos ← as_number (get "targetPos" o)
          some (server_time, target_pos))
        λ (server_time, target_pos).
          and_then (or_shape "SYNC_ADJUST.mode invalid" (as_adjust_mode (get "mode" o))) λ mode.
            ok (
              sync_adjust
                (record { server_time = server_time; target_pos = target_pos; mode = mode }))

  unfoldable pub decode_clock_pong : Fields N → Decoded (InboundFrame N)
  decode_clock_pong o = or_shape "CLOCK_PONG missing fields" do
    client_send_time ← as_number (get "clientSendTime" o)
    server_recv_time ← as_int (get "serverRecvTime" o)
    server_send_time ← as_int (get "serverSendTime" o)
    some (
        clock_pong (record {
          client_send_time = client_send_time;
          server_recv_time = server_recv_time;
          server_send_time = server_send_time;
        }))

  unfoldable pub decode_error : Fields N → Decoded (InboundFrame N)
  decode_error o = or_shape "ERROR missing fields" do
    code ← as_string (get "code" o)
    message ← as_string (get "message" o)
    server_ts ← as_int (get "serverTs" o)
    some (error (record { code = code; message = message; server_ts = server_ts }))

  -- Every field is optional; a value that is no object gives `null`.
  unfoldable pub decode_notice_data : Option (Fields N) → Option (NoticeData N)
  decode_notice_data none = none
  decode_notice_data (some v) = some (record {
    value = as_number (get "value" v);
    video_ref = notice_video_ref (is_obj (get "videoRef" v));
    nickname = as_string (get "nickname" v);
    reason = as_string (get "reason" v);
  })

  unfoldable pub decode_notice : Fields N → Decoded (InboundFrame N)
  decode_notice o =
      and_then (or_shape "NOTICE.event invalid" (as_notice_event (get "event" o))) λ event.
        and_then (or_shape "NOTICE.category invalid" (as_notice_category (get "category" o))) λ cat.
          and_then (or_shape "NOTICE.actor invalid" (as_notice_actor (get "actor" o))) λ actor.
            or_shape "NOTICE missing serverTs" do
              server_ts ← as_int (get "serverTs" o)
              some (
                  notice (record {
                    event = event;
                    category = cat;
                    actor = actor;
                    actor_id = as_nullable_string (get "actorId" o);
                    payload = decode_notice_data (is_obj (get "data" o));
                    server_ts = server_ts;
                  }))

  -- The `switch` on the `type` field.
  unfoldable pub decode_typed : String → Fields N → Decoded (InboundFrame N)
  decode_typed type o =
      if str_eq type "ROOM_STATE"
      then decode_room_state o
      else if str_eq type "STATE"
      then decode_state o
      else if str_eq type "CURSOR_CHANGE"
      then decode_cursor_change o
      else if str_eq type "PLAYLIST_UPDATE"
      then decode_playlist_update o
      else if str_eq type "SYNC_ADJUST"
      then decode_sync_adjust o
      else if str_eq type "CLOCK_PONG"
      then decode_clock_pong o
      else if str_eq type "ERROR"
      then decode_error o
      else if str_eq type "NOTICE"
      then decode_notice o
      else bad unknown_type type

  unfoldable pub decode_json : Json N → Decoded (InboundFrame N)
  decode_json v = and_then (or_shape "frame is not an object" (is_obj (some v))) λ o.
      and_then (or_shape "missing or non-string \"type\"" (as_string (get "type" o)))
        λ type. decode_typed type o

  -- The `try` around `JSON.parse`, and what follows it.
  unfoldable pub decode_parsed : Decoded (Json N) → Decoded (InboundFrame N)
  decode_parsed (ok v) = decode_json v
  decode_parsed (bad _ detail) = bad invalid_json detail

  -- `parse` returns a value, or the message of what `JSON.parse` throws.
  unfoldable pub decode : (String → Decoded (Json N)) → String → Decoded (InboundFrame N)
  unfolding decode_parsed
  decode parse raw = decode_parsed (parse raw)
