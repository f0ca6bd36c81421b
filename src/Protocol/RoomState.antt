-- ===== src/Protocol/RoomState.antt =====
-- The decoder of ROOM_STATE, decodeRoomState of extension/src/background/protocol.ts, with its recent events.
use playback_sync.Base.{Option, none, some, List, [], ◌∷◌, ◌>>=◌, or_else}
use playback_sync.Number.{Number}
use playback_sync.Protocol.Frames.{RecentEvent, InboundFrame, room_state}
use playback_sync.Protocol.Json.{
  Json, null, arr, Items, nil, cons, Fields, get, is_obj, as_string, as_bool, as_player_state,
  as_number, as_int,
}
use playback_sync.Protocol.Parts.{
  Decoded, ok, shape, or_shape, and_then, decode_optional_cursor, decode_room_cursor, as_event_kind,
}

module _ {N : Type 0} ⦃n : Number N⦄ where
  -- `value` of a recent event: `null` and `undefined` give `null`, any other value must be a number.
  unfoldable pub event_value : Option (Json N) → Option (Option N)
  event_value none = some none
  event_value (some null) = some none
  event_value (some v) = do x ← as_number (some v); some (some x)

  -- One round of the loop over `recentEvents`.
  unfoldable pub decode_recent_event : Json N → Decoded (RecentEvent N)
  decode_recent_event v =
      and_then (or_shape "ROOM_STATE.recentEvents[] not object" (is_obj (some v))) λ ev.
        and_then (or_shape "ROOM_STATE.recentEvents[].type invalid" (as_event_kind (get "type" ev)))
          λ kind.
            and_then
              (or_shape "ROOM_STATE.recentEvents[] missing fields" do
                client_id ← as_string (get "clientId" ev)
                ts ← as_int (get "ts" ev)
                event_id ← as_int (get "eventId" ev)
                some (client_id, ts, event_id))
              λ (client_id, ts, event_id).
                and_then
                  (or_shape "ROOM_STATE.recentEvents[].value not number"
                    (event_value (get "value" ev)))
                  λ value. ok (record {
                    kind = kind;
                    value = value;
                    client_id = client_id;
                    ts = ts;
                    event_id = event_id;
                  })

  unfoldable pub decode_recent_events : Items N → Decoded (List (RecentEvent N))
  decode_recent_events nil = ok []
  decode_recent_events (cons v vs) =
      let rest = decode_recent_events vs in
      and_then (decode_recent_event v) λ e. and_then rest λ es. ok (e ∷ es)

  unfoldable pub decode_recent_field : Option (Json N) → Decoded (Option (List (RecentEvent N)))
  unfolding decode_recent_events
  decode_recent_field none = ok none
  decode_recent_field (some (arr vs)) =
      and_then (decode_recent_events vs) λ events. ok (some events)
  decode_recent_field _ = shape "ROOM_STATE.recentEvents must be array"

  -- The required fields are tested together; then the cursor, then the recent events.
  unfoldable pub decode_room_state : Fields N → Decoded (InboundFrame N)
  decode_room_state o =
      and_then
        (or_shape "ROOM_STATE missing or mistyped required field" do
          client_id ← as_string (get "clientId" o)
          playlist_version ← as_string (get "playlistVersion" o)
          player_state ← as_player_state (get "playerState" o)
          video_pos ← as_number (get "videoPos" o)
          last_event_id ← as_int (get "lastEventId" o)
          server_ts ← as_int (get "serverTs" o)
          single_mode ← as_bool (get "singleMode" o)
          freeform_mode ← as_bool (get "freeformMode" o)
          some (record {
            client_id = client_id;
            nickname = or_else (as_string (get "nickname" o)) "";
            single_mode = single_mode;
            freeform_mode = freeform_mode;
            cursor = none;
            playlist_version = playlist_version;
            player_state = player_state;
            video_pos = video_pos;
            last_event_id = last_event_id;
            server_ts = server_ts;
            recent_events = none;
          }))
        λ frame. and_then (decode_room_cursor (decode_optional_cursor (get "cursor" o))) λ cur.
          and_then (decode_recent_field (get "recentEvents" o))
            λ events. ok (room_state (record frame { cursor = cur; recent_events = events }))
