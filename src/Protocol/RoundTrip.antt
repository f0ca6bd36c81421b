-- ===== src/Protocol/RoundTrip.antt =====
-- The extension's decoder (extension/src/background/protocol.ts) reads back what the server's
-- encoder (lib/WebSocket/MessageEncoder.php) writes.
use playback_sync.Base.{
  Option, none, some, List, [], ◌∷◌, String, ◌≡◌, refl, All, Ensures, arith, ◌>>=◌,
}
use playback_sync.Number.{Number}
use playback_sync.Protocol.Frames.{PlaylistEntry, RecentEvent, InboundFrame}
use playback_sync.Protocol.Json.{
  Json, obj, get, is_obj, as_string, as_nullable_string, as_bool, as_number, as_int,
  as_nullable_int, num,
}
use playback_sync.Protocol.Parts.{
  Decoded, ok, or_shape, as_event_kind, and_then, decode_change_cursor, notice_video_ref,
}
use playback_sync.Protocol.RoomState.{
  event_value, decode_recent_event, decode_recent_events, decode_recent_field, decode_room_state,
}
use playback_sync.Protocol.Playlist.{
  decode_playlist_entry, decode_playlist_entries, decode_entries_field, decode_playlist_update,
}
use playback_sync.Protocol.Decode.{
  decode_state, decode_cursor_change, decode_sync_adjust, decode_clock_pong, decode_error,
  decode_notice_data, decode_notice, decode_typed, decode_json, decode,
}
use playback_sync.Protocol.Encoder.{
  encode_video_ref, nullable_number, encode_playlist_entry, encode_entries, encode_recent_event,
  encode_recent_events, recent_field, nullable_notice_data, encode_frame,
}
use playback_sync.Protocol.Server.{
  ReplayKind, playback, cursor_moved, ReplayEvent, ServerRoomState, ServerVideoRef,
  ServerNoticeData, ServerFrame, client_event, joined, client_events, held, client_replay,
  client_room_state, told, client_data, client_frame,
}
use playback_sync.Protocol.Valid.{
  IsValidReplay, IsValidNotice, IsSendable, IsFin, IsInt, IsValidEntry,
}
use playback_sync.Protocol.Names.{
  as_player_state-name, as_source-name, as_nullable_string-text, cursor_lem, as_event_kind-name,
  as_adjust_mode-name, as_notice_event-name, as_notice_category-name, as_notice_actor-name,
  room_cursor_lem,
}

-- The error of a replayed event whose type the client does not know.
abbrev pub unknown_event : String
unknown_event = "ROOM_STATE.recentEvents[].type invalid"

module _ {N : Type 0} ⦃n : Number N⦄ where
  as_number_lem : (x : N) → IsFin x → as_number (some (num x)) ≡ some x
  unfolding as_number
  as_number_lem x h = rw h

  as_int_lem : (x : N) → IsInt x → as_int (some (num x)) ≡ some x
  unfolding as_int
  as_int_lem x h = rw h

  nullable_int_lem :
      (x : Option N) → Ensures IsInt x → as_nullable_int (some (nullable_number x)) ≡ x
  unfolding as_nullable_int as_int
  nullable_int_lem none h = refl
  nullable_int_lem (some x) h = rw h

  entry_lem :
      (e : PlaylistEntry N)
      → IsValidEntry e
      → decode_playlist_entry (encode_playlist_entry e) ≡ ok e
  unfolding decode_playlist_entry and_then or_shape ◌>>=◌ encode_playlist_entry get as_string is_obj
  entry_lem e v = simp (
    as_nullable_string-text N,
    as_source-name N,
    as_int_lem e.position v.position,
    as_int_lem e.added_at v.added_at,
    as_int_lem e.last_seen_at v.last_seen_at,
    nullable_int_lem e.episode_number v.episode_number,
    nullable_int_lem e.season_number v.season_number,
  )

  entries_lem :
      (es : List (PlaylistEntry N))
      → All IsValidEntry es
      → decode_playlist_entries (encode_entries es) ≡ ok es
  unfolding decode_playlist_entries and_then or_shape ◌>>=◌ encode_entries
  entries_lem [] v = refl
  entries_lem (e ∷ es) (v, vs) = rw (entry_lem e v, entries_lem es vs)

  -- An event by its fields, to split on its type and its value.
  event_fields :
      (k : ReplayKind) (x : Option N) (c : String) (ts id : N)
      → Ensures IsFin x
      → IsInt ts
      → IsInt id
      → let e : ReplayEvent N = record {
        kind = k;
        value = x;
        client_id = c;
        ts = ts;
        event_id = id;
      } in
        decode_recent_event (encode_recent_event e) ≡ or_shape unknown_event (client_event e)
  unfolding decode_recent_event and_then or_shape ◌>>=◌ encode_recent_event get as_string is_obj
      event_value
  event_fields (playback k) none c ts id x t i =
      simp (as_event_kind-name N, as_int_lem ts t, as_int_lem id i)
  event_fields (playback k) (some v) c ts id x t i =
      simp (as_event_kind-name N, as_number_lem v x, as_int_lem ts t, as_int_lem id i)
  event_fields cursor_moved x c ts id v t i = unfold as_event_kind in refl

  event_lem :
      (e : ReplayEvent N)
      → IsValidReplay e
      → decode_recent_event (encode_recent_event e) ≡ or_shape unknown_event (client_event e)
  event_lem e v = event_fields e.kind e.value e.client_id e.ts e.event_id v.value v.ts v.event_id

  events_onto :
      (o : Option (RecentEvent N)) (os : Option (List (RecentEvent N)))
      → and_then
          (or_shape unknown_event o)
          (λ e. and_then (or_shape unknown_event os) (λ es. ok (e ∷ es)))
        ≡ or_shape unknown_event (joined o os)
  unfolding and_then or_shape
  events_onto none os = refl
  events_onto (some e) none = refl
  events_onto (some e) (some es) = refl

  events_lem :
      (es : List (ReplayEvent N))
      → All IsValidReplay es
      → decode_recent_events (encode_recent_events es) ≡ or_shape unknown_event (client_events es)
  unfolding decode_recent_events encode_recent_events
  events_lem [] v = unfold or_shape in refl
  events_lem (e ∷ es) (v, vs) =
      rw (event_lem e v, events_lem es vs) (events_onto (client_event e) (client_events es))

  held_lem :
      (os : Option (List (RecentEvent N)))
      → and_then (or_shape unknown_event os) (λ es. ok (some es)) ≡ or_shape unknown_event (held os)
  unfolding and_then or_shape
  held_lem none = refl
  held_lem (some es) = refl

  recent_field_lem :
      (es : List (ReplayEvent N))
      → All IsValidReplay es
      → decode_recent_field (get "recentEvents" (recent_field es))
        ≡ or_shape unknown_event (client_replay es)
  unfolding decode_recent_field recent_field get
  recent_field_lem [] v = unfold or_shape in refl
  recent_field_lem (e ∷ es) v = rw (events_lem (e ∷ es) v) (held_lem (client_events (e ∷ es)))

  told_lem :
      (f : ServerRoomState N) (os : Option (Option (List (RecentEvent N))))
      → and_then
          (or_shape unknown_event os)
          (λ events. ok (InboundFrame.room_state (client_room_state f events)))
        ≡ or_shape unknown_event (told f os)
  unfolding and_then or_shape
  told_lem f none = refl
  told_lem f (some events) = refl

  data_fields :
      (x : Option N) (r : Option (ServerVideoRef N)) (a b : Option String)
      → Ensures IsFin x
      → let d : ServerNoticeData N = record {
        value = x;
        video_ref = r;
        nickname = a;
        reason = b;
      } in
        decode_notice_data (is_obj (some (nullable_notice_data (some d)))) ≡ client_data (some d)
  unfolding decode_notice_data nullable_notice_data get is_obj as_string as_number notice_video_ref
      encode_video_ref
  data_fields none none none none h = refl
  data_fields x r a b h = unfold as_nullable_string in ground arith

  data_lem :
      (d : Option (ServerNoticeData N))
      → IsValidNotice d
      → decode_notice_data (is_obj (some (nullable_notice_data d))) ≡ client_data d
  data_lem none h = unfold decode_notice_data nullable_notice_data is_obj in refl
  data_lem (some d) h = data_fields d.value d.video_ref d.nickname d.reason h

  decode_frame_lem :
      (f : ServerFrame N)
      → IsSendable f
      → decode_json (obj (encode_frame f)) ≡ or_shape unknown_event (client_frame f)
  unfolding decode_json and_then or_shape ◌>>=◌ decode_typed encode_frame get as_string is_obj
  decode_frame_lem (ServerFrame.room_state f) v =
      unfold decode_room_state as_bool in
      simp (
        as_player_state-name N,
        as_number_lem f.video_pos v.video_pos,
        as_int_lem f.last_event_id v.last_event_id,
        as_int_lem f.server_ts v.server_ts,
        room_cursor_lem N f.cursor,
        recent_field_lem f.recent_events v.recent_events,
        told_lem f (client_replay f.recent_events),
      )
  decode_frame_lem (ServerFrame.state f) (p, e, t) =
      unfold decode_state in
      simp (
        as_player_state-name N,
        as_number_lem f.video_pos p,
        as_int_lem f.event_id e,
        as_int_lem f.server_ts t,
      )
  decode_frame_lem (ServerFrame.cursor_change f) (e, t) =
      unfold decode_cursor_change decode_change_cursor in
      simp (cursor_lem N, as_int_lem f.event_id e, as_int_lem f.server_ts t)
  decode_frame_lem (ServerFrame.playlist_update f) (es, t) =
      unfold decode_playlist_update decode_entries_field in
      simp (entries_lem f.entries es, as_int_lem f.server_ts t)
  decode_frame_lem (ServerFrame.sync_adjust f) (t, p) =
      unfold decode_sync_adjust in
      simp (as_adjust_mode-name N, as_int_lem f.server_time t, as_number_lem f.target_pos p)
  decode_frame_lem (ServerFrame.clock_pong f) (p, r, s) =
      unfold decode_clock_pong in
      simp (
        as_number_lem f.client_send_time p,
        as_int_lem f.server_recv_time r,
        as_int_lem f.server_send_time s,
      )
  decode_frame_lem (ServerFrame.error f) t = unfold decode_error in simp (as_int_lem f.server_ts t)
  decode_frame_lem (ServerFrame.notice f) (d, t) =
      unfold decode_notice in
      simp (
        as_notice_event-name N,
        as_notice_category-name N,
        as_notice_actor-name N,
        as_nullable_string-text N,
        data_lem f.payload d,
        as_int_lem f.server_ts t,
      )

  -- The decoder reads each frame that the server writes as what it is to the client, and refuses, with
  -- the error for a replayed event of an unknown type, just the ROOM_STATE that replays a move of the
  -- cursor. The printer and the parser of JSON are inverse on the written object; the frame's positions
  -- and values are finite and its ids and timestamps integers.
  pub decode-encode_frame :
      (print : Json N → String) (parse : String → Decoded (Json N)) (f : ServerFrame N)
      → IsSendable f
      → parse (print (obj (encode_frame f))) ≡ ok (obj (encode_frame f))
      → decode parse (print (obj (encode_frame f))) ≡ or_shape unknown_event (client_frame f)
  unfolding decode
  decode-encode_frame print parse f v lossless = rw (lossless, decode) (decode_frame_lem f v)
