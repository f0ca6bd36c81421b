-- ===== src/Protocol/Names.antt =====
-- How the parts of extension/src/background/protocol.ts read back the names and the nullable fields that
-- lib/WebSocket/MessageEncoder.php writes.
use playback_sync.Base.{Option, none, some, String, ◌≡◌, refl, ◌>>=◌}
use playback_sync.Protocol.Frames.{
  PlayerState, playing, paused, buffering, PlaylistEntrySource, scraped, curated, auto_appended,
  EventKind, SyncAdjustMode, NoticeEvent, NoticeCategory, NoticeActor, CursorRef,
}
use playback_sync.Protocol.Json.{
  get, as_string, as_nullable_string, as_player_state, str, field, end,
}
use playback_sync.Protocol.Parts.{
  ok, or_shape, and_then, cursor, decode_optional_cursor, decode_room_cursor, as_source,
  as_event_kind, as_adjust_mode, as_notice_event, as_notice_category, as_notice_actor,
  notice_video_ref,
}
use playback_sync.Protocol.Encoder.{
  player_state_name, source_name, event_kind_name, adjust_mode_name, notice_event_name,
  category_name, actor_name, nullable_text, encode_cursor, nullable_cursor,
}

module _ (N : Type 0) where
  pub as_player_state-name :
      (p : PlayerState) → as_player_state {N = N} (some (str (player_state_name p))) ≡ some p
  unfolding as_player_state
  as_player_state-name playing = refl
  as_player_state-name paused = refl
  as_player_state-name buffering = refl

  pub as_source-name :
      (s : PlaylistEntrySource) → as_source {N = N} (some (str (source_name s))) ≡ some s
  unfolding as_source
  as_source-name scraped = refl
  as_source-name curated = refl
  as_source-name auto_appended = refl

  pub as_nullable_string-text :
      (s : Option String) → as_nullable_string {N = N} (some (nullable_text s)) ≡ s
  unfolding as_nullable_string
  as_nullable_string-text none = refl
  as_nullable_string-text (some s) = refl

  pub cursor_lem :
      (c : CursorRef) → decode_optional_cursor {N = N} (some (encode_cursor c)) ≡ cursor c
  unfolding decode_optional_cursor and_then or_shape ◌>>=◌ encode_cursor get as_string
  cursor_lem c = rw (as_nullable_string-text c.label)

  pub as_event_kind-name :
      (x : EventKind) → as_event_kind {N = N} (some (str (event_kind_name x))) ≡ some x
  unfolding as_event_kind
  as_event_kind-name EventKind.play = refl
  as_event_kind-name EventKind.pause = refl
  as_event_kind-name EventKind.seek = refl

  pub as_adjust_mode-name :
      (x : SyncAdjustMode) → as_adjust_mode {N = N} (some (str (adjust_mode_name x))) ≡ some x
  unfolding as_adjust_mode
  as_adjust_mode-name SyncAdjustMode.nudge_rate = refl
  as_adjust_mode-name SyncAdjustMode.seek = refl

  pub as_notice_event-name :
      (x : NoticeEvent) → as_notice_event {N = N} (some (str (notice_event_name x))) ≡ some x
  unfolding as_notice_event
  as_notice_event-name NoticeEvent.play = refl
  as_notice_event-name NoticeEvent.pause = refl
  as_notice_event-name NoticeEvent.seek = refl
  as_notice_event-name NoticeEvent.cursor_change = refl
  as_notice_event-name NoticeEvent.client_joined = refl
  as_notice_event-name NoticeEvent.client_left = refl

  pub as_notice_category-name :
      (x : NoticeCategory) → as_notice_category {N = N} (some (str (category_name x))) ≡ some x
  unfolding as_notice_category
  as_notice_category-name NoticeCategory.playback = refl
  as_notice_category-name NoticeCategory.presence = refl

  pub as_notice_actor-name :
      (x : NoticeActor) → as_notice_actor {N = N} (some (str (actor_name x))) ≡ some x
  unfolding as_notice_actor
  as_notice_actor-name NoticeActor.client = refl
  as_notice_actor-name NoticeActor.owner = refl
  as_notice_actor-name NoticeActor.system = refl

  pub room_cursor_lem :
      (c : Option CursorRef)
      → decode_room_cursor (decode_optional_cursor {N = N} (some (nullable_cursor c))) ≡ ok c
  unfolding decode_room_cursor nullable_cursor
  room_cursor_lem none = unfold decode_optional_cursor in refl
  room_cursor_lem (some c) = rw (cursor_lem c)

  video_ref_lem :
      (r : Option String)
      → notice_video_ref {N = N} (some (field "label" (nullable_text r) end)) ≡ some r
  unfolding notice_video_ref get as_nullable_string
  video_ref_lem none = refl
  video_ref_lem (some r) = refl
