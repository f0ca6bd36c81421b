-- ===== src/Protocol/Encoder.antt =====
-- The server's side of the wire: the payloads that lib/WebSocket/MessageEncoder.php builds, one for
-- each frame, from the values that the frame carries.
use playback_sync.Base.{Option, none, some, List, [], ◌∷◌, String}
use playback_sync.Protocol.Frames.{
  PlayerState, playing, paused, buffering, SyncAdjustMode, PlaylistEntrySource, scraped, curated,
  auto_appended, EventKind, CursorRef, PlaylistEntry, NoticeEvent, NoticeCategory, NoticeActor,
}
use playback_sync.Protocol.Server.{
  ReplayKind, playback, cursor_moved, ReplayEvent, ServerRoomState, ServerVideoRef,
  ServerNoticeData, ServerFrame,
}
use playback_sync.Protocol.Json.{
  Json, null, bool, num, str, arr, obj, Items, nil, cons, Fields, end, field,
}

abbrev pub player_state_name : PlayerState → String
player_state_name playing = "playing"
player_state_name paused = "paused"
player_state_name buffering = "buffering"

abbrev pub source_name : PlaylistEntrySource → String
source_name scraped = "scraped"
source_name curated = "curated"
source_name auto_appended = "auto_appended"

abbrev pub event_kind_name : EventKind → String
event_kind_name EventKind.play = "play"
event_kind_name EventKind.pause = "pause"
event_kind_name EventKind.seek = "seek"

abbrev pub replay_name : ReplayKind → String
replay_name (playback k) = event_kind_name k
replay_name cursor_moved = "cursor_change"

abbrev pub adjust_mode_name : SyncAdjustMode → String
adjust_mode_name SyncAdjustMode.nudge_rate = "nudge-rate"
adjust_mode_name SyncAdjustMode.seek = "seek"

abbrev pub notice_event_name : NoticeEvent → String
notice_event_name NoticeEvent.play = "play"
notice_event_name NoticeEvent.pause = "pause"
notice_event_name NoticeEvent.seek = "seek"
notice_event_name NoticeEvent.cursor_change = "cursor_change"
notice_event_name NoticeEvent.client_joined = "client_joined"
notice_event_name NoticeEvent.client_left = "client_left"

abbrev pub category_name : NoticeCategory → String
category_name NoticeCategory.playback = "playback"
category_name NoticeCategory.presence = "presence"

abbrev pub actor_name : NoticeActor → String
actor_name NoticeActor.client = "client"
actor_name NoticeActor.owner = "owner"
actor_name NoticeActor.system = "system"

module _ {N : Type 0} where
  abbrev pub nullable_text : Option String → Json N
  nullable_text none = null
  nullable_text (some s) = str s

  abbrev pub nullable_number : Option N → Json N
  nullable_number none = null
  nullable_number (some x) = num x

  -- A key that is left out when there is no value.
  abbrev pub text_if : String → Option String → Fields N → Fields N
  text_if k none o = o
  text_if k (some s) o = field k (str s) o

  abbrev pub number_if : String → Option N → Fields N → Fields N
  number_if k none o = o
  number_if k (some x) o = field k (num x) o

  unfoldable pub encode_cursor : CursorRef → Json N
  encode_cursor c = obj (
      field "entryId" (str c.entry_id) (
        field "providerId" (str c.provider_id) (
          field "videoId" (str c.video_id)
            (field "pageUrl" (str c.page_url) (field "label" (nullable_text c.label) end)))))

  unfoldable pub nullable_cursor : Option CursorRef → Json N
  unfolding encode_cursor
  nullable_cursor none = null
  nullable_cursor (some c) = encode_cursor c

  unfoldable pub encode_playlist_entry : PlaylistEntry N → Json N
  encode_playlist_entry e = obj (
      field "entryId" (str e.entry_id) (
        field "position" (num e.position) (
          field "providerId" (str e.provider_id) (
            field "videoId" (str e.video_id) (
              field "pageUrl" (str e.page_url) (
                field "label" (nullable_text e.label) (
                  field "episodeNumber" (nullable_number e.episode_number) (
                    field "seasonNumber" (nullable_number e.season_number) (
                      field "source" (str (source_name e.source)) (
                        field "addedAt" (num e.added_at)
                          (field "lastSeenAt" (num e.last_seen_at) end)))))))))))

  unfoldable pub encode_entries : List (PlaylistEntry N) → Items N
  encode_entries [] = nil
  encode_entries (e ∷ es) = cons (encode_playlist_entry e) (encode_entries es)

  -- An event of `recentEventsSince` of lib/WebSocket/RoomRuntime.php.
  unfoldable pub encode_recent_event : ReplayEvent N → Json N
  encode_recent_event e = obj (
      field "type" (str (replay_name e.kind)) (
        field "value" (nullable_number e.value) (
          field "clientId" (str e.client_id)
            (field "ts" (num e.ts) (field "eventId" (num e.event_id) end)))))

  unfoldable pub encode_recent_events : List (ReplayEvent N) → Items N
  encode_recent_events [] = nil
  encode_recent_events (e ∷ es) = cons (encode_recent_event e) (encode_recent_events es)

  -- `if ($recentEvents !== []) { $payload['recentEvents'] = … }`
  unfoldable pub recent_field : List (ReplayEvent N) → Fields N
  recent_field [] = end
  recent_field (e ∷ es) = field "recentEvents" (arr (encode_recent_events (e ∷ es))) end

  unfoldable pub encode_video_ref : ServerVideoRef N → Json N
  encode_video_ref r = obj (
      field "providerId" (str r.provider_id) (
        field "videoId" (str r.video_id) (
          field "pageUrl" (str r.page_url) (
            field "label" (nullable_text r.label)
              (field "episodeNumber" (nullable_number r.episode_number) end)))))

  unfoldable pub video_ref_if : Option (ServerVideoRef N) → Fields N → Fields N
  unfolding encode_video_ref
  video_ref_if none o = o
  video_ref_if (some r) o = field "videoRef" (encode_video_ref r) o

  -- The array that a caller of `notice` passes, with the keys that it gives; it is `null` rather than empty.
  unfoldable pub nullable_notice_data : Option (ServerNoticeData N) → Json N
  unfolding video_ref_if
  nullable_notice_data none = null
  nullable_notice_data (some d) = obj (
      number_if "value" d.value
        (video_ref_if d.video_ref (text_if "nickname" d.nickname (text_if "reason" d.reason end))))

  unfoldable pub encode_room_state : ServerRoomState N → Fields N
  encode_room_state f = field "type" (str "ROOM_STATE") (
      field "clientId" (str f.client_id) (
        field "nickname" (str f.nickname) (
          field "singleMode" (bool f.single_mode) (
            field "freeformMode" (bool f.freeform_mode) (
              field "cursor" (nullable_cursor f.cursor) (
                field "playlistVersion" (str f.playlist_version) (
                  field "playerState" (str (player_state_name f.player_state)) (
                    field "videoPos" (num f.video_pos) (
                      field "lastEventId" (num f.last_event_id)
                        (field "serverTs" (num f.server_ts) (recent_field f.recent_events)))))))))))

  unfoldable pub encode_frame : ServerFrame N → Fields N
  unfolding encode_room_state
  encode_frame (ServerFrame.room_state f) = encode_room_state f
  encode_frame (ServerFrame.state f) = field "type" (str "STATE") (
      field "playerState" (str (player_state_name f.player_state)) (
        field "videoPos" (num f.video_pos)
          (field "eventId" (num f.event_id) (field "serverTs" (num f.server_ts) end))))
  encode_frame (ServerFrame.cursor_change f) = field "type" (str "CURSOR_CHANGE") (
      field "cursor" (encode_cursor f.cursor)
        (field "eventId" (num f.event_id) (field "serverTs" (num f.server_ts) end)))
  encode_frame (ServerFrame.playlist_update f) = field "type" (str "PLAYLIST_UPDATE") (
      field "entries" (arr (encode_entries f.entries))
        (field "playlistVersion" (str f.playlist_version) (field "serverTs" (num f.server_ts) end)))
  encode_frame (ServerFrame.sync_adjust f) = field "type" (str "SYNC_ADJUST") (
      field "serverTime" (num f.server_time)
        (field "targetPos" (num f.target_pos) (field "mode" (str (adjust_mode_name f.mode)) end)))
  encode_frame (ServerFrame.clock_pong f) = field "type" (str "CLOCK_PONG") (
      field "clientSendTime" (num f.client_send_time) (
        field "serverRecvTime" (num f.server_recv_time)
          (field "serverSendTime" (num f.server_send_time) end)))
  encode_frame (ServerFrame.error f) = field "type" (str "ERROR") (
      field "code" (str f.code)
        (field "message" (str f.message) (field "serverTs" (num f.server_ts) end)))
  encode_frame (ServerFrame.notice f) = field "type" (str "NOTICE") (
      field "event" (str (notice_event_name f.event)) (
        field "category" (str (category_name f.category)) (
          field "actor" (str (actor_name f.actor)) (
            field "actorId" (nullable_text f.actor_id) (
              field "data" (nullable_notice_data f.payload)
                (field "serverTs" (num f.server_ts) end))))))
