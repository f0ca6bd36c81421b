-- ===== src/Protocol/Valid.antt =====
-- The numbers of a frame that is fit for use: positions are finite, and event ids and timestamps
-- are integers.
use playback_sync.Base.{Option, none, some, true, ◌≡◌, All, Ensures}
use playback_sync.Number.{Number}
use playback_sync.Protocol.Frames.{
  PlaylistEntry, RecentEvent, NoticeData, RoomStateFrame, InboundFrame, room_state, state,
  cursor_change, playlist_update, sync_adjust, clock_pong, error, notice,
}
use playback_sync.Protocol.Server.{ReplayEvent, ServerRoomState, ServerNoticeData, ServerFrame}

module _ {N : Type 0} ⦃n : Number N⦄ where
  abbrev pub IsFin : N → Type 0
  IsFin x = n.is_finite x ≡ true

  abbrev pub IsInt : N → Type 0
  IsInt x = n.is_integer x ≡ true

  pub record IsValidEntry (e : PlaylistEntry N) : Type 0 where
    pub position : IsInt e.position
    pub episode_number : Ensures IsInt e.episode_number
    pub season_number : Ensures IsInt e.season_number
    pub added_at : IsInt e.added_at
    pub last_seen_at : IsInt e.last_seen_at

  pub record IsValidEvent (e : RecentEvent N) : Type 0 where
    pub value : Ensures IsFin e.value
    pub ts : IsInt e.ts
    pub event_id : IsInt e.event_id

  abbrev pub IsValidData : NoticeData N → Type 0
  IsValidData d = Ensures IsFin d.value

  pub record IsValidRoomState (f : RoomStateFrame N) : Type 0 where
    pub video_pos : IsFin f.video_pos
    pub last_event_id : IsInt f.last_event_id
    pub server_ts : IsInt f.server_ts
    pub recent_events : Ensures (All IsValidEvent) f.recent_events

  abbrev pub IsValidFrame : InboundFrame N → Type 0
  IsValidFrame (room_state f) = IsValidRoomState f
  IsValidFrame (state f) = IsFin f.video_pos × IsInt f.event_id × IsInt f.server_ts
  IsValidFrame (cursor_change f) = IsInt f.event_id × IsInt f.server_ts
  IsValidFrame (playlist_update f) = All IsValidEntry f.entries × IsInt f.server_ts
  IsValidFrame (sync_adjust f) = IsInt f.server_time × IsFin f.target_pos
  IsValidFrame (clock_pong f) =
      IsFin f.client_send_time × IsInt f.server_recv_time × IsInt f.server_send_time
  IsValidFrame (error f) = IsInt f.server_ts
  IsValidFrame (notice f) = Ensures IsValidData f.payload × IsInt f.server_ts

  -- The same of a frame as the server means it.
  pub record IsValidReplay (e : ReplayEvent N) : Type 0 where
    pub value : Ensures IsFin e.value
    pub ts : IsInt e.ts
    pub event_id : IsInt e.event_id

  pub record IsValidServerState (f : ServerRoomState N) : Type 0 where
    pub video_pos : IsFin f.video_pos
    pub last_event_id : IsInt f.last_event_id
    pub server_ts : IsInt f.server_ts
    pub recent_events : All IsValidReplay f.recent_events

  abbrev pub IsValidNotice : Option (ServerNoticeData N) → Type 0
  IsValidNotice none = Unit
  IsValidNotice (some d) = Ensures IsFin d.value

  abbrev pub IsSendable : ServerFrame N → Type 0
  IsSendable (ServerFrame.room_state f) = IsValidServerState f
  IsSendable (ServerFrame.state f) = IsFin f.video_pos × IsInt f.event_id × IsInt f.server_ts
  IsSendable (ServerFrame.cursor_change f) = IsInt f.event_id × IsInt f.server_ts
  IsSendable (ServerFrame.playlist_update f) = All IsValidEntry f.entries × IsInt f.server_ts
  IsSendable (ServerFrame.sync_adjust f) = IsInt f.server_time × IsFin f.target_pos
  IsSendable (ServerFrame.clock_pong f) =
      IsFin f.client_send_time × IsInt f.server_recv_time × IsInt f.server_send_time
  IsSendable (ServerFrame.error f) = IsInt f.server_ts
  IsSendable (ServerFrame.notice f) = IsValidNotice f.payload × IsInt f.server_ts
