-- ===== src/Protocol/Frames.antt =====
-- The frame types of extension/src/background/protocol.ts. `N` is the type of JavaScript numbers.
-- `x | null` and an optional field are `Option`.
use playback_sync.Base.{Bool, Option, List, String}

pub data PlayerState : Type 0 where
  playing paused buffering : PlayerState

pub data SyncAdjustMode : Type 0 where
  nudge_rate seek : SyncAdjustMode

pub data PlaylistEntrySource : Type 0 where
  scraped curated auto_appended : PlaylistEntrySource

pub data EventKind : Type 0 where
  play pause seek : EventKind

pub record VideoRef : Type 0 where
  pub provider_id : String
  pub video_id : String
  pub page_url : String

pub record VideoRefWithMeta (N : Type 0) : Type 0 where
  pub provider_id : String
  pub video_id : String
  pub page_url : String
  pub label : Option String
  pub episode_number : Option N
  pub season_number : Option N

pub record CursorRef : Type 0 where
  pub entry_id : String
  pub provider_id : String
  pub video_id : String
  pub page_url : String
  pub label : Option String

pub record PlaylistEntry (N : Type 0) : Type 0 where
  pub entry_id : String
  pub position : N
  pub provider_id : String
  pub video_id : String
  pub page_url : String
  pub label : Option String
  pub episode_number : Option N
  pub season_number : Option N
  pub source : PlaylistEntrySource
  pub added_at : N
  pub last_seen_at : N

pub record RecentEvent (N : Type 0) : Type 0 where
  pub kind : EventKind
  pub value : Option N
  pub client_id : String
  pub ts : N
  pub event_id : N

-- Client to server. `clientTs` is `Date.now()`.
pub record JoinFrame (N : Type 0) : Type 0 where
  pub password : String
  pub client_id : Option String
  pub last_event_id : Option N
  pub currently_showing : Option VideoRef
  pub catalog_fragment : Option (List (VideoRefWithMeta N))

pub data BufferKind : Type 0 where
  buffer_start buffer_end : BufferKind

pub record RoomStateFrame (N : Type 0) : Type 0 where
  pub client_id : String
  pub nickname : String
  pub single_mode : Bool
  pub freeform_mode : Bool
  pub cursor : Option CursorRef
  pub playlist_version : String
  pub player_state : PlayerState
  pub video_pos : N
  pub last_event_id : N
  pub server_ts : N
  pub recent_events : Option (List (RecentEvent N))

pub record StateFrame (N : Type 0) : Type 0 where
  pub player_state : PlayerState
  pub video_pos : N
  pub event_id : N
  pub server_ts : N

pub record CursorChangeFrame (N : Type 0) : Type 0 where
  pub cursor : CursorRef
  pub event_id : N
  pub server_ts : N

pub record PlaylistUpdateInFrame (N : Type 0) : Type 0 where
  pub entries : List (PlaylistEntry N)
  pub playlist_version : String
  pub server_ts : N

pub record SyncAdjustFrame (N : Type 0) : Type 0 where
  pub server_time : N
  pub target_pos : N
  pub mode : SyncAdjustMode

pub record ClockPongFrame (N : Type 0) : Type 0 where
  pub client_send_time : N
  pub server_recv_time : N
  pub server_send_time : N

pub record ErrorFrame (N : Type 0) : Type 0 where
  pub code : String
  pub message : String
  pub server_ts : N

pub data NoticeEvent : Type 0 where
  play pause seek cursor_change client_joined client_left : NoticeEvent

pub data NoticeCategory : Type 0 where
  playback presence : NoticeCategory

pub data NoticeActor : Type 0 where
  client owner system : NoticeActor

-- `video_ref` is the label of `videoRef`, if the payload has that object.
pub record NoticeData (N : Type 0) : Type 0 where
  pub value : Option N
  pub video_ref : Option (Option String)
  pub nickname : Option String
  pub reason : Option String

pub record NoticeFrame (N : Type 0) : Type 0 where
  pub event : NoticeEvent
  pub category : NoticeCategory
  pub actor : NoticeActor
  pub actor_id : Option String
  pub payload : Option (NoticeData N)
  pub server_ts : N

pub data InboundFrame (N : Type 0) : Type 0 where
  room_state : RoomStateFrame N → InboundFrame N
  state : StateFrame N → InboundFrame N
  cursor_change : CursorChangeFrame N → InboundFrame N
  playlist_update : PlaylistUpdateInFrame N → InboundFrame N
  sync_adjust : SyncAdjustFrame N → InboundFrame N
  clock_pong : ClockPongFrame N → InboundFrame N
  error : ErrorFrame N → InboundFrame N
  notice : NoticeFrame N → InboundFrame N

-- The extension builds `CURSOR_CHANGE_REQUEST` with a `target` only; `PLAYLIST_UPDATE` entries
-- carry an optional source. `event` with `some value` is a seek.
pub data OutboundFrame (N : Type 0) : Type 0 where
  join : JoinFrame N → OutboundFrame N
  event : EventKind → Option N → N → OutboundFrame N
  cursor_change_request_entry : String → N → OutboundFrame N
  cursor_change_request : VideoRefWithMeta N → N → OutboundFrame N
  playlist_update_out : List (VideoRefWithMeta N × Option PlaylistEntrySource) → N → OutboundFrame N
  heartbeat : N → PlayerState → OutboundFrame N
  clock_ping : N → OutboundFrame N
  buffer : BufferKind → N → OutboundFrame N
