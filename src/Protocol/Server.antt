-- ===== src/Protocol/Server.antt =====
-- The frames as the server means them, and what they are to a client. A ROOM_STATE replays the playback
-- events that a client missed, as `recentEventsSince` of lib/WebSocket/RoomRuntime.php picks them: those
-- of its log that carry an id, the moves of the cursor among them, though the extension's frame has no
-- such event. A notice carries the whole projection of a video, of which a client reads the label.
use playback_sync.Base.{Option, none, some, List, [], ◌∷◌, String, Bool}
use playback_sync.Protocol.Frames.{
  PlayerState, EventKind, CursorRef, RecentEvent, RoomStateFrame, StateFrame, CursorChangeFrame,
  PlaylistUpdateInFrame, SyncAdjustFrame, ClockPongFrame, ErrorFrame, NoticeEvent, NoticeCategory,
  NoticeActor, NoticeData, InboundFrame,
}

-- The type of a playback event of the log.
pub data ReplayKind : Type 0 where
  playback : EventKind → ReplayKind
  cursor_moved : ReplayKind

-- An absent value is written as `null`.
pub record ReplayEvent (N : Type 0) : Type 0 where
  pub kind : ReplayKind
  pub value : Option N
  pub client_id : String
  pub ts : N
  pub event_id : N

pub record ServerRoomState (N : Type 0) : Type 0 where
  pub client_id : String
  pub nickname : String
  pub single_mode : Bool
  pub freeform_mode : Bool
  pub cursor : Option CursorRef
  pub playlist_version : String
  pub player_state : PlayerState
  pub video_pos : N
  pub last_event_id : N
  pub server_ts : N
  pub recent_events : List (ReplayEvent N)

-- `videoRefOf` of lib/WebSocket/Admin/RoomBroadcastController.php.
pub record ServerVideoRef (N : Type 0) : Type 0 where
  pub provider_id : String
  pub video_id : String
  pub page_url : String
  pub label : Option String
  pub episode_number : Option N

pub record ServerNoticeData (N : Type 0) : Type 0 where
  pub value : Option N
  pub video_ref : Option (ServerVideoRef N)
  pub nickname : Option String
  pub reason : Option String

pub record ServerNotice (N : Type 0) : Type 0 where
  pub event : NoticeEvent
  pub category : NoticeCategory
  pub actor : NoticeActor
  pub actor_id : Option String
  pub payload : Option (ServerNoticeData N)
  pub server_ts : N

pub data ServerFrame (N : Type 0) : Type 0 where
  room_state : ServerRoomState N → ServerFrame N
  state : StateFrame N → ServerFrame N
  cursor_change : CursorChangeFrame N → ServerFrame N
  playlist_update : PlaylistUpdateInFrame N → ServerFrame N
  sync_adjust : SyncAdjustFrame N → ServerFrame N
  clock_pong : ClockPongFrame N → ServerFrame N
  error : ErrorFrame N → ServerFrame N
  notice : ServerNotice N → ServerFrame N

abbrev pub client_kind : ReplayKind → Option EventKind
client_kind (playback k) = some k
client_kind cursor_moved = none

abbrev pub joined {ℓ} : {A : Type ℓ} → Option A → Option (List A) → Option (List A)
joined none cs = none
joined (some c) none = none
joined (some c) (some cs) = some (c ∷ cs)

abbrev pub held {ℓ} : {A : Type ℓ} → Option A → Option (Option A)
held none = none
held (some a) = some (some a)

module _ {N : Type 0} where
  abbrev pub of_kind : ReplayEvent N → Option EventKind → Option (RecentEvent N)
  of_kind e none = none
  of_kind e (some k) = some (record {
    kind = k;
    value = e.value;
    client_id = e.client_id;
    ts = e.ts;
    event_id = e.event_id;
  })

  abbrev pub client_event : ReplayEvent N → Option (RecentEvent N)
  client_event e = of_kind e (client_kind e.kind)

  -- Nothing if one of the events is a move of the cursor.
  abbrev pub client_events : List (ReplayEvent N) → Option (List (RecentEvent N))
  client_events [] = some []
  client_events (e ∷ es) = joined (client_event e) (client_events es)

  -- Without events the field is left out.
  abbrev pub client_replay : List (ReplayEvent N) → Option (Option (List (RecentEvent N)))
  client_replay [] = some none
  client_replay (e ∷ es) = held (client_events (e ∷ es))

  abbrev pub client_room_state :
      ServerRoomState N → Option (List (RecentEvent N)) → RoomStateFrame N
  client_room_state f events = record {
    client_id = f.client_id;
    nickname = f.nickname;
    single_mode = f.single_mode;
    freeform_mode = f.freeform_mode;
    cursor = f.cursor;
    playlist_version = f.playlist_version;
    player_state = f.player_state;
    video_pos = f.video_pos;
    last_event_id = f.last_event_id;
    server_ts = f.server_ts;
    recent_events = events;
  }

  abbrev pub client_ref : Option (ServerVideoRef N) → Option (Option String)
  client_ref none = none
  client_ref (some r) = some r.label

  abbrev pub client_data : Option (ServerNoticeData N) → Option (NoticeData N)
  client_data none = none
  client_data (some d) = some (record {
    value = d.value;
    video_ref = client_ref d.video_ref;
    nickname = d.nickname;
    reason = d.reason;
  })

  abbrev pub told :
      ServerRoomState N → Option (Option (List (RecentEvent N))) → Option (InboundFrame N)
  told f none = none
  told f (some events) = some (InboundFrame.room_state (client_room_state f events))

  -- What a frame is to a client; nothing if the client has no such frame.
  abbrev pub client_frame : ServerFrame N → Option (InboundFrame N)
  client_frame (ServerFrame.room_state f) = told f (client_replay f.recent_events)
  client_frame (ServerFrame.state f) = some (InboundFrame.state f)
  client_frame (ServerFrame.cursor_change f) = some (InboundFrame.cursor_change f)
  client_frame (ServerFrame.playlist_update f) = some (InboundFrame.playlist_update f)
  client_frame (ServerFrame.sync_adjust f) = some (InboundFrame.sync_adjust f)
  client_frame (ServerFrame.clock_pong f) = some (InboundFrame.clock_pong f)
  client_frame (ServerFrame.error f) = some (InboundFrame.error f)
  client_frame (ServerFrame.notice f) = some (
      InboundFrame.notice (record {
        event = f.event;
        category = f.category;
        actor = f.actor;
        actor_id = f.actor_id;
        payload = client_data f.payload;
        server_ts = f.server_ts;
      }))
