-- ===== src/Session/Folds.antt =====
-- The server-frame folds of extension/src/background/session.ts. A fold returns the new session and
-- the commands that bring the tab to the room's state.
use text.Mathlib.Text.{◌==◌ as str_eq}
use playback_sync.Base.{Bool, false, Option, none, some, List, [], ◌∷◌, String, if◌then◌else◌}
use playback_sync.Number.{Number}
use playback_sync.Protocol.Frames.{
  PlayerState, playing, paused, buffering, RoomStateFrame, StateFrame, CursorChangeFrame,
  PlaylistUpdateInFrame, SyncAdjustFrame, SyncAdjustMode,
}
use playback_sync.Messages.{AuthoritativeCommand, play, pause, seek, nudge_rate, cursor_change}
use playback_sync.Session.{SessionState, RoomPlayback, Mode, single, freeform, default, or_null}

abbrev pub mode_of : Bool → Bool → Mode
mode_of single_mode freeform_mode =
    if single_mode then single else if freeform_mode then freeform else default

-- `pendingCursorTarget !== null && frame.cursor.videoId === pendingCursorTarget`
abbrev pub confirms : Option String → String → Bool
confirms none video_id = false
confirms (some target) video_id = str_eq video_id target

module _ {N : Type 0} where
  -- The play or pause that `applyRoomState` pushes after the seek.
  abbrev pub push_play_state : PlayerState → List (AuthoritativeCommand N)
  push_play_state paused = pause ∷ []
  push_play_state playing = play ∷ []
  push_play_state buffering = []

  unfoldable pub apply_room_state :
      SessionState N → RoomStateFrame N → SessionState N × List (AuthoritativeCommand N)
  apply_room_state s frame = (
    record s {
      client_id = some frame.client_id;
      nickname = or_null frame.nickname;
      last_event_id = frame.last_event_id;
      cursor = frame.cursor;
      pending_cursor_target = none;
      playlist_version = some frame.playlist_version;
      mode = mode_of frame.single_mode frame.freeform_mode;
      last_room_playback = some (record {
        video_pos = frame.video_pos;
        player_state = frame.player_state;
        server_ts = frame.server_ts;
      });
    },
    seek frame.video_pos ∷ push_play_state frame.player_state,
  )

  -- The commands of `applyState`.
  abbrev pub state_commands : PlayerState → N → List (AuthoritativeCommand N)
  state_commands paused pos = seek pos ∷ pause ∷ []
  state_commands playing pos = seek pos ∷ play ∷ []
  state_commands buffering pos = []

  unfoldable pub apply_playlist_update :
      SessionState N → PlaylistUpdateInFrame N → SessionState N × List (AuthoritativeCommand N)
  apply_playlist_update s frame =
      (record s { playlist = frame.entries; playlist_version = some frame.playlist_version }, [])

  -- The cached position and time of the room, if there is a snapshot.
  abbrev pub refresh_playback : N → N → Option (RoomPlayback N) → Option (RoomPlayback N)
  refresh_playback pos ts none = none
  refresh_playback pos ts (some p) = some (record p { video_pos = pos; server_ts = ts })

  abbrev pub adjust_commands : SyncAdjustMode → N → List (AuthoritativeCommand N)
  adjust_commands SyncAdjustMode.seek pos = seek pos ∷ []
  adjust_commands SyncAdjustMode.nudge_rate pos = nudge_rate pos ∷ []

  unfoldable pub apply_sync_adjust :
      SessionState N → SyncAdjustFrame N → SessionState N × List (AuthoritativeCommand N)
  apply_sync_adjust s frame = (
    record s {
      last_room_playback = refresh_playback frame.target_pos frame.server_time s.last_room_playback;
    },
    adjust_commands frame.mode frame.target_pos,
  )

module _ {N : Type 0} ⦃n : Number N⦄ where
  unfoldable pub apply_state :
      SessionState N → StateFrame N → SessionState N × List (AuthoritativeCommand N)
  apply_state s frame = (
    record s {
      last_event_id = n.maximum s.last_event_id frame.event_id;
      last_room_playback = some (record {
        video_pos = frame.video_pos;
        player_state = frame.player_state;
        server_ts = frame.server_ts;
      });
    },
    state_commands frame.player_state frame.video_pos,
  )

  unfoldable pub apply_cursor_change :
      SessionState N → CursorChangeFrame N → SessionState N × List (AuthoritativeCommand N)
  apply_cursor_change s frame = (
    record s {
      cursor = some frame.cursor;
      pending_cursor_target =
          if confirms s.pending_cursor_target frame.cursor.video_id
          then none
          else s.pending_cursor_target;
      last_event_id = n.maximum s.last_event_id frame.event_id;
    },
    cursor_change frame.cursor.page_url ∷ [],
  )
