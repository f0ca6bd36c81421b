-- ===== src/Session.antt =====
-- extension/src/background/session.ts: the state of one tab's connection and its folds. A function
-- that mutates the session returns the new one; `now` is `Date.now()` in milliseconds.
pub mod Folds
pub mod Windows
pub mod Clock
pub mod Ops
pub mod Player
pub mod Echo
pub mod Gate
pub mod Watermark
pub mod Pending
use text.Mathlib.Text.{◌==◌ as str_eq}
use playback_sync.Base.{
  ℕ, ◌+◌, ◌-◌, Bool, true, false, ◌||◌, ◌&&◌, not, Option, none, some, List, [], ◌∷◌, ◌++◌, String,
  if◌then◌else◌, ltb, leb, length, any, keep,
}
use playback_sync.Number.{Number}
use playback_sync.Protocol.Frames.{
  PlayerState, playing, paused, buffering, EventKind, CursorRef, PlaylistEntry, RoomStateFrame,
  StateFrame, CursorChangeFrame, PlaylistUpdateInFrame, SyncAdjustFrame, SyncAdjustMode,
}
use playback_sync.Messages.{AuthoritativeCommand, LocalIntent}

abbrev pub suppression_window_ms : ℕ
suppression_window_ms = 600

abbrev pub seek_echo_tolerance_s : ℕ
seek_echo_tolerance_s = 1

abbrev pub join_settle_window_ms : ℕ
join_settle_window_ms = 1000

pub record RecentCommand (N : Type 0) : Type 0 where
  pub kind : EventKind
  pub at : ℕ
  pub time : Option N

pub record RoomPlayback (N : Type 0) : Type 0 where
  pub video_pos : N
  pub player_state : PlayerState
  pub server_ts : N

pub data Mode : Type 0 where
  default single freeform : Mode

pub record SessionState (N : Type 0) : Type 0 where
  pub client_id : Option String
  pub nickname : Option String
  pub last_event_id : N
  pub cursor : Option CursorRef
  pub pending_cursor_target : Option String
  pub playlist_version : Option String
  pub playlist : List (PlaylistEntry N)
  pub mode : Mode
  pub server_clock_offset_ms : N
  pub recent_commands : List (RecentCommand N)
  pub rtt_samples_ms : List N
  pub last_player_state : Option PlayerState
  pub converged : Bool
  pub ever_converged : Bool
  pub settle_until : Option ℕ
  pub awaiting_reload : Bool
  pub last_room_playback : Option (RoomPlayback N)

abbrev pub event_kind_eq : EventKind → EventKind → Bool
event_kind_eq EventKind.play EventKind.play = true
event_kind_eq EventKind.pause EventKind.pause = true
event_kind_eq EventKind.seek EventKind.seek = true
event_kind_eq _ _ = false

-- `cursor?.videoId ?? null`
abbrev pub cursor_video_id : Option CursorRef → Option String
cursor_video_id none = none
cursor_video_id (some c) = some c.video_id

-- `frame.nickname || null`
abbrev pub or_null : String → Option String
or_null s = if str_eq s "" then none else some s

module _ {N : Type 0} ⦃n : Number N⦄ where
  unfoldable pub create_session : SessionState N
  create_session = record {
    client_id = none;
    nickname = none;
    last_event_id = n.lit 0;
    cursor = none;
    pending_cursor_target = none;
    playlist_version = none;
    playlist = [];
    mode = default;
    server_clock_offset_ms = n.lit 0;
    recent_commands = [];
    rtt_samples_ms = [];
    last_player_state = none;
    converged = false;
    ever_converged = false;
    settle_until = none;
    awaiting_reload = false;
    last_room_playback = none;
  }

module _ {N : Type 0} where
  unfoldable pub mark_converged : ℕ → SessionState N → SessionState N
  mark_converged now s = if s.converged || s.awaiting_reload then s else record s {
    converged = true;
    ever_converged = true;
    settle_until = some (now + join_settle_window_ms);
  }

  -- The answer, and the session with an elapsed window cleared.
  unfoldable pub in_settle_window : ℕ → SessionState N → Bool × SessionState N
  in_settle_window now s = elim s.settle_until [
    | none ↦ (false, s)
    | some until ↦ if ltb now until then (true, s) else (false, record s { settle_until = none })
  ]

  abbrev pub has_converged : SessionState N → Bool
  has_converged s = s.converged

  abbrev pub has_ever_converged : SessionState N → Bool
  has_ever_converged s = s.ever_converged

  unfoldable pub reset_convergence : SessionState N → SessionState N
  reset_convergence s = record s { converged = false; settle_until = none }

  unfoldable pub reset_connection_state : SessionState N → SessionState N
  reset_connection_state s = record s {
    converged = false;
    ever_converged = false;
    settle_until = none;
    pending_cursor_target = none;
  }

  unfoldable pub set_pending_cursor_target : String → SessionState N → SessionState N
  set_pending_cursor_target video_id s = record s { pending_cursor_target = some video_id }

  unfoldable pub clear_pending_cursor_target : SessionState N → SessionState N
  clear_pending_cursor_target s = record s { pending_cursor_target = none }

  unfoldable pub effective_cursor_video_id : SessionState N → Option String
  effective_cursor_video_id s = elim s.pending_cursor_target [
    | none ↦ cursor_video_id s.cursor
    | some target ↦ some target
  ]
