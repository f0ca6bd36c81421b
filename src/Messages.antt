-- ===== src/Messages.antt =====
-- The values that the background exchanges with the content scripts: extension/src/adapters/types.ts
-- and extension/src/messages.ts. `N` is the type of JavaScript numbers.
use playback_sync.Base.{Option, String}
use playback_sync.Protocol.Frames.{EventKind, PlayerState, NoticeEvent, NoticeActor, NoticeData}

-- A play, pause or seek that the adapter observed, with the position.
pub record LocalIntent (N : Type 0) : Type 0 where
  pub kind : EventKind
  pub time : N

pub data AuthoritativeCommand (N : Type 0) : Type 0 where
  play : AuthoritativeCommand N
  pause : AuthoritativeCommand N
  seek : N → AuthoritativeCommand N
  nudge_rate : N → AuthoritativeCommand N
  cursor_change : String → AuthoritativeCommand N

pub record ContentIdentity : Type 0 where
  pub provider_id : String
  pub video_id : String
  pub normalized_url : String

pub record VideoState (N : Type 0) : Type 0 where
  pub current_pos : N
  pub player_state : PlayerState

-- A toast: the viewer's own welcome, or a peer's action as it came off the wire.
pub data Notice (N : Type 0) : Type 0 where
  welcome : String → Notice N
  peer : NoticeEvent → NoticeActor → Option String → Option (NoticeData N) → Notice N
