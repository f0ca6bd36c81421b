-- ===== src/Ws/Senders.antt =====
-- The exported senders of extension/src/background/ws.ts, on the tab's pooled runtime. A tab with no
-- runtime in the pool sends nothing.
use playback_sync.Base.{ℕ, Bool, true, false, Option, none, some, List, if◌then◌else◌}
use playback_sync.Number.{Number}
use playback_sync.Protocol.Frames.{
  EventKind, VideoRefWithMeta, PlaylistEntrySource, OutboundFrame, event, cursor_change_request,
  playlist_update_out, buffer, BufferKind,
}
use playback_sync.Messages.{LocalIntent}
use playback_sync.Session.{Mode, freeform}
use playback_sync.Ws.{Ws, send_frame, is_open}

abbrev pub is_freeform : Mode → Bool
is_freeform freeform = true
is_freeform _ = false

-- The value that an EVENT carries: a seek's position.
abbrev pub event_value : {N : Type 0} → EventKind → N → Option N
event_value EventKind.seek time = some time
event_value _ time = none

module _ {N : Type 0} where
  -- `if (!r?.socket || r.socket.readyState !== WebSocket.OPEN) return`
  unfoldable pub send_if_open : OutboundFrame N → Ws N → Ws N
  unfolding send_frame
  send_if_open frame w = if is_open w.self.socket then send_frame frame w else w

module _ {N : Type 0} ⦃n : Number N⦄ where
  unfoldable pub send_event : ℕ → LocalIntent N → Ws N → Ws N
  unfolding send_if_open
  send_event now intent w =
      send_if_open (event intent.kind (event_value intent.kind intent.time) (n.lit now)) w

  unfoldable pub send_cursor_change_request : ℕ → VideoRefWithMeta N → Ws N → Ws N
  unfolding send_if_open
  send_cursor_change_request now target w =
      send_if_open (cursor_change_request target (n.lit now)) w

  -- `chain` is `opts.chainCursorTo`.
  unfoldable pub send_playlist_update :
      ℕ
      → List (VideoRefWithMeta N × Option PlaylistEntrySource)
      → Option (VideoRefWithMeta N)
      → Ws N
      → Ws N
  unfolding send_if_open send_cursor_change_request
  send_playlist_update now entries none w = send_if_open (playlist_update_out entries (n.lit now)) w
  send_playlist_update now entries (some chain) w =
      let sent = send_if_open (playlist_update_out entries (n.lit now)) w in
      if is_open w.self.socket
      then (if is_freeform w.self.session.mode
          then send_cursor_change_request now chain sent
          else sent)
      else w

  unfoldable pub send_buffer : BufferKind → N → Ws N → Ws N
  unfolding send_if_open
  send_buffer kind video_pos w = send_if_open (buffer kind video_pos) w
