-- ===== src/Ws/Runs.antt =====
-- The life of one runtime of extension/src/background/ws.ts as a sequence of events. An event that
-- the browser cannot deliver in the current state (a message on no socket, a cancelled timer)
-- changes nothing. A reconnect timer fires while there is no socket: it is started by a close, and
-- the next close needs the socket that it opens.
use playback_sync.Base.{
  ℕ, Bool, true, false, Option, none, some, List, [], ◌∷◌, String, if◌then◌else◌,
}
use playback_sync.Number.{Number}
use playback_sync.Protocol.Frames.{InboundFrame, VideoRef, VideoRefWithMeta}
use playback_sync.Tabs.{TabEntry}
use playback_sync.Ws.{ReadyState, connecting, opened, Ws, set_self, is_open, is_pooled}
use playback_sync.Ws.Lifecycle.{
  on_open, on_close, flush_join, reconnect_due, disconnect, report_identity, report_catalog,
}
use playback_sync.Ws.Frames.{handle_frame, fire_heartbeat, fire_clock_ping, clock_ping_due}

pub data Event (N : Type 0) : Type 0 where
  socket_open : Event N
  frame : ℕ → InboundFrame N → Event N
  socket_close : String → Event N
  heartbeat_tick : ℕ → Option (TabEntry N) → Event N
  clock_tick : N → Event N
  burst_tick : N → Event N
  join_deadline : Event N
  reconnect_timer : Event N
  identity : VideoRef → Event N
  catalog : Option (List (VideoRefWithMeta N)) → Event N
  leave : Event N

abbrev pub is_connecting : Option ReadyState → Bool
is_connecting (some connecting) = true
is_connecting _ = false

abbrev pub has_socket : Option ReadyState → Bool
has_socket none = false
has_socket (some _) = true

module _ {N : Type 0} ⦃n : Number N⦄ (url_ok : String → Bool) (same : N → N → Bool) where
  unfoldable pub step : Ws N → Event N → Ws N
  step w socket_open =
      if is_connecting w.self.socket
      then on_open (set_self (record w.self { socket = some opened }) w)
      else w
  step w (frame now f) = if is_open w.self.socket then handle_frame same now f w else w
  step w (socket_close reason) = if has_socket w.self.socket then on_close reason w else w
  step w (heartbeat_tick now entry) =
      if w.self.heartbeat_timer then fire_heartbeat now entry w else w
  step w (clock_tick t1) = if w.self.clock_timer then fire_clock_ping same t1 w else w
  step w (burst_tick t1) = clock_ping_due same t1 w
  step w join_deadline = if w.self.pending_join_deadline then flush_join w else w
  step w reconnect_timer = if has_socket w.self.socket then w else reconnect_due url_ok w
  step w (identity ref) = if is_pooled w then report_identity ref w else w
  step w (catalog entries) = if is_pooled w then report_catalog entries w else w
  step w leave = if is_pooled w then disconnect w else w

  unfoldable pub run : Ws N → List (Event N) → Ws N
  run w [] = w
  run w (e ∷ es) = run (step w e) es
