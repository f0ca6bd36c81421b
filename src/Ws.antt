-- ===== src/Ws.antt =====
-- extension/src/background/ws.ts: the WebSocket client of one tab. A handler works on the runtime
-- object that it closes over and on the shared pool; what it calls outside (the socket, timers, the
-- popup channel and the entrypoint's callbacks) is a list of outputs, in the order of the calls.
pub mod Lifecycle
pub mod Frames
pub mod Senders
pub mod Runs
pub mod Effects
pub mod Sound
pub mod Invariant
pub mod Joins
pub mod Quiet
pub mod Kept
pub mod Joining
pub mod Once
pub mod Attempts
pub mod Backoff
pub mod Delivery
use text.Mathlib.Text.{◌==◌ as str_eq}
use playback_sync.Base.{
  ℕ, ◌+◌, Bool, true, false, ◌||◌, Option, none, some, List, [], ◌∷◌, ◌++◌, String, if◌then◌else◌,
  NumMap, any, lookup, ◌==◌,
}
use playback_sync.Protocol.Frames.{OutboundFrame, VideoRef, VideoRefWithMeta}
use playback_sync.Messages.{AuthoritativeCommand, Notice}
use playback_sync.Session.{SessionState}

-- `PbSyncCreds` of storage.ts.
pub record Creds : Type 0 where
  pub sync_url : String
  pub sync_password : String
  pub client_id : Option String

pub data ReadyState : Type 0 where
  connecting opened closing closed : ReadyState

-- `id` is the identity of the object; a timer handle is only whether it is set.
pub record Runtime (N : Type 0) : Type 0 where
  pub id : ℕ
  pub tab_id : ℕ
  pub socket : Option ReadyState
  pub heartbeat_timer : Bool
  pub clock_timer : Bool
  pub pending_pings : List N
  pub reconnect_attempt : ℕ
  pub terminated : Bool
  pub creds : Creds
  pub session : SessionState N
  pub last_identity : Option VideoRef
  pub last_catalog : Option (List (VideoRefWithMeta N))
  pub catalog_reported : Bool
  pub pending_join_deadline : Bool
  pub first_join_sent : Bool
  pub welcome_shown : Bool

-- What a handler asks of the outside. `send` is a call of `socket.send`; a timer is started with its
-- delay in milliseconds.
pub data Output (N : Type 0) : Type 0 where
  send : OutboundFrame N → Output N
  close_socket : Output N
  start_join_deadline : ℕ → Output N
  start_reconnect : ℕ → Output N
  start_clock_ping : ℕ → Output N
  dispatch_command : AuthoritativeCommand N → Output N
  dispatch_notice : Notice N → Output N
  terminal : String → Option String → Output N
  lifecycle_change : Output N
  save_client_id : String → Output N
  notify_connecting : String → Output N
  notify_open : Output N
  notify_disconnected : Output N
  notify_room_state_changed : Output N
  notify_cursor_changed : Output N

-- `pool` maps a tab to the identity of its runtime.
pub record Ws (N : Type 0) : Type 0 where
  pub pool : NumMap ℕ
  pub self : Runtime N
  pub out : List (Output N)

abbrev pub terminal_error_codes : List String
terminal_error_codes =
    "ROOM_NOT_FOUND" ∷ "ROOM_EXPIRED" ∷ "ROOM_DELETED" ∷ "AUTH_FAILED" ∷ "KICKED"
    ∷ "CLIENT_ID_IN_USE" ∷ []

abbrev pub is_terminal : String → Bool
is_terminal code = any (str_eq code) terminal_error_codes

abbrev pub heartbeat_extrapolation_cap_ms : ℕ
heartbeat_extrapolation_cap_ms = 2000

abbrev pub clock_ping_burst_spacing_ms : ℕ
clock_ping_burst_spacing_ms = 250

abbrev pub first_join_deferral_ms : ℕ
first_join_deferral_ms = 3000

abbrev pub reconnect_backoff_ms : List ℕ
reconnect_backoff_ms = 1000 ∷ 2000 ∷ 4000 ∷ 8000 ∷ 16000 ∷ 30000 ∷ []

abbrev pub is_open : Option ReadyState → Bool
is_open (some opened) = true
is_open _ = false

abbrev pub is_id : Option ℕ → ℕ → Bool
is_id none id = false
is_id (some other) id = other == id

module _ {N : Type 0} where
  -- `pool.get(r.tabId) === r`
  abbrev pub is_pooled : Ws N → Bool
  is_pooled w = is_id (lookup w.self.tab_id w.pool) w.self.id

  abbrev pub emit : Output N → Ws N → Ws N
  emit o w = record w { out = w.out ++ o ∷ [] }

  abbrev pub set_self : Runtime N → Ws N → Ws N
  set_self r w = record w { self = r }

  -- `send(r, frame)`: nothing is sent where there is no socket.
  unfoldable pub send_frame : OutboundFrame N → Ws N → Ws N
  send_frame frame w = elim w.self.socket [ none ↦ w | some _ ↦ emit (send frame) w ]
