-- ===== src/Ws/Frames.antt =====
-- Inbound frames, timers and heartbeats of extension/src/background/ws.ts.
use text.Mathlib.Text.{◌==◌ as str_eq}
use playback_sync.Base.{
  ℕ, ◌-◌, min, Bool, true, false, not, Option, none, some, List, [], ◌∷◌, ◌++◌, String,
  if◌then◌else◌, remove, keep, any, ◌&&◌,
}
use playback_sync.Number.{Number}
use playback_sync.Protocol.Frames.{
  playing, heartbeat, clock_ping, InboundFrame, room_state, state, cursor_change, playlist_update,
  sync_adjust, clock_pong, error, notice,
}
use playback_sync.Protocol.Json.{Json}
use playback_sync.Protocol.Parts.{Decoded, ok, bad}
use playback_sync.Protocol.Decode.{decode}
use playback_sync.Messages.{AuthoritativeCommand, VideoState, welcome, peer}
use playback_sync.Session.{SessionState, mark_converged, reset_convergence}
use playback_sync.Session.Folds.{
  apply_room_state, apply_state, apply_cursor_change, apply_playlist_update, apply_sync_adjust,
}
use playback_sync.Session.Clock.{apply_clock_pong}
use playback_sync.Tabs.{TabEntry}
use playback_sync.Ws.{
  dispatch_command, dispatch_notice, terminal, lifecycle_change, save_client_id,
  notify_room_state_changed, notify_cursor_changed, Ws, is_terminal, heartbeat_extrapolation_cap_ms,
  emit, set_self, send_frame, is_open, is_pooled,
}

abbrev pub same_id : Option String → String → Bool
same_id none id = false
same_id (some old) id = str_eq old id

module _ {N : Type 0} where
  unfoldable pub set_session : SessionState N → Ws N → Ws N
  set_session s w = set_self (record w.self { session = s }) w

  unfoldable pub dispatch_all : List (AuthoritativeCommand N) → Ws N → Ws N
  dispatch_all [] w = w
  dispatch_all (cmd ∷ cmds) w = dispatch_all cmds (emit (dispatch_command cmd) w)

  -- The folded session, its commands, and the convergence mark behind them.
  unfoldable pub dispatch_to_owner :
      ℕ → SessionState N × List (AuthoritativeCommand N) → Ws N → Ws N
  unfolding set_session dispatch_all mark_converged
  dispatch_to_owner now (s, []) w = set_session s w
  dispatch_to_owner now (s, cmd ∷ cmds) w =
      set_session (mark_converged now s) (dispatch_all (cmd ∷ cmds) w)

  -- The id that a ROOM_STATE assigns goes to the storage unless the session has it already.
  unfoldable pub save_assigned_id : String → Ws N → Ws N
  save_assigned_id id w =
      if same_id w.self.session.client_id id then w else emit (save_client_id id) w

  -- The welcome is shown once in the life of a runtime.
  unfoldable pub greet : String → Ws N → Ws N
  greet nickname w =
      if w.self.welcome_shown
      then w
      else emit (dispatch_notice (welcome nickname))
          (set_self (record w.self { welcome_shown = true }) w)

module _ {N : Type 0} ⦃n : Number N⦄ where
  -- `same` tells whether two ping times are equal as keys of the map.
  module _ (same : N → N → Bool) where
    unfoldable pub handle_frame : ℕ → InboundFrame N → Ws N → Ws N
    unfolding set_session
    handle_frame now (room_state f) w = emit lifecycle_change (
        emit notify_room_state_changed (
          greet f.nickname (
            dispatch_to_owner now (apply_room_state w.self.session f)
              (save_assigned_id f.client_id w))))
    handle_frame now (state f) w = dispatch_to_owner now (apply_state w.self.session f) w
    handle_frame now (cursor_change f) w =
        emit notify_cursor_changed
          (dispatch_to_owner now (apply_cursor_change (reset_convergence w.self.session) f) w)
    handle_frame now (playlist_update f) w =
        set_session (apply_playlist_update w.self.session f).0 w
    handle_frame now (sync_adjust f) w =
        dispatch_to_owner now (apply_sync_adjust w.self.session f) w
    handle_frame now (clock_pong f) w =
        let t1 = f.client_send_time in
        set_self
          (record w.self {
            pending_pings = keep (λ t. not (same t t1)) w.self.pending_pings;
            session =
                apply_clock_pong w.self.session t1 f.server_recv_time f.server_send_time
                  (n.lit now);
          })
          w
    handle_frame now (notice f) w =
        emit (dispatch_notice (peer f.event f.actor f.actor_id f.payload)) w
    handle_frame now (error f) w =
        if is_terminal f.code
        then (let w' =
              emit (terminal f.message (some f.code))
                (set_self (record w.self { terminated = true }) w) in
            record w' { pool = remove w.self.tab_id w.pool })
        else w

    -- `none` is a message event whose data is no text.
    unfoldable pub on_message : (String → Decoded (Json N)) → ℕ → Option String → Ws N → Ws N
    unfolding handle_frame
    on_message parse now none w = w
    on_message parse now (some raw) w = elim (decode parse raw) [
      | bad _ _ ↦ w
      | ok frame ↦ handle_frame now frame w
    ]

  -- The position that a heartbeat reports: a playing one moved on by the age of the snapshot, at
  -- most two seconds. `max(0, now - at)` is the native subtraction.
  unfoldable pub heartbeat_position : ℕ → VideoState N → ℕ → N
  heartbeat_position now sample last_state_at = elim sample.player_state [
    | playing ↦
        n.add sample.current_pos
          (n.div (n.lit (min (now - last_state_at) heartbeat_extrapolation_cap_ms)) (n.lit 1000))
    | _ ↦ sample.current_pos
  ]

  unfoldable pub heartbeat_state : ℕ → Option (VideoState N) → ℕ → Ws N → Ws N
  unfolding heartbeat_position send_frame
  heartbeat_state now none last_state_at w = w
  heartbeat_state now (some sample) last_state_at w =
      send_frame (heartbeat (heartbeat_position now sample last_state_at) sample.player_state) w

  -- The entry is what `getTab` returns.
  unfoldable pub fire_heartbeat : ℕ → Option (TabEntry N) → Ws N → Ws N
  unfolding heartbeat_state
  fire_heartbeat now none w = w
  fire_heartbeat now (some entry) w = heartbeat_state now entry.latest_state entry.last_state_at w

  module _ (same : N → N → Bool) where
    -- `pendingPings.set(t1, t1)`
    abbrev pub add_ping : N → List N → List N
    add_ping t1 pings = if any (same t1) pings then pings else pings ++ t1 ∷ []

    -- `t1` is what `startClockPing` returns.
    unfoldable pub fire_clock_ping : N → Ws N → Ws N
    unfolding send_frame
    fire_clock_ping t1 w =
        send_frame (clock_ping t1)
          (set_self (record w.self { pending_pings = add_ping t1 w.self.pending_pings }) w)

    -- The callback of a ping of the initial burst, which checks that the runtime is still the tab's
    -- pooled one and its socket open.
    unfoldable pub clock_ping_due : N → Ws N → Ws N
    unfolding fire_clock_ping
    clock_ping_due t1 w = if is_pooled w && is_open w.self.socket then fire_clock_ping t1 w else w
