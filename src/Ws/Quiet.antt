-- ===== src/Ws/Quiet.antt =====
-- The frames and the timers of extension/src/background/ws.ts send no JOIN.
use playback_sync.Base.{ℕ, Bool, refl, ◌&&◌, Option, none, some}
use playback_sync.Number.{Number}
use playback_sync.Protocol.Frames.{
  clock_ping, InboundFrame, room_state, state, cursor_change, playlist_update, sync_adjust,
  clock_pong, error, notice,
}
use playback_sync.Messages.{VideoState, peer}
use playback_sync.Tabs.{TabEntry}
use playback_sync.Session.Folds.{apply_room_state}
use playback_sync.Ws.{
  lifecycle_change, notify_room_state_changed, notify_cursor_changed, is_terminal, is_pooled, Ws,
  dispatch_notice, terminal, is_open, set_self,
}
use playback_sync.Ws.Frames.{
  heartbeat_state, add_ping, dispatch_to_owner, save_assigned_id, handle_frame, fire_heartbeat,
  fire_clock_ping, clock_ping_due,
}
use playback_sync.Ws.Joins.{
  IsQuiet, done, emitted, chosen, chained, quiet_out, send_frame-IsQuiet, dispatch_to_owner-IsQuiet,
  greet-IsQuiet, save_assigned_id-IsQuiet,
}

module _ {N : Type 0} ⦃n : Number N⦄ where
  heartbeat_state-IsQuiet :
      (now : ℕ) (sample : Option (VideoState N)) (at : ℕ) (w : Ws N)
      → IsQuiet w (heartbeat_state now sample at w)
  unfolding heartbeat_state
  heartbeat_state-IsQuiet now none at w = done w
  heartbeat_state-IsQuiet now (some sample) at w = send_frame-IsQuiet _ w refl

module _ {N : Type 0} ⦃n : Number N⦄ (same : N → N → Bool) where
  pub handle_frame-IsQuiet :
      (now : ℕ) (f : InboundFrame N) (w : Ws N) → IsQuiet w (handle_frame same now f w)
  unfolding handle_frame
  handle_frame-IsQuiet now (room_state f) w =
      let v = save_assigned_id f.client_id w in
      let v' = dispatch_to_owner now (apply_room_state w.self.session f) v in
      emitted w _ lifecycle_change refl (
        emitted w _ notify_room_state_changed refl (
          chained w v _ (save_assigned_id-IsQuiet f.client_id w)
            (chained v v' _ (dispatch_to_owner-IsQuiet now _ v) (greet-IsQuiet f.nickname v'))))
  handle_frame-IsQuiet now (state f) w = dispatch_to_owner-IsQuiet now _ w
  handle_frame-IsQuiet now (cursor_change f) w =
      emitted w _ notify_cursor_changed refl (dispatch_to_owner-IsQuiet now _ w)
  handle_frame-IsQuiet now (playlist_update f) w = record { same_joins = refl }
  handle_frame-IsQuiet now (sync_adjust f) w = dispatch_to_owner-IsQuiet now _ w
  handle_frame-IsQuiet now (clock_pong f) w = record { same_joins = refl }
  handle_frame-IsQuiet now (error f) w =
      chosen (is_terminal f.code)
        (record { same_joins = quiet_out (terminal f.message (some f.code)) w.out refl }) (done w)
  handle_frame-IsQuiet now (notice f) w =
      emitted w w (dispatch_notice (peer f.event f.actor f.actor_id f.payload)) refl (done w)

  pub fire_heartbeat-IsQuiet :
      (now : ℕ) (entry : Option (TabEntry N)) (w : Ws N) → IsQuiet w (fire_heartbeat now entry w)
  unfolding fire_heartbeat
  fire_heartbeat-IsQuiet now none w = done w
  fire_heartbeat-IsQuiet now (some entry) w =
      heartbeat_state-IsQuiet now entry.latest_state entry.last_state_at w

  pub fire_clock_ping-IsQuiet : (t1 : N) (w : Ws N) → IsQuiet w (fire_clock_ping same t1 w)
  unfolding fire_clock_ping
  fire_clock_ping-IsQuiet t1 w = record {
    same_joins =
        (send_frame-IsQuiet (clock_ping t1)
          (set_self (record w.self { pending_pings = add_ping same t1 w.self.pending_pings }) w)
          refl).same_joins;
  }

  pub clock_ping_due-IsQuiet : (t1 : N) (w : Ws N) → IsQuiet w (clock_ping_due same t1 w)
  unfolding clock_ping_due
  clock_ping_due-IsQuiet t1 w =
      chosen (is_pooled w && is_open w.self.socket) (fire_clock_ping-IsQuiet t1 w) (done w)
