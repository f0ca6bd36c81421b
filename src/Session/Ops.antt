-- ===== src/Session/Ops.antt =====
-- Everything that the extension does to a session, as one type of operations: the folds and helpers
-- of extension/src/background/session.ts, and the two places of extension/entrypoints/background.ts
-- that write `awaitingReload` (the start and the end of a navigation-guard reload).
use playback_sync.Base.{ℕ, true, false, List, [], ◌∷◌, String}
use playback_sync.Number.{Number}
use playback_sync.Protocol.Frames.{
  RoomStateFrame, StateFrame, CursorChangeFrame, PlaylistUpdateInFrame, SyncAdjustFrame,
}
use playback_sync.Messages.{AuthoritativeCommand}
use playback_sync.Session.{
  SessionState, mark_converged, in_settle_window, reset_convergence, reset_connection_state,
  set_pending_cursor_target, clear_pending_cursor_target,
}
use playback_sync.Session.Folds.{
  apply_room_state, apply_state, apply_cursor_change, apply_playlist_update, apply_sync_adjust,
}
use playback_sync.Session.Windows.{record_command}
use playback_sync.Session.Clock.{apply_clock_pong}

-- A number is the wall clock at the call.
pub data Op (N : Type 0) : Type 0 where
  room_state : RoomStateFrame N → Op N
  state : StateFrame N → Op N
  cursor_change : CursorChangeFrame N → Op N
  playlist_update : PlaylistUpdateInFrame N → Op N
  sync_adjust : SyncAdjustFrame N → Op N
  clock_pong : N → N → N → N → Op N
  mark : ℕ → Op N
  settle : ℕ → Op N
  reset : Op N
  reconnect : Op N
  forward : String → Op N
  give_up_forward : Op N
  dispatch : ℕ → AuthoritativeCommand N → Op N
  begin_reload : Op N
  end_reload : ℕ → Op N

module _ {N : Type 0} where
  -- `resetConvergence(session); session.awaitingReload = true` of `recheckAndPullBack`.
  unfoldable pub begin_guard_reload : SessionState N → SessionState N
  unfolding reset_convergence
  begin_guard_reload s = record (reset_convergence s) { awaiting_reload = true }

  -- `session.awaitingReload = false; markConverged(session)` of `maybeEndGuardReload`, and of the
  -- fallback timer.
  unfoldable pub end_guard_reload : ℕ → SessionState N → SessionState N
  unfolding mark_converged
  end_guard_reload now s = mark_converged now (record s { awaiting_reload = false })

module _ {N : Type 0} ⦃n : Number N⦄ where
  unfoldable pub apply : SessionState N → Op N → SessionState N
  unfolding apply_room_state apply_state apply_cursor_change apply_playlist_update apply_sync_adjust
      apply_clock_pong mark_converged in_settle_window reset_convergence reset_connection_state
      set_pending_cursor_target clear_pending_cursor_target record_command begin_guard_reload
      end_guard_reload
  apply s (room_state f) = (apply_room_state s f).0
  apply s (state f) = (apply_state s f).0
  apply s (cursor_change f) = (apply_cursor_change s f).0
  apply s (playlist_update f) = (apply_playlist_update s f).0
  apply s (sync_adjust f) = (apply_sync_adjust s f).0
  apply s (clock_pong t1 t2 t3 t4) = apply_clock_pong s t1 t2 t3 t4
  apply s (mark now) = mark_converged now s
  apply s (settle now) = (in_settle_window now s).1
  apply s reset = reset_convergence s
  apply s reconnect = reset_connection_state s
  apply s (forward video_id) = set_pending_cursor_target video_id s
  apply s give_up_forward = clear_pending_cursor_target s
  apply s (dispatch now cmd) = record_command now s cmd
  apply s begin_reload = begin_guard_reload s
  apply s (end_reload now) = end_guard_reload now s

  unfoldable pub run : SessionState N → List (Op N) → SessionState N
  run s [] = s
  run s (o ∷ os) = run (apply s o) os
