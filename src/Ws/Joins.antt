-- ===== src/Ws/Joins.antt =====
-- The JOIN frames that a runtime of extension/src/background/ws.ts sends in its life.
use mathlib.Core.List.{append-nil}
use playback_sync.Base.{
  gathered, added, gathered-append, ℕ, ◌+◌, Bool, true, false, ◌≡◌, ap, ◌∙◌, refl, Option, none,
  some, List, [], ◌∷◌, ◌++◌, String, NumMap, arith, ltb, length, if◌then◌else◌,
}
use playback_sync.Protocol.Frames.{OutboundFrame, JoinFrame, join}
use playback_sync.Messages.{AuthoritativeCommand, welcome}
use playback_sync.Session.{SessionState}
use playback_sync.Ws.{
  close_socket, start_clock_ping, start_join_deadline, lifecycle_change, notify_open,
  notify_disconnected, first_join_deferral_ms, is_terminal, Ws, Runtime, Output, dispatch_command,
  dispatch_notice, save_client_id, terminal, notify_connecting, reconnect_backoff_ms, send, emit,
  send_frame, set_self,
}
use playback_sync.Ws.Lifecycle.{
  announce_open, defer_join, on_close, schedule_reconnect, open_socket, reconnect_due, close_if_any,
  disconnect, start_timers, schedule_initial_clock_pings,
}
use playback_sync.Ws.Frames.{same_id, dispatch_all, dispatch_to_owner, greet, save_assigned_id}

module _ {N : Type 0} where
  abbrev pub join_of : Output N → Option (JoinFrame N)
  join_of (send (join f)) = some f
  join_of _ = none

  -- The JOIN frames among the outputs, in the order in which they are sent.
  abbrev pub joins : List (Output N) → List (JoinFrame N)
  joins os = gathered join_of os

  pub quiet_out :
      (o : Output N) (os : List (Output N)) → join_of o ≡ none → joins (os ++ o ∷ []) ≡ joins os
  quiet_out o os h =
      gathered-append join_of os (o ∷ [])
      ∙ ap (λ j. joins os ++ added j []) h
      ∙ append-nil (joins os)

-- A handler that sends no JOIN.
pub record IsQuiet {N : Type 0} (w w' : Ws N) : Type 0 where
  pub same_joins : joins w'.out ≡ joins w.out

module _ {N : Type 0} where
  pub done : (w : Ws N) → IsQuiet w w
  done w = record { same_joins = refl }

  moved :
      (w : Ws N) (r : Runtime N) (pool : NumMap ℕ) (out : List (Output N))
      → IsQuiet w (record { self = w.self; pool = w.pool; out = out })
      → IsQuiet w (record { self = r; pool = pool; out = out })
  moved w r pool out v = record { same_joins = v.same_joins }

  pub emitted : (u w : Ws N) (o : Output N) → join_of o ≡ none → IsQuiet u w → IsQuiet u (emit o w)
  emitted u w o h v = record { same_joins = quiet_out o w.out h ∙ v.same_joins }

  pub chosen :
      (b : Bool) {u w w' : Ws N} → IsQuiet u w → IsQuiet u w' → IsQuiet u (if b then w else w')
  chosen true v v' = v
  chosen false v v' = v'

  pub chained : (u v w : Ws N) → IsQuiet u v → IsQuiet v w → IsQuiet u w
  chained u v w p q = record { same_joins = q.same_joins ∙ p.same_joins }

  pub send_frame-IsQuiet :
      (f : OutboundFrame N) (w : Ws N) → join_of (send f) ≡ none → IsQuiet w (send_frame f w)
  unfolding send_frame
  send_frame-IsQuiet f w h = record { same_joins = ground (arith, quiet_out (send f) w.out h) }

  dispatch_all-IsQuiet :
      (cs : List (AuthoritativeCommand N)) (w : Ws N) → IsQuiet w (dispatch_all cs w)
  unfolding dispatch_all
  dispatch_all-IsQuiet [] w = done w
  dispatch_all-IsQuiet (c ∷ cs) w =
      chained w (emit (dispatch_command c) w) _ (emitted w w (dispatch_command c) refl (done w))
        (dispatch_all-IsQuiet cs (emit (dispatch_command c) w))

  pub dispatch_to_owner-IsQuiet :
      (now : ℕ) (sc : SessionState N × List (AuthoritativeCommand N)) (w : Ws N)
      → IsQuiet w (dispatch_to_owner now sc w)
  unfolding dispatch_to_owner
  dispatch_to_owner-IsQuiet now (s, []) w = record { same_joins = refl }
  dispatch_to_owner-IsQuiet now (s, c ∷ cs) w = record {
    same_joins = (dispatch_all-IsQuiet (c ∷ cs) w).same_joins;
  }

  pub greet-IsQuiet : (s : String) (w : Ws N) → IsQuiet w (greet s w)
  unfolding greet
  greet-IsQuiet s w =
      chosen w.self.welcome_shown (done w)
        (record { same_joins = quiet_out (dispatch_notice (welcome s)) w.out refl })

  pub save_assigned_id-IsQuiet : (s : String) (w : Ws N) → IsQuiet w (save_assigned_id s w)
  unfolding save_assigned_id
  save_assigned_id-IsQuiet s w =
      chosen (same_id w.self.session.client_id s) (done w)
        (emitted w w (save_client_id s) refl (done w))

  schedule_reconnect-IsQuiet : (w : Ws N) → IsQuiet w (schedule_reconnect w)
  unfolding schedule_reconnect
  schedule_reconnect-IsQuiet w =
      chosen (ltb (length reconnect_backoff_ms + 1) (w.self.reconnect_attempt + 1))
        (record { same_joins = quiet_out _ w.out refl })
        (record { same_joins = quiet_out _ w.out refl })

  pub open_socket-IsQuiet : (url_ok : String → Bool) (w : Ws N) → IsQuiet w (open_socket url_ok w)
  unfolding open_socket
  open_socket-IsQuiet url_ok w =
      chosen (url_ok w.self.creds.sync_url)
        (record { same_joins = quiet_out (notify_connecting w.self.creds.sync_url) w.out refl })
        (record {
          same_joins =
              quiet_out (terminal "invalid sync url" none)
                (w.out ++ notify_connecting w.self.creds.sync_url ∷ []) refl
              ∙ quiet_out (notify_connecting w.self.creds.sync_url) w.out refl;
        })

  close_if_any-IsQuiet : (w : Ws N) → IsQuiet w (close_if_any w)
  unfolding close_if_any
  close_if_any-IsQuiet w = record { same_joins = ground (arith, quiet_out close_socket w.out refl) }

  pub disconnect-IsQuiet : (w : Ws N) → IsQuiet w (disconnect w)
  unfolding disconnect
  disconnect-IsQuiet w =
      let v =
        set_self
          (record w.self {
            heartbeat_timer = false;
            clock_timer = false;
            terminated = true;
            pending_join_deadline = false;
          })
          w in
      emitted w _ lifecycle_change refl (
        emitted w _ notify_disconnected refl
          (record { same_joins = (close_if_any-IsQuiet v).same_joins }))

  pub on_close-IsQuiet : (reason : String) (w : Ws N) → IsQuiet w (on_close reason w)
  unfolding on_close
  on_close-IsQuiet reason w =
      let v = emit lifecycle_change (
        emit notify_disconnected (
          set_self
            (record w.self {
              heartbeat_timer = false;
              clock_timer = false;
              pending_join_deadline = false;
              socket = none;
            })
            w)) in
      let told =
        emitted w (emit notify_disconnected w) lifecycle_change refl
          (emitted w w notify_disconnected refl (done w)) in
      chosen w.self.terminated (record { same_joins = told.same_joins })
        (chosen (is_terminal reason)
          (record {
            same_joins = quiet_out (terminal reason (some reason)) v.out refl ∙ told.same_joins;
          })
          (record { same_joins = (schedule_reconnect-IsQuiet v).same_joins ∙ told.same_joins }))

  pub reconnect_due-IsQuiet :
      (url_ok : String → Bool) (w : Ws N) → IsQuiet w (reconnect_due url_ok w)
  unfolding reconnect_due
  reconnect_due-IsQuiet url_ok w = chosen w.self.terminated (done w) (open_socket-IsQuiet url_ok w)

  pub announce_open-IsQuiet : (w : Ws N) → IsQuiet w (announce_open w)
  unfolding announce_open schedule_initial_clock_pings
  announce_open-IsQuiet w = emitted w _ lifecycle_change refl (
      emitted w _ notify_open refl (
        emitted w _ _ refl (
          emitted w _ _ refl (
            emitted w _ _ refl (
              emitted w (set_self (start_timers (record w.self { reconnect_attempt = 0 })) w)
                (start_clock_ping 0) refl (record { same_joins = refl }))))))

  pub defer_join-IsQuiet : (w : Ws N) → IsQuiet w (defer_join w)
  unfolding defer_join
  defer_join-IsQuiet w = record {
    same_joins = quiet_out (start_join_deadline first_join_deferral_ms) w.out refl;
  }
