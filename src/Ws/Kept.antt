-- ===== src/Ws/Kept.antt =====
-- The handlers of extension/src/background/ws.ts that keep the credentials and the latch of the first JOIN.
use playback_sync.Base.{
  ◌+◌, Bool, true, false, ◌≡◌, refl, none, String, arith, if◌then◌else◌, length, ltb,
}
use playback_sync.Ws.{
  lifecycle_change, notify_disconnected, reconnect_backoff_ms, is_terminal, Ws, emit, set_self,
}
use playback_sync.Ws.Lifecycle.{
  schedule_reconnect, close_if_any, open_socket, on_close, reconnect_due, disconnect,
}

-- A handler that keeps the credentials and the latch of the first JOIN.
pub record IsKept {N : Type 0} (w w' : Ws N) : Type 0 where
  pub same_creds : w'.self.creds ≡ w.self.creds
  pub same_latch : w'.self.first_join_sent ≡ w.self.first_join_sent

module _ {N : Type 0} where
  chosen : (b : Bool) {u w w' : Ws N} → IsKept u w → IsKept u w' → IsKept u (if b then w else w')
  chosen true v v' = v
  chosen false v v' = v'

  here : (w : Ws N) → IsKept w w
  here w = record { same_creds = refl; same_latch = refl }

  schedule_reconnect-IsKept : (w : Ws N) → IsKept w (schedule_reconnect w)
  unfolding schedule_reconnect
  schedule_reconnect-IsKept w =
      chosen (ltb (length reconnect_backoff_ms + 1) (w.self.reconnect_attempt + 1))
        (record { same_creds = refl; same_latch = refl })
        (record { same_creds = refl; same_latch = refl })

  pub on_close-IsKept : (reason : String) (w : Ws N) → IsKept w (on_close reason w)
  unfolding on_close
  on_close-IsKept reason w =
      let v = emit lifecycle_change (
        emit notify_disconnected (
          set_self
            (record w.self {
              heartbeat_timer = false;
              clock_timer = false;
              pending_join_deadline = false;
              socket = none;
            })
            w)) in
      let k = schedule_reconnect-IsKept v in
      chosen w.self.terminated (record { same_creds = refl; same_latch = refl })
        (chosen (is_terminal reason) (record { same_creds = refl; same_latch = refl })
          (record { same_creds = k.same_creds; same_latch = k.same_latch }))

  close_if_any-IsKept : (w : Ws N) → IsKept w (close_if_any w)
  unfolding close_if_any
  close_if_any-IsKept w = record { same_creds = ground arith; same_latch = ground arith }

  pub disconnect-IsKept : (w : Ws N) → IsKept w (disconnect w)
  unfolding disconnect
  disconnect-IsKept w =
      let k = close_if_any-IsKept (
        set_self
          (record w.self {
            heartbeat_timer = false;
            clock_timer = false;
            terminated = true;
            pending_join_deadline = false;
          })
          w) in
      record { same_creds = k.same_creds; same_latch = k.same_latch }

  pub open_socket-IsKept : (url_ok : String → Bool) (w : Ws N) → IsKept w (open_socket url_ok w)
  unfolding open_socket
  open_socket-IsKept url_ok w =
      chosen (url_ok w.self.creds.sync_url) (record { same_creds = refl; same_latch = refl })
        (record { same_creds = refl; same_latch = refl })

  pub reconnect_due-IsKept : (url_ok : String → Bool) (w : Ws N) → IsKept w (reconnect_due url_ok w)
  unfolding reconnect_due
  reconnect_due-IsKept url_ok w = chosen w.self.terminated (here w) (open_socket-IsKept url_ok w)
