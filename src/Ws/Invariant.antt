-- ===== src/Ws/Invariant.antt =====
-- What holds of a runtime of extension/src/background/ws.ts between two events.
use playback_sync.Base.{
  ℕ, Bool, true, false, ◌≡◌, refl, none, some, List, [], ◌∷◌, String, NumMap, arith, subst, ap,
  or_else, insert, has, if◌then◌else◌,
}
use playback_sync.Number.{Number}
use playback_sync.Session.{SessionState}
use playback_sync.Ws.{Ws, Creds}
use playback_sync.Ws.Lifecycle.{
  new_runtime, connect, on_close, reconnect_due, disconnect, report_identity, report_catalog,
}
use playback_sync.Ws.Frames.{handle_frame, fire_heartbeat, fire_clock_ping}
use playback_sync.Ws.Effects.{
  link, link-handle_frame, link-fire_heartbeat, link-fire_clock_ping, link-clock_ping_due,
}
use playback_sync.Ws.Runs.{
  Event, socket_open, frame, socket_close, heartbeat_tick, clock_tick, burst_tick, join_deadline,
  reconnect_timer, identity, catalog, leave, step, run,
}
use playback_sync.Ws.Sound.{
  IsSound, IsIdle, moved, flush_join-IsSound, maybe_flush_join-IsSound, on_open-IsSound,
  idle-IsSound, on_close-IsIdle, kept, open_socket-IsIdle, reconnect_due-IsIdle, disconnect-IsIdle,
  kept_else, no_socket-IsIdle, connecting-no_wait,
}

module _ {N : Type 0} ⦃n : Number N⦄ where
  pub step-IsSound :
      (url_ok : String → Bool) (same : N → N → Bool) (w : Ws N) (e : Event N)
      → IsSound (link w.self)
      → IsSound (link (step url_ok same w e).self)
  unfolding step
  step-IsSound url_ok same w socket_open v =
      kept _ w _ v (λ q. on_open-IsSound _ refl (connecting-no_wait w v q))
  step-IsSound url_ok same w (frame now f) v =
      kept _ w (handle_frame same now f w) v (λ q. (moved (link-handle_frame same now f w) v))
  step-IsSound url_ok same w (socket_close reason) v =
      kept _ w (on_close reason w) v
        (λ q. (idle-IsSound (on_close reason w) (on_close-IsIdle reason w)))
  step-IsSound url_ok same w (heartbeat_tick now entry) v =
      kept _ w (fire_heartbeat now entry w) v
        (λ q. (moved (link-fire_heartbeat same now entry w) v))
  step-IsSound url_ok same w (clock_tick t1) v =
      kept _ w (fire_clock_ping same t1 w) v (λ q. (moved (link-fire_clock_ping same t1 w) v))
  step-IsSound url_ok same w (burst_tick t1) v = moved (link-clock_ping_due same t1 w) v
  step-IsSound url_ok same w join_deadline v = kept _ w _ v (λ q. flush_join-IsSound w v q)
  step-IsSound url_ok same w reconnect_timer v = kept_else _ w _ v (λ q.
      idle-IsSound (reconnect_due url_ok w)
        (reconnect_due-IsIdle url_ok w (no_socket-IsIdle w v q)))
  step-IsSound url_ok same w (identity ref) v =
      kept _ w (report_identity ref w) v
        (λ q. (unfold report_identity in maybe_flush_join-IsSound _ v))
  step-IsSound url_ok same w (catalog entries) v =
      kept _ w (report_catalog entries w) v
        (λ q. (unfold report_catalog in maybe_flush_join-IsSound _ v))
  step-IsSound url_ok same w leave v =
      kept _ w (disconnect w) v (λ q. (idle-IsSound (disconnect w) (disconnect-IsIdle w)))

  pub guarded_some : (b : Bool) (x w : Ws N) → (if b then none else some x) ≡ some w → x ≡ w
  guarded_some true x w e = ground arith
  guarded_some false x w e = ap (λ o. or_else o x) e

  pub connect-IsIdle :
      (url_ok : String → Bool) (pool : NumMap ℕ) (id tab : ℕ) (creds : Creds)
      (session : SessionState N) (w : Ws N)
      → connect url_ok pool id tab creds session ≡ some w
      → IsIdle w
  unfolding connect new_runtime
  connect-IsIdle url_ok pool id tab creds session w e =
      subst IsIdle (guarded_some (has tab pool) _ w e) (
        open_socket-IsIdle url_ok
          (record { pool = insert tab id pool; self = new_runtime id tab creds session; out = [] })
          (refl, refl, refl, refl))

  run_all-IsSound :
      (url_ok : String → Bool) (same : N → N → Bool) (w : Ws N) (es : List (Event N))
      → IsSound (link w.self)
      → IsSound (link (run url_ok same w es).self)
  unfolding run
  run_all-IsSound url_ok same w [] v = v
  run_all-IsSound url_ok same w (e ∷ es) v =
      run_all-IsSound url_ok same (step url_ok same w e) es (step-IsSound url_ok same w e v)

  -- Whatever happens to a runtime after it is connected, a deferred JOIN waits only on an open
  -- socket and before the first JOIN, an open socket has sent its first JOIN or is about to, and the
  -- heartbeat and clock timers run only while there is a socket.
  pub run-IsSound :
      (url_ok : String → Bool) (same : N → N → Bool) (pool : NumMap ℕ) (id tab : ℕ) (creds : Creds)
      (session : SessionState N) (w : Ws N) (es : List (Event N))
      → connect url_ok pool id tab creds session ≡ some w
      → IsSound (link (run url_ok same w es).self)
  run-IsSound url_ok same pool id tab creds session w es e =
      run_all-IsSound url_ok same w es
        (idle-IsSound w (connect-IsIdle url_ok pool id tab creds session w e))
