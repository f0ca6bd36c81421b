-- ===== src/Ws/Attempts.antt =====
-- One close and one reconnect in extension/src/background/ws.ts: how the attempts count, and how long they wait.
use Prim.Native.Nat.{◌^◌}
use playback_sync.Base.{
  ℕ, zero, suc, ◌+◌, ◌*◌, ◌<◌, min, Bool, true, false, ◌≡◌, refl, ap, ◌∙◌, none, [], ◌∷◌, ◌++◌,
  String, if◌then◌else◌, leb, ltb, arith, if-true, if-false,
}
use playback_sync.Ws.{
  lifecycle_change, notify_disconnected, Ws, start_reconnect, is_terminal, reconnect_backoff_ms,
  emit, set_self,
}
use playback_sync.Ws.Lifecycle.{schedule_reconnect, on_close, reconnect_due, open_socket, get_or}

shifted : (a : ℕ) → ltb 7 (a + 1) ≡ leb 7 a
shifted a = ground arith

later : (a : ℕ) → a < 7 → ltb 7 (a + 1) ≡ false
later a l = ground arith

delay_lem : (a : ℕ) → a < 7 → get_or reconnect_backoff_ms (min a 5) 0 ≡ min (1000 * 2 ^ a) 30000
delay_lem zero h = refl
delay_lem (suc zero) h = refl
delay_lem (suc (suc zero)) h = refl
delay_lem (suc (suc (suc zero))) h = refl
delay_lem (suc (suc (suc (suc zero)))) h = refl
delay_lem (suc (suc (suc (suc (suc zero))))) h = refl
delay_lem (suc (suc (suc (suc (suc (suc zero)))))) h = refl
delay_lem (suc (suc (suc (suc (suc (suc (suc a))))))) h = ground arith

module _ {N : Type 0} where
  attempt_if :
      {a : ℕ} (b : Bool) (w w' : Ws N)
      → w.self.reconnect_attempt ≡ a
      → w'.self.reconnect_attempt ≡ a
      → (if b then w else w').self.reconnect_attempt ≡ a
  attempt_if true w w' h h' = h
  attempt_if false w w' h h' = h'

  terminated_if :
      (b : Bool) (w w' : Ws N)
      → w.self.terminated ≡ true
      → w'.self.terminated ≡ false
      → (if b then w else w').self.terminated ≡ b
  terminated_if true w w' h h' = h
  terminated_if false w w' h h' = h'

  -- A counter of closes in a row: from 7 on, the next close is the last.
  pub schedule_terminated :
      (w : Ws N)
      → w.self.terminated ≡ false
      → (schedule_reconnect w).self.terminated ≡ leb 7 w.self.reconnect_attempt
  unfolding schedule_reconnect
  schedule_terminated w t =
      terminated_if (ltb 7 (w.self.reconnect_attempt + 1)) _ _ refl t
      ∙ shifted w.self.reconnect_attempt

  pub schedule_attempt :
      (w : Ws N) → (schedule_reconnect w).self.reconnect_attempt ≡ w.self.reconnect_attempt + 1
  unfolding schedule_reconnect
  schedule_attempt w = attempt_if (ltb 7 (w.self.reconnect_attempt + 1)) _ _ refl refl

  pub open_socket_attempt :
      (url_ok : String → Bool) (w : Ws N)
      → (open_socket url_ok w).self.reconnect_attempt ≡ w.self.reconnect_attempt
  unfolding open_socket
  open_socket_attempt url_ok w = attempt_if (url_ok w.self.creds.sync_url) _ _ refl refl

  pub open_socket_terminated :
      (url_ok : String → Bool) (w : Ws N)
      → url_ok w.self.creds.sync_url ≡ true
      → (open_socket url_ok w).self.terminated ≡ w.self.terminated
  unfolding open_socket
  open_socket_terminated url_ok w u = ap {A = Ws N} (λ v. v.self.terminated) (if-true _ _ u)

  -- A runtime just closed, before the branch of `on_close`.
  abbrev pub shut : Ws N → Ws N
  shut w = emit lifecycle_change (
      emit notify_disconnected (
        set_self
          (record w.self {
            heartbeat_timer = false;
            clock_timer = false;
            pending_join_deadline = false;
            socket = none;
          })
          w))

  pub on_close_retries :
      (reason : String) (w : Ws N)
      → w.self.terminated ≡ false
      → is_terminal reason ≡ false
      → on_close reason w ≡ schedule_reconnect (shut w)
  unfolding on_close
  on_close_retries reason w t h = if-false _ _ t ∙ if-false _ _ h

  pub on_close_over :
      (reason : String) (w : Ws N) → w.self.terminated ≡ true → on_close reason w ≡ shut w
  unfolding on_close
  on_close_over reason w t = if-true _ _ t

  pub reconnect_due_over :
      (url_ok : String → Bool) (w : Ws N) → w.self.terminated ≡ true → reconnect_due url_ok w ≡ w
  unfolding reconnect_due
  reconnect_due_over url_ok w t = if-true _ _ t

  pub reconnect_due_opens :
      (url_ok : String → Bool) (w : Ws N)
      → w.self.terminated ≡ false
      → reconnect_due url_ok w ≡ open_socket url_ok w
  unfolding reconnect_due
  reconnect_due_opens url_ok w t = if-false _ _ t

  -- Before it gives up, a runtime waits a second, then twice as long each time, and at most half a
  -- minute.
  schedule_reconnect_delay :
      (w : Ws N)
      → w.self.reconnect_attempt < 7
      → (schedule_reconnect w).out
        ≡ w.out ++ start_reconnect (min (1000 * 2 ^ w.self.reconnect_attempt) 30000) ∷ []
  unfolding schedule_reconnect
  schedule_reconnect_delay w l =
      ap {A = Ws N} (λ v. v.out) (if-false _ _ (later w.self.reconnect_attempt l))
      ∙ ap (λ d. w.out ++ start_reconnect d ∷ []) (delay_lem w.self.reconnect_attempt l)
