-- ===== src/Ws/Sound.antt =====
-- A runtime of extension/src/background/ws.ts whose JOIN and timers agree with its socket, and the
-- handlers that keep it so.
use playback_sync.Base.{
  ◌+◌, Bool, true, false, ◌≡◌, refl, Option, none, some, String, arith, subst, sym, ap, ◌∙◌, ltb,
  length, not, ◌&&◌, Bool-cases, inl, inr, if◌then◌else◌,
}
use playback_sync.Number.{Number}
use playback_sync.Ws.{
  Ws, set_self, opened, connecting, closing, closed, is_open, reconnect_backoff_ms, is_terminal,
  Runtime, ReadyState,
}
use playback_sync.Ws.Lifecycle.{
  on_open, on_close, schedule_reconnect, close_if_any, open_socket, flush_join, reconnect_due,
  disconnect, maybe_flush_join,
}
use playback_sync.Ws.Effects.{
  Link, link, joined, opened_runtime, on_open_rejoin, on_open_first, flush_join_self,
  maybe_flush_join_self, maybe_flush_join_done,
}
use playback_sync.Ws.Runs.{is_connecting, has_socket}

-- The JOIN and the timers of a runtime agree with its socket.
pub record IsSound (l : Link) : Type 0 where
  -- A deferred JOIN waits only on an open socket, and only before the first JOIN.
  pub waiting :
      l.pending_join_deadline ≡ true → (is_open l.socket ≡ true) × (l.first_join_sent ≡ false)
  -- On an open socket the first JOIN has been sent, or its deadline is running.
  pub joining : is_open l.socket ≡ true → l.first_join_sent ≡ false → l.pending_join_deadline ≡ true
  pub ticking : l.heartbeat_timer ≡ true → has_socket l.socket ≡ true
  pub pinging : l.clock_timer ≡ true → has_socket l.socket ≡ true

has_open : (s : Option ReadyState) → is_open s ≡ true → has_socket s ≡ true
has_open none o = ground arith
has_open (some x) o = refl

not_open : (s : Option ReadyState) → has_socket s ≡ false → is_open s ≡ false
not_open none o = refl
not_open (some x) o = ground arith

connecting-not_open : (s : Option ReadyState) → is_connecting s ≡ true → is_open s ≡ false
connecting-not_open none h = refl
connecting-not_open (some connecting) h = refl
connecting-not_open (some opened) h = ground arith
connecting-not_open (some closing) h = refl
connecting-not_open (some closed) h = refl

-- Whatever the runtime became, its link is the one on the left.
pub moved : {l k : Link} → l ≡ k → IsSound k → IsSound l
moved e v = subst IsSound (sym e) v

module _ {N : Type 0} ⦃n : Number N⦄ where
  joined-IsSound :
      (r : Runtime N) → is_open r.socket ≡ true → IsSound (link r) → IsSound (link (joined r))
  joined-IsSound r o v = record {
    waiting = λ q. ground arith;
    joining = λ q q'. ground arith;
    ticking = λ q. v.ticking q;
    pinging = λ q. v.pinging q;
  }

  waiting_joined :
      (r : Runtime N)
      → IsSound (link r)
      → r.pending_join_deadline ≡ true
      → IsSound (link (joined r))
  waiting_joined r v h = joined-IsSound r (v.waiting h).0 v

  flush_test :
      (w : Ws N)
      → w.self.pending_join_deadline ≡ true
      → (if not w.self.pending_join_deadline && w.self.first_join_sent
          then w.self
          else joined w.self)
        ≡ joined w.self
  flush_test w h = ground arith

  pub flush_join-IsSound :
      (w : Ws N)
      → IsSound (link w.self)
      → w.self.pending_join_deadline ≡ true
      → IsSound (link (flush_join w).self)
  flush_join-IsSound w v h =
      moved (ap link (flush_join_self w ∙ flush_test w h)) (waiting_joined w.self v h)

  pub maybe_flush_join-IsSound :
      (w : Ws N) → IsSound (link w.self) → IsSound (link (maybe_flush_join w).self)
  maybe_flush_join-IsSound w v = elim (Bool-cases w.self.first_join_sent) [
    | inl h ↦ moved (ap (λ v. link v.self) (maybe_flush_join_done w h)) v
    | inr h ↦ elim (maybe_flush_join_self w h) [
      | inl e ↦ moved (ap link e) v
      | inr (d, e) ↦ moved (ap link e) (waiting_joined w.self v d)
    ]
  ]

  opened-IsSound :
      (r : Runtime N)
      → is_open r.socket ≡ true
      → r.pending_join_deadline ≡ false
      → r.first_join_sent ≡ true
      → IsSound (link (opened_runtime r))
  opened-IsSound r o d h = record {
    waiting = λ q. ground arith;
    joining = λ q q'. ground arith;
    ticking = λ q. has_open r.socket o;
    pinging = λ q. has_open r.socket o;
  }

  waiting-IsSound :
      (r : Runtime N)
      → is_open r.socket ≡ true
      → r.first_join_sent ≡ false
      → IsSound (link (record (opened_runtime r) { pending_join_deadline = true }))
  waiting-IsSound r o h = record {
    waiting = λ d. (o, h);
    joining = λ q q'. refl;
    ticking = λ q. has_open r.socket o;
    pinging = λ q. has_open r.socket o;
  }

  pub on_open-IsSound :
      (w : Ws N)
      → is_open w.self.socket ≡ true
      → w.self.pending_join_deadline ≡ false
      → IsSound (link (on_open w).self)
  on_open-IsSound w o d = elim (Bool-cases w.self.first_join_sent) [
    | inl h ↦ moved (ap link (on_open_rejoin w h)) (opened-IsSound w.self o d h)
    | inr h ↦ elim (on_open_first w h) [
      | inl e ↦ moved (ap link e) (waiting-IsSound w.self o h)
      | inr e ↦ moved (ap link e) (
          waiting_joined (record (opened_runtime w.self) { pending_join_deadline = true })
            (waiting-IsSound w.self o h) refl)
    ]
  ]

  -- A runtime with its timers stopped, no deferred JOIN and a socket that is not open.
  abbrev pub IsIdle : Ws N → Type 0
  IsIdle w =
      (is_open w.self.socket ≡ false)
      × (w.self.pending_join_deadline ≡ false)
      × (w.self.heartbeat_timer ≡ false)
      × (w.self.clock_timer ≡ false)

  if-IsIdle : (b : Bool) (w w' : Ws N) → IsIdle w → IsIdle w' → IsIdle (if b then w else w')
  if-IsIdle true w w' v v' = v
  if-IsIdle false w w' v v' = v'

  pub idle-IsSound : (w : Ws N) → IsIdle w → IsSound (link w.self)
  idle-IsSound w (o, d, h, c) = record {
    waiting = λ q. ground arith;
    joining = λ q q'. ground arith;
    ticking = λ q. ground arith;
    pinging = λ q. ground arith;
  }

  schedule_reconnect-IsIdle : (w : Ws N) → IsIdle w → IsIdle (schedule_reconnect w)
  unfolding schedule_reconnect
  schedule_reconnect-IsIdle w v =
      if-IsIdle (ltb (length reconnect_backoff_ms + 1) (w.self.reconnect_attempt + 1)) _ _ v v

  pub on_close-IsIdle : (reason : String) (w : Ws N) → IsIdle (on_close reason w)
  unfolding on_close
  on_close-IsIdle reason w =
      if-IsIdle w.self.terminated _ _ (refl, refl, refl, refl)
        (if-IsIdle (is_terminal reason) _ _ (refl, refl, refl, refl)
          (schedule_reconnect-IsIdle _ (refl, refl, refl, refl)))

  -- A guarded handler either runs or does nothing.
  pub kept :
      (b : Bool) (w w' : Ws N)
      → IsSound (link w.self)
      → (b ≡ true → IsSound (link w'.self))
      → IsSound (link (if b then w' else w).self)
  kept true w w' v v' = v' refl
  kept false w w' v v' = v

  close_if_any-IsIdle :
      (w : Ws N)
      → w.self.pending_join_deadline ≡ false
      → w.self.heartbeat_timer ≡ false
      → w.self.clock_timer ≡ false
      → IsIdle (close_if_any w)
  unfolding close_if_any
  close_if_any-IsIdle w d h c = ground arith

  pub open_socket-IsIdle :
      (url_ok : String → Bool) (w : Ws N) → IsIdle w → IsIdle (open_socket url_ok w)
  unfolding open_socket
  open_socket-IsIdle url_ok w (o, d, h, c) =
      if-IsIdle (url_ok w.self.creds.sync_url) _ _ (refl, d, h, c) (o, d, h, c)

  pub reconnect_due-IsIdle :
      (url_ok : String → Bool) (w : Ws N) → IsIdle w → IsIdle (reconnect_due url_ok w)
  unfolding reconnect_due
  reconnect_due-IsIdle url_ok w v =
      if-IsIdle w.self.terminated _ _ v (open_socket-IsIdle url_ok w v)

  pub disconnect-IsIdle : (w : Ws N) → IsIdle (disconnect w)
  unfolding disconnect
  disconnect-IsIdle w =
      close_if_any-IsIdle
        (set_self
          (record w.self {
            heartbeat_timer = false;
            clock_timer = false;
            terminated = true;
            pending_join_deadline = false;
          })
          w)
        refl refl refl

  pub kept_else :
      (b : Bool) (w w' : Ws N)
      → IsSound (link w.self)
      → (b ≡ false → IsSound (link w'.self))
      → IsSound (link (if b then w else w').self)
  kept_else true w w' v v' = v
  kept_else false w w' v v' = v' refl

  not_waiting :
      (w : Ws N)
      → IsSound (link w.self)
      → is_open w.self.socket ≡ false
      → w.self.pending_join_deadline ≡ false
  not_waiting w v h = ground arith

  pub no_socket-IsIdle :
      (w : Ws N) → IsSound (link w.self) → has_socket w.self.socket ≡ false → IsIdle w
  no_socket-IsIdle w v h = (not_open w.self.socket h, ground arith, ground arith, ground arith)

  pub connecting-no_wait :
      (w : Ws N)
      → IsSound (link w.self)
      → is_connecting w.self.socket ≡ true
      → w.self.pending_join_deadline ≡ false
  connecting-no_wait w v h = not_waiting w v (connecting-not_open w.self.socket h)
