-- ===== src/Ws/Lifecycle.antt =====
-- The socket's life in extension/src/background/ws.ts: connecting, opening, the deferred first
-- JOIN, closing, backing off and giving up.
use playback_sync.Base.{
  ℕ, zero, suc, ◌+◌, ◌-◌, ◌*◌, min, Bool, true, false, ◌&&◌, ◌||◌, not, Option, none, some, List,
  [], ◌∷◌, String, if◌then◌else◌, ltb, length, NumMap, has, insert, remove,
}
use playback_sync.Number.{Number}
use playback_sync.Protocol.Frames.{JoinFrame, join, VideoRef, VideoRefWithMeta}
use playback_sync.Session.{SessionState, reset_connection_state, or_null}
use playback_sync.Ws.{
  Creds, connecting, closing, Runtime, close_socket, start_join_deadline, start_reconnect,
  start_clock_ping, terminal, lifecycle_change, notify_connecting, notify_open, notify_disconnected,
  Ws, is_terminal, clock_ping_burst_spacing_ms, first_join_deferral_ms, reconnect_backoff_ms, emit,
  set_self, send_frame,
}

abbrev pub get_or {ℓ} : {A : Type ℓ} → List A → ℕ → A → A
get_or [] i d = d
get_or (x ∷ xs) zero d = x
get_or (x ∷ xs) (suc i) d = get_or xs i d

-- `clientId ? { clientId } : {}`: the empty text counts as absent.
abbrev pub truthy : Option String → Option String
truthy none = none
truthy (some s) = or_null s

-- `catalog && catalog.length > 0 ? { catalogFragment: catalog } : {}`
abbrev pub nonempty {ℓ} : {A : Type ℓ} → Option (List A) → Option (List A)
nonempty none = none
nonempty (some []) = none
nonempty (some (x ∷ xs)) = some (x ∷ xs)

module _ {N : Type 0} where
  unfoldable pub start_timers : Runtime N → Runtime N
  start_timers r = record r { heartbeat_timer = true; clock_timer = true }

  unfoldable pub stop_timers : Runtime N → Runtime N
  stop_timers r = record r { heartbeat_timer = false; clock_timer = false }

  -- Four pings, 250 ms apart, the first at once.
  unfoldable pub schedule_initial_clock_pings : Ws N → Ws N
  schedule_initial_clock_pings w = emit (start_clock_ping (3 * clock_ping_burst_spacing_ms)) (
      emit (start_clock_ping (2 * clock_ping_burst_spacing_ms))
        (emit (start_clock_ping clock_ping_burst_spacing_ms) (emit (start_clock_ping 0) w)))

  -- `url_ok`: whether `new WebSocket(url)` accepts the URL. It throws on a malformed one.
  unfoldable pub open_socket : (String → Bool) → Ws N → Ws N
  unfolding reset_connection_state
  open_socket url_ok w =
      let r = record w.self { session = reset_connection_state w.self.session } in
      let w' = emit (notify_connecting r.creds.sync_url) (set_self r w) in
      if url_ok r.creds.sync_url
      then set_self (record r { socket = some connecting }) w'
      else emit (terminal "invalid sync url" none)
          (record w' { self = record r { terminated = true }; pool = remove r.tab_id w.pool })

  -- A runtime as `connect` builds it.
  unfoldable pub new_runtime : ℕ → ℕ → Creds → SessionState N → Runtime N
  new_runtime id tab_id creds session = record {
    id = id;
    tab_id = tab_id;
    socket = none;
    heartbeat_timer = false;
    clock_timer = false;
    pending_pings = [];
    reconnect_attempt = 0;
    terminated = false;
    creds = creds;
    session = session;
    last_identity = none;
    last_catalog = none;
    catalog_reported = false;
    pending_join_deadline = false;
    first_join_sent = false;
    welcome_shown = false;
  }

  -- `none` where the tab is connected already, and nothing happens.
  unfoldable pub connect :
      (String → Bool) → NumMap ℕ → ℕ → ℕ → Creds → SessionState N → Option (Ws N)
  unfolding open_socket new_runtime
  connect url_ok pool id tab_id creds session =
      if has tab_id pool
      then none
      else some (
          open_socket url_ok (record {
            pool = insert tab_id id pool;
            self = new_runtime id tab_id creds session;
            out = [];
          }))

  -- `r.socket?.close(…)`, which leaves the socket closing.
  unfoldable pub close_if_any : Ws N → Ws N
  close_if_any w = elim w.self.socket [
    | none ↦ w
    | some _ ↦ emit close_socket (set_self (record w.self { socket = some closing }) w)
  ]

  -- On the pooled runtime of the tab.
  unfoldable pub disconnect : Ws N → Ws N
  unfolding stop_timers close_if_any
  disconnect w =
      let r = record (stop_timers w.self) { terminated = true; pending_join_deadline = false } in
      let w' = close_if_any (set_self r w) in
      emit lifecycle_change
        (emit notify_disconnected (record w' { pool = remove r.tab_id w'.pool }))

  -- `onOpen` up to its branch.
  unfoldable pub announce_open : Ws N → Ws N
  unfolding start_timers schedule_initial_clock_pings
  announce_open w = emit lifecycle_change (
      emit notify_open (
        schedule_initial_clock_pings
          (set_self (start_timers (record w.self { reconnect_attempt = 0 })) w)))

  unfoldable pub defer_join : Ws N → Ws N
  defer_join w =
      emit (start_join_deadline first_join_deferral_ms)
        (set_self (record w.self { pending_join_deadline = true }) w)

module _ {N : Type 0} ⦃n : Number N⦄ where
  unfoldable pub join_frame : Bool → Runtime N → JoinFrame N
  join_frame include_content r = record {
    password = r.creds.sync_password;
    client_id = truthy r.creds.client_id;
    last_event_id =
        if n.gt r.session.last_event_id (n.lit 0) then some r.session.last_event_id else none;
    currently_showing = if include_content then r.last_identity else none;
    catalog_fragment = if include_content then nonempty r.last_catalog else none;
  }

  unfoldable pub send_join : Bool → Ws N → Ws N
  unfolding send_frame
  send_join include_content w = send_frame (join (join_frame include_content w.self)) w

  unfoldable pub flush_join : Ws N → Ws N
  flush_join w =
      if not w.self.pending_join_deadline && w.self.first_join_sent
      then w
      else (let w' =
            send_join true (set_self (record w.self { pending_join_deadline = false }) w) in
          set_self (record w'.self { first_join_sent = true }) w')

  -- The four early returns of the source, in one test.
  unfoldable pub maybe_flush_join : Ws N → Ws N
  maybe_flush_join w = elim w.self.last_identity [
    | none ↦ w
    | some _ ↦
        if w.self.first_join_sent
          || (not w.self.pending_join_deadline || not w.self.catalog_reported)
        then w
        else flush_join w
  ]

  -- After the browser has set the ready state to open.
  unfoldable pub on_open : Ws N → Ws N
  unfolding announce_open defer_join
  on_open w =
      let w' = announce_open w in
      if w.self.first_join_sent then send_join false w' else maybe_flush_join (defer_join w')

  unfoldable pub report_identity : VideoRef → Ws N → Ws N
  report_identity identity w =
      maybe_flush_join (set_self (record w.self { last_identity = some identity }) w)

  unfoldable pub report_catalog : Option (List (VideoRefWithMeta N)) → Ws N → Ws N
  report_catalog catalog w =
      maybe_flush_join
        (set_self (record w.self { last_catalog = catalog; catalog_reported = true }) w)

module _ {N : Type 0} where
  unfoldable pub schedule_reconnect : Ws N → Ws N
  schedule_reconnect w =
      let attempt = w.self.reconnect_attempt in
      let delay = get_or reconnect_backoff_ms (min attempt (length reconnect_backoff_ms - 1)) 0 in
      let w' = set_self (record w.self { reconnect_attempt = attempt + 1 }) w in
      if ltb (length reconnect_backoff_ms + 1) (attempt + 1)
      then emit (terminal "reconnect exhausted" none) (record w' {
        self = record w'.self { terminated = true };
        pool = remove w.self.tab_id w.pool;
      })
      else emit (start_reconnect delay) w'

  -- The callback of the reconnect timer.
  unfoldable pub reconnect_due : (String → Bool) → Ws N → Ws N
  unfolding open_socket
  reconnect_due url_ok w = if w.self.terminated then w else open_socket url_ok w

  -- `reason` is the close event's.
  unfoldable pub on_close : String → Ws N → Ws N
  unfolding stop_timers schedule_reconnect
  on_close reason w =
      let r = record (stop_timers w.self) { pending_join_deadline = false; socket = none } in
      let w' = emit lifecycle_change (emit notify_disconnected (set_self r w)) in
      if r.terminated
      then w'
      else if is_terminal reason
      then record (emit (terminal reason (some reason)) w') {
        self = record r { terminated = true };
        pool = remove r.tab_id w.pool;
      }
      else schedule_reconnect w'
