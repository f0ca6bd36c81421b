-- ===== src/Popup.antt =====
-- The snapshots that the background pushes to open popups:
-- extension/src/background/popupBroadcast.ts. A port is a number. `sessions` is the entrypoint's map.
-- The map from ports to tabs is its keys in order and a function.
pub mod Runs
pub mod Ports
pub mod Fresh
use text.Mathlib.Text.{◌==◌ as str_eq}
use playback_sync.Base.{
  ℕ, Bool, true, false, not, Option, none, some, List, [], ◌∷◌, ◌++◌, String, if◌then◌else◌, any,
  keep, ◌==◌, NumMap, lookup, insert, remove,
}
use playback_sync.Protocol.Frames.{CursorRef}
use playback_sync.Session.{SessionState, Mode, default}

pub data SocketState : Type 0 where
  socket_none : SocketState
  socket_connecting : SocketState
  socket_open : SocketState
  socket_disconnected : SocketState

pub record TabMirror : Type 0 where
  pub socket_state : SocketState
  pub creds : Option String

pub data PopupStatus : Type 0 where
  no_credentials : PopupStatus
  connecting : PopupStatus
  joined : PopupStatus
  disconnected : PopupStatus

pub record PopupSnapshot : Type 0 where
  pub tab_id : Option ℕ
  pub status : PopupStatus
  pub client_id : Option String
  pub nickname : Option String
  pub cursor : Option CursorRef
  pub mode : Option Mode
  pub sync_url : Option String

-- `out` is what was posted, newest first.
pub record Popups (N : Type 0) : Type 0 where
  pub sessions : ℕ → Option (SessionState N)
  pub mirrors : NumMap TabMirror
  pub ports : List ℕ
  pub port_tabs : ℕ → Option ℕ
  pub out : List (ℕ × PopupSnapshot)

abbrev pub new_mirror : TabMirror
new_mirror = record { socket_state = socket_none; creds = none }

abbrev is_truthy : Option String → Bool
is_truthy none = false
is_truthy (some s) = not (str_eq s "")

abbrev pub is_bound : ℕ → Option ℕ → Bool
is_bound tab none = false
is_bound tab (some bound) = bound == tab

-- The status of an open socket, by the client id of the session.
abbrev open_status : Option String → PopupStatus
open_status id = if is_truthy id then joined else connecting

-- `broadcastForTab`'s loop over the ports.
unfoldable pub post_all :
    ℕ
    → PopupSnapshot
    → (ℕ → Option ℕ)
    → List ℕ
    → List (ℕ × PopupSnapshot)
    → List (ℕ × PopupSnapshot)
post_all tab s bound [] out = out
post_all tab s bound (port ∷ ports) out =
    post_all tab s bound ports (if is_bound tab (bound port) then (port, s) ∷ out else out)

abbrev pub is_joined : PopupStatus → Bool
is_joined joined = true
is_joined _ = false

abbrev pub mirrored_url : Option TabMirror → Option String
mirrored_url none = none
mirrored_url (some m) = m.creds

module _ {N : Type 0} where
  -- The maps of the module as they are declared.
  unfoldable pub new_popups : Popups N
  new_popups = record {
    sessions = λ j. none;
    mirrors = [];
    ports = [];
    port_tabs = λ q. none;
    out = [];
  }

  -- `session?.clientId ?? null` and the like.
  abbrev pub read {ℓ} :
      {A : Type ℓ} → (SessionState N → Option A) → Option (SessionState N) → Option A
  read f none = none
  read f (some s) = f s

  abbrev pub session_mode : Option (SessionState N) → Mode
  session_mode none = default
  session_mode (some s) = s.mode

  -- With credentials.
  abbrev pub status_of : SocketState → Option (SessionState N) → PopupStatus
  status_of socket_connecting session = connecting
  status_of socket_open session = open_status (read (λ s. s.client_id) session)
  status_of socket_none session = disconnected
  status_of socket_disconnected session = disconnected

  unfoldable pub get_derived_status : Option TabMirror → Option (SessionState N) → PopupStatus
  get_derived_status none session = no_credentials
  get_derived_status (some m) session = elim m.creds [
    | none ↦ no_credentials
    | some url ↦ status_of m.socket_state session
  ]

  unfoldable pub snapshot_of :
      ℕ → PopupStatus → Option TabMirror → Option (SessionState N) → PopupSnapshot
  snapshot_of tab no_credentials m session = record {
    tab_id = none;
    status = no_credentials;
    client_id = none;
    nickname = none;
    cursor = none;
    mode = none;
    sync_url = none;
  }
  snapshot_of tab status m session = record {
    tab_id = some tab;
    status = status;
    client_id = read (λ s. s.client_id) session;
    nickname = read (λ s. s.nickname) session;
    cursor = read (λ s. s.cursor) session;
    mode = if is_joined status then some (session_mode session) else none;
    sync_url = mirrored_url m;
  }

  unfoldable pub build_snapshot : ℕ → Popups N → PopupSnapshot
  unfolding get_derived_status snapshot_of lookup
  build_snapshot tab p =
      let m = lookup tab p.mirrors in
      snapshot_of tab (get_derived_status m (p.sessions tab)) m (p.sessions tab)

  unfoldable pub send_to : ℕ → ℕ → Popups N → Popups N
  unfolding build_snapshot
  send_to port tab p = record p { out = (port, build_snapshot tab p) ∷ p.out }

  -- Without ports the loop posts nothing.
  unfoldable pub broadcast_for_tab : ℕ → Popups N → Popups N
  unfolding build_snapshot post_all
  broadcast_for_tab tab p = record p {
    out = post_all tab (build_snapshot tab p) p.port_tabs p.ports p.out;
  }

  unfoldable pub ensure_mirror : ℕ → Popups N → TabMirror
  unfolding lookup
  ensure_mirror tab p = elim (lookup tab p.mirrors) [ none ↦ new_mirror | some m ↦ m ]

  abbrev pub set_mirror : ℕ → TabMirror → Popups N → Popups N
  set_mirror tab m p = record p { mirrors = insert tab m p.mirrors }

  unfoldable pub set_popup_creds : ℕ → String → Popups N → Popups N
  unfolding ensure_mirror broadcast_for_tab insert
  set_popup_creds tab url p =
      broadcast_for_tab tab (set_mirror tab (record (ensure_mirror tab p) { creds = some url }) p)

  unfoldable pub notify_popup_creds_cleared : ℕ → Popups N → Popups N
  unfolding broadcast_for_tab remove
  notify_popup_creds_cleared tab p =
      broadcast_for_tab tab (record p { mirrors = remove tab p.mirrors })

  unfoldable pub notify_connecting : ℕ → String → Popups N → Popups N
  unfolding ensure_mirror broadcast_for_tab insert
  notify_connecting tab url p =
      broadcast_for_tab tab
        (set_mirror tab (record { socket_state = socket_connecting; creds = some url }) p)

  unfoldable pub notify_open : ℕ → Popups N → Popups N
  unfolding ensure_mirror broadcast_for_tab insert
  notify_open tab p =
      broadcast_for_tab tab
        (set_mirror tab (record (ensure_mirror tab p) { socket_state = socket_open }) p)

  unfoldable pub notify_disconnected : ℕ → Popups N → Popups N
  unfolding broadcast_for_tab lookup insert
  notify_disconnected tab p = elim (lookup tab p.mirrors) [
    | none ↦ p
    | some m ↦
        broadcast_for_tab tab (set_mirror tab (record m { socket_state = socket_disconnected }) p)
  ]

  unfoldable pub notify_room_state_changed : ℕ → Popups N → Popups N
  unfolding broadcast_for_tab
  notify_room_state_changed tab p = broadcast_for_tab tab p

  unfoldable pub notify_cursor_changed : ℕ → Popups N → Popups N
  unfolding broadcast_for_tab
  notify_cursor_changed tab p = broadcast_for_tab tab p

  -- The two listeners of `registerPopupPort`.
  unfoldable pub subscribe : ℕ → ℕ → Popups N → Popups N
  unfolding send_to
  subscribe port tab p = send_to port tab (record p {
    ports = if any (λ q. q == port) p.ports then p.ports else p.ports ++ port ∷ [];
    port_tabs = λ q. if port == q then some tab else p.port_tabs q;
  })

  unfoldable pub port_closed : ℕ → Popups N → Popups N
  port_closed port p = record p {
    ports = keep (λ q. not (q == port)) p.ports;
    port_tabs = λ q. if port == q then none else p.port_tabs q;
  }
