-- ===== src/Popup/Runs.antt =====
-- The events that reach extension/src/background/popupBroadcast.ts: its calls, a port that subscribes or
-- goes, and the changes of the sessions that its snapshots read. A session changes by itself: a notice of
-- it is an event of its own, which the caller sends behind the change or, as the route of a `fail` in
-- extension/entrypoints/background.ts, does not send.
use playback_sync.Base.{ℕ, Option, List, [], ◌∷◌, String, if◌then◌else◌, ◌==◌}
use playback_sync.Session.{SessionState}
use playback_sync.Popup.{
  Popups, set_popup_creds, notify_popup_creds_cleared, notify_connecting, notify_open,
  notify_disconnected, notify_room_state_changed, notify_cursor_changed, subscribe, port_closed,
}

pub data Event (N : Type 0) : Type 0 where
  changed : ℕ → Option (SessionState N) → Event N
  creds_set : ℕ → String → Event N
  creds_cleared : ℕ → Event N
  opening : ℕ → String → Event N
  opened : ℕ → Event N
  closed : ℕ → Event N
  room_state : ℕ → Event N
  cursor_change : ℕ → Event N
  subscribed : ℕ → ℕ → Event N
  port_gone : ℕ → Event N

module _ {N : Type 0} where
  abbrev pub set_session : ℕ → Option (SessionState N) → Popups N → Popups N
  set_session tab s p = record p { sessions = λ j. if tab == j then s else p.sessions j }

  unfoldable pub step : Popups N → Event N → Popups N
  unfolding set_popup_creds notify_popup_creds_cleared notify_connecting notify_open
      notify_disconnected notify_room_state_changed notify_cursor_changed subscribe port_closed
  step p (changed tab s) = set_session tab s p
  step p (creds_set tab url) = set_popup_creds tab url p
  step p (creds_cleared tab) = notify_popup_creds_cleared tab p
  step p (opening tab url) = notify_connecting tab url p
  step p (opened tab) = notify_open tab p
  step p (closed tab) = notify_disconnected tab p
  step p (room_state tab) = notify_room_state_changed tab p
  step p (cursor_change tab) = notify_cursor_changed tab p
  step p (subscribed port tab) = subscribe port tab p
  step p (port_gone port) = port_closed port p

  unfoldable pub run : Popups N → List (Event N) → Popups N
  run p [] = p
  run p (e ∷ es) = run (step p e) es
