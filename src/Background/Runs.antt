-- ===== src/Background/Runs.antt =====
-- The life of one tab in extension/entrypoints/background.ts as a sequence of events: messages of its
-- content scripts and its popup, server frames, timers, navigations, and the resumption of suspended
-- handlers. A timer that is not in its map does not fire. A server frame folds the session of the
-- tab's runtime, which is the session of the map, as extension/src/background/ws.ts does, and calls
-- back into the entrypoint for each command. The timer of a resync is in no map and fires any time.
use playback_sync.Base.{
  get_elem?, erase_idx, ℕ, Bool, true, Option, none, some, List, [], ◌∷◌, String, if◌then◌else◌,
}
use playback_sync.Number.{Number}
use playback_sync.Protocol.Frames.{
  InboundFrame, room_state, state, cursor_change, playlist_update, sync_adjust, clock_pong, error,
  notice, VideoRefWithMeta,
}
use playback_sync.Messages.{AuthoritativeCommand, LocalIntent, ContentIdentity, VideoState, peer}
use playback_sync.Session.{SessionState, mark_converged, reset_convergence, reset_connection_state}
use playback_sync.Session.Folds.{
  apply_room_state, apply_state, apply_cursor_change, apply_playlist_update, apply_sync_adjust,
}
use playback_sync.Session.Clock.{apply_clock_pong}
use playback_sync.Urls.{Url}
use playback_sync.Ws.{Creds}
use playback_sync.Background.{
  Tab, Task, routing, reconciling, rechecking, loading, saving, tearing_down, failing, assign,
  mutate,
}
use playback_sync.Background.Dispatch.{
  set_media_frame, dispatch_all, dispatch_notice, command_rejected, push_room_active, torn_down,
}
use playback_sync.Background.Guard.{reload_due, request_due, reconcile_tick, resync_due}
use playback_sync.Background.Navigation.{nav_due, route_resumed, recheck_resumed, reconcile_resumed}
use playback_sync.Background.Routes.{
  connect_with, creds_loaded, ensure_connected, route_intent, route_media_hello, route_status,
  route_identity, route_catalog, handle_cursor_trigger, route_fail, failed, handle_credentials,
  tear_down, leave_room, tab_removed, url_changed,
}

-- What a suspended handler waits for, read when it resumes.
pub record Answer : Type 0 where
  pub now : ℕ
  pub live : Option String
  pub stored : Option Creds
  pub pooled : Bool

pub data Event (N : Type 0) : Type 0 where
  content_ready : Bool → Event N
  intent : ℕ → ℕ → LocalIntent N → Event N
  status : ℕ → ℕ → Bool → String → VideoState N → Event N
  media_owner : ℕ → Event N
  media_hello : ℕ → ℕ → Bool → Event N
  identity : ℕ → ℕ → String → ContentIdentity → String → Bool → Event N
  catalog : Option (List (VideoRefWithMeta N)) → Event N
  cursor_trigger : ℕ → VideoRefWithMeta N → Event N
  fail : Bool → ℕ → Event N
  credentials : String → String → Event N
  leave : Event N
  removed : Event N
  navigated : String → Event N
  booted : Bool → Creds → Event N
  received : ℕ → InboundFrame N → Event N
  reconnecting : Event N
  terminal : Event N
  rejected : AuthoritativeCommand N → Option ℕ → Event N
  nav_timer : Event N
  reload_timer : ℕ → Event N
  request_timer : ℕ → Event N
  reconcile_timer : ℕ → Event N
  resync_timer : ℕ → Event N
  resume : ℕ → Answer → Event N

module _ {N : Type 0} where
  -- `dispatchToOwner` of extension/src/background/ws.ts, with the entrypoint's `dispatchCommand`.
  unfoldable pub deliver : ℕ → ℕ → SessionState N × List (AuthoritativeCommand N) → Tab N → Tab N
  unfolding dispatch_all mark_converged
  deliver now id (s, []) t = assign id s t
  deliver now id (s, c ∷ cs) t =
      mutate id (mark_converged now) (dispatch_all now (c ∷ cs) (assign id s t))

  -- `openSocket` of extension/src/background/ws.ts, as far as the session goes.
  unfoldable pub reconnect : Tab N → Tab N
  reconnect t = elim t.session [ none ↦ t | some id ↦ mutate id reset_connection_state t ]

  -- The answer to `content_ready`, behind the connection.
  abbrev pub pushed : Bool → Tab N → Tab N
  pushed then_push t = if then_push then push_room_active t else t

module _ {N : Type 0} ⦃n : Number N⦄ where
  -- `handleFrame` of extension/src/background/ws.ts, as far as the session and the tab go.
  unfoldable pub receive : ℕ → ℕ → InboundFrame N → Tab N → Tab N
  unfolding deliver reset_convergence apply_clock_pong dispatch_notice
  receive now id (room_state f) t = deliver now id (apply_room_state (t.objects id) f) t
  receive now id (state f) t = deliver now id (apply_state (t.objects id) f) t
  receive now id (cursor_change f) t =
      deliver now id (apply_cursor_change (reset_convergence (t.objects id)) f) t
  receive now id (playlist_update f) t = assign id (apply_playlist_update (t.objects id) f).0 t
  receive now id (sync_adjust f) t = deliver now id (apply_sync_adjust (t.objects id) f) t
  receive now id (clock_pong f) t =
      assign id
        (apply_clock_pong (t.objects id) f.client_send_time f.server_recv_time f.server_send_time
          (n.lit now))
        t
  receive now id (notice f) t = dispatch_notice (peer f.event f.actor f.actor_id f.payload) t
  receive now id (error f) t = t

  unfoldable pub receive_any : ℕ → InboundFrame N → Tab N → Tab N
  unfolding receive
  receive_any now f t = elim t.session [ none ↦ t | some id ↦ receive now id f t ]

  module _ (parse : String → Option Url) where
    unfoldable pub resumed : Answer → Task → Tab N → Tab N
    unfolding route_resumed reconcile_resumed recheck_resumed creds_loaded connect_with torn_down
        failed push_room_active
    resumed a (routing ctx) t = route_resumed parse a.now ctx a.live t
    resumed a (reconciling ctx) t = reconcile_resumed parse a.now ctx a.live t
    resumed a (rechecking ctx) t = recheck_resumed parse ctx a.live t
    resumed a (loading then_push) t = pushed then_push (creds_loaded a.pooled a.stored t)
    resumed a (saving url password) t =
        connect_with a.pooled
          (record { sync_url = url; sync_password = password; client_id = none }) t
    resumed a tearing_down t = torn_down t
    resumed a failing t = failed t

    unfoldable pub resume_task : ℕ → Answer → Tab N → Tab N
    unfolding resumed
    resume_task k a t = elim (get_elem? t.tasks k) [
      | none ↦ t
      | some task ↦ resumed a task (record t { tasks = erase_idx t.tasks k })
    ]

    unfoldable pub step : Tab N → Event N → Tab N
    step t (content_ready pooled) =
        if pooled then push_room_active t else ensure_connected pooled true t
    step t (intent now frame i) = route_intent now frame i t
    step t (status now frame pooled adapter_id s) = route_status now frame pooled adapter_id s t
    step t (media_owner frame) = set_media_frame frame t
    step t (media_hello now frame pooled) = route_media_hello now frame pooled t
    step t (identity now frame adapter_id i page_url guard) =
        route_identity now frame adapter_id i page_url guard t
    step t (catalog entries) = route_catalog entries t
    step t (cursor_trigger now target) = handle_cursor_trigger now target t
    step t (fail media frame) = route_fail media frame t
    step t (credentials url password) = handle_credentials url password t
    step t leave = leave_room t
    step t removed = tab_removed t
    step t (navigated url) = url_changed parse url t
    step t (booted pooled creds) = connect_with pooled creds t
    step t (received now f) = receive_any now f t
    step t reconnecting = reconnect t
    step t terminal = tear_down t
    step t (rejected cmd target) = command_rejected cmd target t
    step t nav_timer = if t.nav_timer then nav_due t else t
    step t (reload_timer now) = if t.reload_timer then reload_due now t else t
    step t (request_timer now) = if t.request_timer then request_due now t else t
    step t (reconcile_timer now) = if t.reconcile_timer then reconcile_tick now t else t
    step t (resync_timer now) = resync_due now t
    step t (resume k a) = resume_task k a t

    unfoldable pub run : Tab N → List (Event N) → Tab N
    run t [] = t
    run t (e ∷ es) = run (step t e) es
