-- ===== src/Background/Routes.antt =====
-- The messages that reach the worker: `routeMessage`, `handlePopupMessage`, the boot path and the
-- browser's tab events, in extension/entrypoints/background.ts. `pooled` is the answer of
-- `hasRuntime`. A call that is awaited but does not wait is made at once.
use playback_sync.Base.{
  ℕ, ◌+◌, Bool, true, false, not, ◌&&◌, ◌||◌, Option, none, some, List, String, if◌then◌else◌, any,
  ◌==◌,
}
use playback_sync.Number.{Number}
use playback_sync.Protocol.Frames.{
  PlayerState, playing, paused, buffering, VideoRefWithMeta, buffer_start, buffer_end,
}
use playback_sync.Messages.{LocalIntent, ContentIdentity, VideoState}
use playback_sync.Session.{create_session, in_settle_window}
use playback_sync.Session.Windows.{should_suppress}
use playback_sync.Session.Clock.{build_resync_commands}
use playback_sync.Tabs.{record_status, record_identity, forget_tab}
use playback_sync.Urls.{Url}
use playback_sync.Ws.{Creds}
use playback_sync.Ws.Senders.{is_freeform}
use playback_sync.Background.{
  Tab, loading, saving, tearing_down, failing, ws_connect, ws_disconnect, ws_event, ws_buffer,
  ws_cursor_request, ws_identity, ws_catalog, popup_creds, popup_cleared, forget_icon, store_creds,
  remove_creds, emit, suspend, assign, mutate, TabFrames,
}
use playback_sync.Background.Dispatch.{
  set_page_frame, set_media_frame, dispatch_all, push_reevaluate, has_session, push_room_active,
  clear_nav_guard, media_target,
}
use playback_sync.Background.Guard.{is_single, is_entry_of, pull_tab_back, maybe_end_guard_reload}
use playback_sync.Background.Navigation.{handle_tab_navigation}

abbrev pub is_buffering : Option PlayerState → Bool
is_buffering (some buffering) = true
is_buffering _ = false

abbrev pub same_state : PlayerState → PlayerState → Bool
same_state playing playing = true
same_state paused paused = true
same_state buffering buffering = true
same_state _ _ = false

-- `prev !== msg.state.playerState`, negated.
abbrev pub is_state : Option PlayerState → PlayerState → Bool
is_state none q = false
is_state (some p) q = same_state p q

-- A media fail is ignored where another frame owns the video.
abbrev pub other_owner : Bool → ℕ → Option TabFrames → Bool
other_owner media frame frames = elim (media_target frames) [
  | none ↦ false
  | some owner ↦ media && not (owner == frame)
]

module _ {N : Type 0} ⦃n : Number N⦄ where
  -- `ensureConnectedWithCreds`: the session is a new object, shared with the runtime.
  unfoldable pub connect_with : Bool → Creds → Tab N → Tab N
  unfolding push_room_active
  connect_with pooled creds t =
      if pooled
      then t
      else push_room_active (
          emit (ws_connect creds t.fresh) (
            emit (popup_creds creds.sync_url) (record (assign t.fresh create_session t) {
              session = some t.fresh;
              fresh = t.fresh + 1;
            })))

  -- `ensureConnected` behind its await.
  unfoldable pub creds_loaded : Bool → Option Creds → Tab N → Tab N
  unfolding connect_with
  creds_loaded pooled none t = t
  creds_loaded pooled (some creds) t = connect_with pooled creds t

  -- The gate of an intent, on the session of the tab.
  abbrev pub gate_intent : ℕ → LocalIntent N → ℕ → Tab N → Tab N
  gate_intent now intent id t =
      let s = t.objects id in
      let window = in_settle_window now s in
      if not s.converged
      then t
      else if window.0 || should_suppress now window.1 intent
      then assign id window.1 t
      else emit (ws_event intent) (assign id window.1 t)

  unfoldable pub route_intent : ℕ → ℕ → LocalIntent N → Tab N → Tab N
  unfolding set_media_frame in_settle_window should_suppress
  route_intent now frame intent t =
      let t' = set_media_frame frame t in
      elim t.session [ none ↦ t' | some id ↦ gate_intent now intent id t' ]

  -- `ensureConnected` up to its await; `then_push` as in `content_ready`.
  unfoldable pub ensure_connected : Bool → Bool → Tab N → Tab N
  ensure_connected pooled then_push t = if pooled then t else suspend (loading then_push) t

  unfoldable pub route_media_hello : ℕ → ℕ → Bool → Tab N → Tab N
  unfolding set_media_frame ensure_connected dispatch_all build_resync_commands
  route_media_hello now frame pooled t =
      let t' = ensure_connected pooled false (set_media_frame frame t) in
      elim t.session [
        | none ↦ t'
        | some id ↦ dispatch_all now (build_resync_commands now (t.objects id)) t'
      ]

module _ {N : Type 0} where
  -- The BUFFER frame of a change of the player's state.
  abbrev pub report_buffer : Option PlayerState → PlayerState → N → Tab N → Tab N
  report_buffer prev state pos t =
      if is_buffering (some state)
      then emit (ws_buffer buffer_start pos) t
      else if is_buffering prev
      then emit (ws_buffer buffer_end pos) t
      else t

  abbrev pub follow_status : VideoState N → ℕ → Tab N → Tab N
  follow_status state id t =
      let prev = (t.objects id).last_player_state in
      if is_state prev state.player_state
      then t
      else mutate id (λ s. record s { last_player_state = some state.player_state })
          (report_buffer prev state.player_state state.current_pos t)

  unfoldable pub route_status : ℕ → ℕ → Bool → String → VideoState N → Tab N → Tab N
  unfolding set_media_frame record_status
  route_status now frame pooled adapter_id state t =
      let t0 = set_media_frame frame t in
      let t1 = record t0 { cache = record_status now t.id adapter_id state t.cache } in
      let t2 = if pooled then t1 else suspend (loading false) t1 in
      elim t.session [ none ↦ t2 | some id ↦ follow_status state id t2 ]

  -- The guard's opt-in of the active adapter. The reconciler is armed once.
  abbrev pub arm_guard : Bool → String → Tab N → Tab N
  arm_guard guard adapter_id t =
      if guard
      then record t { guarded = some adapter_id; reconcile_timer = true }
      else clear_nav_guard t

  unfoldable pub route_identity : ℕ → ℕ → String → ContentIdentity → String → Bool → Tab N → Tab N
  unfolding set_page_frame record_identity clear_nav_guard maybe_end_guard_reload
  route_identity now frame adapter_id identity page_url guard t =
      let t0 = set_page_frame frame t in
      let t1 = record t0 { cache = record_identity t.id adapter_id identity t.cache } in
      emit
        (ws_identity (record {
          provider_id = identity.provider_id;
          video_id = identity.video_id;
          page_url = page_url;
        }))
        (maybe_end_guard_reload now identity (arm_guard guard adapter_id t1))

  unfoldable pub route_catalog : Option (List (VideoRefWithMeta N)) → Tab N → Tab N
  route_catalog catalog t = emit (ws_catalog catalog) t

  abbrev pub trigger_at : ℕ → VideoRefWithMeta N → ℕ → Tab N → Tab N
  trigger_at now target id t =
      let s = t.objects id in
      if is_freeform s.mode
      then emit (ws_cursor_request target) t
      else if is_single s.mode
          || not (any (is_entry_of target.provider_id target.video_id) s.playlist)
      then pull_tab_back now id t
      else emit (ws_cursor_request target) t

  unfoldable pub handle_cursor_trigger : ℕ → VideoRefWithMeta N → Tab N → Tab N
  unfolding pull_tab_back
  handle_cursor_trigger now target t = elim t.session [
    | none ↦ t
    | some id ↦ trigger_at now target id t
  ]

  -- `fail` up to its await.
  unfoldable pub route_fail : Bool → ℕ → Tab N → Tab N
  unfolding media_target
  route_fail media frame t =
      if other_owner media frame t.frames
      then t
      else suspend failing (emit remove_creds (emit ws_disconnect t))

  -- Behind `await clearCreds`.
  unfoldable pub failed : Tab N → Tab N
  unfolding forget_tab clear_nav_guard push_room_active
  failed t = push_room_active (
      emit forget_icon (
        clear_nav_guard
          (record t { cache = forget_tab t.id t.cache; session = none; frames = none })))

  unfoldable pub handle_credentials : String → String → Tab N → Tab N
  handle_credentials url password t =
      suspend (saving url password) (emit (store_creds url password) t)

  -- `onTerminal`, and the rest of `leave_room`.
  unfoldable pub tear_down : Tab N → Tab N
  tear_down t = suspend tearing_down (emit remove_creds t)

  unfoldable pub leave_room : Tab N → Tab N
  unfolding tear_down
  leave_room t = tear_down (emit ws_disconnect t)

  -- `browser.tabs.onRemoved`
  unfoldable pub tab_removed : Tab N → Tab N
  unfolding forget_tab clear_nav_guard
  tab_removed t =
      let t' = emit remove_creds (emit popup_cleared (emit ws_disconnect (emit forget_icon t))) in
      clear_nav_guard (record t' { cache = forget_tab t.id t.cache; session = none; frames = none })

  -- `browser.tabs.onUpdated` with a URL.
  unfoldable pub url_changed : (String → Option Url) → String → Tab N → Tab N
  unfolding push_reevaluate handle_tab_navigation
  url_changed parse url t =
      handle_tab_navigation parse url (if has_session t.session then push_reevaluate t else t)
