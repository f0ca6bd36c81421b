-- ===== src/Background/Guard.antt =====
-- The navigation guard, the cursor reconciler and their timers, in
-- extension/entrypoints/background.ts. A `now` is `Date.now()`; `live` is the URL that
-- `browser.tabs.get` finds, `none` where the call rejects or the tab has no URL.
use text.Mathlib.Text.{◌==◌ as str_eq}
use playback_sync.Base.{
  ℕ, Bool, true, false, not, ◌&&◌, ◌||◌, Option, none, some, String, if◌then◌else◌, any,
}
use playback_sync.Number.{Number}
use playback_sync.Protocol.Frames.{PlaylistEntry, VideoRefWithMeta}
use playback_sync.Messages.{cursor_change, ContentIdentity}
use playback_sync.Session.{
  SessionState, Mode, single, mark_converged, in_settle_window, reset_convergence,
  set_pending_cursor_target, clear_pending_cursor_target, cursor_video_id,
}
use playback_sync.Session.Ops.{end_guard_reload}
use playback_sync.Session.Clock.{build_resync_commands}
use playback_sync.Background.{
  Context, reconciling, rechecking, Tab, ws_cursor_request, start_resync, emit, suspend, assign,
  mutate,
}
use playback_sync.Background.Dispatch.{dispatch_command, dispatch_all}
use playback_sync.Ws.Senders.{is_freeform}

abbrev pub is_single : Mode → Bool
is_single single = true
is_single _ = false

abbrev pub is_set {ℓ} : {A : Type ℓ} → Option A → Bool
is_set none = false
is_set (some a) = true

-- `videoId !== null && videoId === other`
abbrev pub same_video : Option String → Option String → Bool
same_video (some v) (some w) = str_eq v w
same_video _ _ = false

module _ {N : Type 0} where
  -- `session.cursor?.videoId === videoId`, or an entry of the playlist with that id.
  unfoldable pub is_room_video : SessionState N → Option String → Bool
  is_room_video s none = false
  is_room_video s (some v) =
      same_video (cursor_video_id s.cursor) (some v) || any (λ e. str_eq e.video_id v) s.playlist

  -- The test of the playlist's entries, by provider and video.
  abbrev pub is_entry_of : String → String → PlaylistEntry N → Bool
  is_entry_of provider video e = str_eq e.provider_id provider && str_eq e.video_id video

  abbrev pub ref_of_entry : PlaylistEntry N → VideoRefWithMeta N
  ref_of_entry e = record {
    provider_id = e.provider_id;
    video_id = e.video_id;
    page_url = e.page_url;
    label = e.label;
    episode_number = e.episode_number;
    season_number = e.season_number;
  }

  abbrev pub context_at : Bool → String → ℕ → SessionState N → Option Context
  context_at include_freeform adapter_id id s = elim s.cursor [
    | none ↦ none
    | some cursor ↦
        if is_freeform s.mode && not include_freeform
        then none
        else some (record { adapter_id = adapter_id; session = id; cursor = cursor })
  ]

  unfoldable pub guard_context : Bool → Tab N → Option Context
  guard_context include_freeform t = elim t.guarded [
    | none ↦ none
    | some adapter_id ↦ elim t.session [
      | none ↦ none
      | some id ↦ context_at include_freeform adapter_id id (t.objects id)
    ]
  ]

  unfoldable pub pull_tab_back : ℕ → ℕ → Tab N → Tab N
  pull_tab_back now id t = elim (t.objects id).cursor [
    | none ↦ t
    | some cursor ↦ dispatch_command now (cursor_change cursor.page_url) t
  ]

  -- The gate of a navigation: no reload under way, and the room was reached once.
  abbrev pub is_steerable : SessionState N → Bool
  is_steerable s = not s.awaiting_reload && s.ever_converged

  unfoldable pub forward_cursor_change : ℕ → VideoRefWithMeta N → Tab N → Tab N
  unfolding reset_convergence set_pending_cursor_target
  forward_cursor_change id target t =
      emit (ws_cursor_request target)
        (record (mutate id (λ s. set_pending_cursor_target target.video_id (reset_convergence s))
          t) { request_timer = true })

  -- The callback of the fallback timer of a forwarded change.
  abbrev pub give_up_request : ℕ → SessionState N → SessionState N
  give_up_request now s =
      clear_pending_cursor_target (if s.converged then s else mark_converged now s)

  unfoldable pub request_due : ℕ → Tab N → Tab N
  unfolding mark_converged clear_pending_cursor_target
  request_due now t = elim t.session [
    | none ↦ record t { request_timer = false }
    | some id ↦ mutate id (give_up_request now) (record t { request_timer = false })
  ]

  -- The callback of the fallback timer of a guard reload.
  unfoldable pub reload_due : ℕ → Tab N → Tab N
  unfolding end_guard_reload
  reload_due now t = elim t.session [
    | none ↦ record t { reload_timer = false }
    | some id ↦
        mutate id (λ s. if s.awaiting_reload then end_guard_reload now s else s)
          (record t { reload_timer = false })
  ]

  -- `recheckAndPullBack` up to its await.
  unfoldable pub recheck : Tab N → Tab N
  unfolding guard_context
  recheck t = elim (guard_context false t) [ none ↦ t | some ctx ↦ suspend (rechecking ctx) t ]

  abbrev pub matches_cursor : SessionState N → ContentIdentity → Bool
  matches_cursor s identity = elim s.cursor [
    | none ↦ false
    | some c ↦ str_eq c.provider_id identity.provider_id && str_eq c.video_id identity.video_id
  ]

  abbrev pub end_reload_at : ℕ → ContentIdentity → ℕ → Tab N → Tab N
  end_reload_at now identity id t =
      if (t.objects id).awaiting_reload && matches_cursor (t.objects id) identity
      then emit start_resync (record (mutate id (end_guard_reload now) t) { reload_timer = false })
      else t

  unfoldable pub maybe_end_guard_reload : ℕ → ContentIdentity → Tab N → Tab N
  unfolding end_guard_reload
  maybe_end_guard_reload now identity t = elim t.session [
    | none ↦ t
    | some id ↦ end_reload_at now identity id t
  ]

  -- One tick of `reconcileCursorToRoom`, up to its await. `inSettleWindow` clears an elapsed window.
  abbrev pub reconcile_at : ℕ → Context → Tab N → Tab N
  reconcile_at now ctx t =
      let s = t.objects ctx.session in
      let window = in_settle_window now s in
      if s.awaiting_reload || not s.converged
      then t
      else if window.0 || is_set s.pending_cursor_target
      then assign ctx.session window.1 t
      else suspend (reconciling ctx) (assign ctx.session window.1 t)

  unfoldable pub reconcile_tick : ℕ → Tab N → Tab N
  unfolding guard_context in_settle_window
  reconcile_tick now t = elim (guard_context false t) [
    | none ↦ t
    | some ctx ↦ reconcile_at now ctx t
  ]

module _ {N : Type 0} ⦃n : Number N⦄ where
  -- The callback behind a guard reload's end, after a settle time.
  unfoldable pub resync_due : ℕ → Tab N → Tab N
  unfolding dispatch_all build_resync_commands
  resync_due now t = elim t.session [
    | none ↦ t
    | some id ↦
        if (t.objects id).awaiting_reload
        then t
        else dispatch_all now (build_resync_commands now (t.objects id)) t
  ]
