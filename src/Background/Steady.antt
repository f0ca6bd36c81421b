-- ===== src/Background/Steady.antt =====
-- The handlers of extension/entrypoints/background.ts that leave the convergence flags of the session
-- and the fallback timers as they are.
use playback_sync.Base.{
  ℕ, Bool, true, false, ◌≡◌, refl, ◌∙◌, Option, none, some, String, arith, Option-split, if-split,
  if◌then◌else◌, any, ◌||◌, not,
}
use playback_sync.Number.{Number}
use playback_sync.Protocol.Frames.{VideoRefWithMeta, PlayerState}
use playback_sync.Messages.{AuthoritativeCommand, LocalIntent, VideoState, cursor_change}
use playback_sync.Session.{SessionState, in_settle_window}
use playback_sync.Session.Windows.{should_suppress}
use playback_sync.Ws.Senders.{is_freeform}
use playback_sync.Session.Clock.{build_resync_commands}
use playback_sync.Urls.{Url, video_id_for_url}
use playback_sync.Tabs.{record_status}
use playback_sync.Background.{Tab, Context, assign, suspend, loading}
use playback_sync.Background.Dispatch.{
  command_rejected, dispatch_command, set_media_frame, push_reevaluate, has_session,
  is_cursor_change,
}
use playback_sync.Background.Guard.{
  pull_tab_back, recheck, reconcile_at, reconcile_tick, resync_due, guard_context, is_steerable,
  is_single, is_entry_of, is_set,
}
use playback_sync.Background.Navigation.{
  handle_tab_navigation, nav_due, object_of, on_effective_cursor,
}
use playback_sync.Background.Routes.{
  gate_intent, route_intent, route_media_hello, follow_status, route_status, trigger_at,
  handle_cursor_trigger, route_fail, url_changed, ensure_connected, other_owner, is_state,
  report_buffer, is_buffering,
}
use playback_sync.Background.Gist.{
  flags, HasGist, Same, still, ◌⨾◌, assign-Same, dispatch_all-Same, dispatch_command-Same,
}

module _ {N : Type 0} where
  pub flags-in_settle_window :
      (now : ℕ) (s : SessionState N) → flags (in_settle_window now s).1 ≡ flags s
  unfolding in_settle_window
  flags-in_settle_window now s = ground arith

  pub pull_tab_back-Same : (now id : ℕ) (t : Tab N) → Same t (pull_tab_back now id t)
  unfolding pull_tab_back
  pull_tab_back-Same now id t =
      Option-split (Same t) (t.objects id).cursor t
        (λ c. dispatch_command now (cursor_change c.page_url) t) (still refl refl)
        (λ c e. dispatch_command-Same now (cursor_change c.page_url) t)

  pub recheck-Same : (t : Tab N) → Same t (recheck t)
  unfolding recheck
  recheck-Same t =
      Option-split (Same t) (guard_context false t) t _ (still refl refl) (λ c e. still refl refl)

  pub nav_due-Same : (t : Tab N) → Same t (nav_due t)
  unfolding nav_due
  nav_due-Same t =
      Option-split (Same t) (guard_context true (record t { nav_timer = false })) _ _
        (still refl refl)
        (λ c e.
          if-split (Same t) (is_steerable (t.objects c.session)) _ _ (λ q. still refl refl)
            (λ q. still refl refl))

  pub command_rejected-Same :
      (c : AuthoritativeCommand N) (target : Option ℕ) (t : Tab N)
      → Same t (command_rejected c target t)
  unfolding command_rejected
  command_rejected-Same c none t = (still refl refl)
  command_rejected-Same c (some f) t =
      if-split (Same t) (is_cursor_change c) _ _ (λ q. still refl refl) (λ q. still refl refl)

  reconcile_at-Same : (now : ℕ) (c : Context) (t : Tab N) → Same t (reconcile_at now c t)
  reconcile_at-Same now c t =
      let w = in_settle_window now (t.objects c.session) in
      let kept : Same t (assign c.session w.1 t) =
        assign-Same c.session w.1 t (flags-in_settle_window now (t.objects c.session)) in
      let s = t.objects c.session in
      if-split (Same t) (s.awaiting_reload || not s.converged) _ _ (λ q. still refl refl)
        (λ q.
          if-split (Same t) (w.0 || is_set s.pending_cursor_target) _ _ (λ q. kept)
            (λ q. kept ⨾ still refl refl))

  pub reconcile_tick-Same : (now : ℕ) (t : Tab N) → Same t (reconcile_tick now t)
  unfolding reconcile_tick
  reconcile_tick-Same now t =
      Option-split (Same t) (guard_context false t) t (λ c. reconcile_at now c t) (still refl refl)
        (λ c e. reconcile_at-Same now c t)

  report_buffer-Same :
      (prev : Option PlayerState) (q : PlayerState) (pos : N) (t : Tab N)
      → Same t (report_buffer prev q pos t)
  report_buffer-Same prev q pos t =
      if-split (Same t) (is_buffering (some q)) _ _ (λ e. still refl refl)
        (λ e.
          if-split (Same t) (is_buffering prev) _ _ (λ e. still refl refl) (λ e. still refl refl))

  follow_status-Same : (s : VideoState N) (id : ℕ) (t : Tab N) → Same t (follow_status s id t)
  follow_status-Same s id t =
      let prev = (t.objects id).last_player_state in
      if-split (Same t) (is_state prev s.player_state) _ _ (λ q. still refl refl)
        (λ q.
          report_buffer-Same prev s.player_state s.current_pos t
          ⨾ assign-Same id _ (report_buffer prev s.player_state s.current_pos t) refl)

  pub route_status-Same :
      (now frame : ℕ) (pooled : Bool) (adapter : String) (s : VideoState N) (t : Tab N)
      → Same t (route_status now frame pooled adapter s t)
  unfolding route_status
  route_status-Same now frame pooled adapter s t =
      let t0 = set_media_frame frame t in
      let t1 = record t0 { cache = record_status now t.id adapter s t.cache } in
      let t2 = if pooled then t1 else suspend (loading false) t1 in
      let kept : Same t t2 =
        if-split (Same t) pooled t1 _ (λ q. still refl refl) (λ q. still refl refl) in
      Option-split (Same t) t.session t2 (λ id. follow_status s id t2) kept
        (λ id e. kept ⨾ follow_status-Same s id t2)

  pub handle_cursor_trigger-Same :
      (now : ℕ) (target : VideoRefWithMeta N) (t : Tab N)
      → Same t (handle_cursor_trigger now target t)
  unfolding handle_cursor_trigger
  handle_cursor_trigger-Same now target t =
      Option-split (Same t) t.session t (λ id. trigger_at now target id t) (still refl refl)
        (λ id e.
          let s = t.objects id in
          if-split (Same t) (is_freeform s.mode) _ _ (λ q. still refl refl)
            (λ q.
              if-split (Same t)
                (is_single s.mode
                  || not (any (is_entry_of target.provider_id target.video_id) s.playlist))
                _ _ (λ q. pull_tab_back-Same now id t) (λ q. still refl refl)))

  pub route_fail-Same : (media : Bool) (frame : ℕ) (t : Tab N) → Same t (route_fail media frame t)
  unfolding route_fail
  route_fail-Same media frame t =
      if-split (Same t) (other_owner media frame t.frames) _ _ (λ q. still refl refl)
        (λ q. still refl refl)

  handle_tab_navigation-Same :
      (parse : String → Option Url) (url : String) (t : Tab N)
      → Same t (handle_tab_navigation parse url t)
  unfolding handle_tab_navigation
  handle_tab_navigation-Same parse url t =
      Option-split (Same t) (guard_context true t) t _ (still refl refl) (λ c e.
        if-split (Same t)
          (not (is_steerable (object_of c t))
            || on_effective_cursor (video_id_for_url parse c.adapter_id url) (object_of c t))
          _ _ (λ q. still refl refl) (λ q. still refl refl))

  pub url_changed-Same :
      (parse : String → Option Url) (url : String) (t : Tab N) → Same t (url_changed parse url t)
  unfolding url_changed
  url_changed-Same parse url t =
      if-split (Same t) (has_session t.session) (push_reevaluate t) t (λ q. still refl refl)
        (λ q. still refl refl)
      ⨾ handle_tab_navigation-Same parse url
          (if has_session t.session then push_reevaluate t else t)

module _ {N : Type 0} ⦃n : Number N⦄ where
  pub ensure_connected-Same :
      (pooled push : Bool) (t : Tab N) → Same t (ensure_connected pooled push t)
  unfolding ensure_connected
  ensure_connected-Same pooled push t =
      if-split (Same t) pooled _ _ (λ q. still refl refl) (λ q. still refl refl)

  pub resync_due-Same : (now : ℕ) (t : Tab N) → Same t (resync_due now t)
  unfolding resync_due
  resync_due-Same now t = Option-split (Same t) t.session t _ (still refl refl) (λ id e.
      if-split (Same t) (t.objects id).awaiting_reload _ _ (λ q. still refl refl)
        (λ q. dispatch_all-Same now (build_resync_commands now (t.objects id)) t))

  -- An intent changes no flags, whether it is sent or not.
  gist-gate_intent :
      (now : ℕ) (i : LocalIntent N) (id : ℕ) (t : Tab N) → HasGist t (gate_intent now i id t)
  gist-gate_intent now i id t =
      let s = t.objects id in
      let w = in_settle_window now s in
      let kept = assign-Same id w.1 t (flags-in_settle_window now (t.objects id)) in
      if-split (HasGist t) (not s.converged) _ _ (λ q. record { gists = refl })
        (λ q.
          if-split (HasGist t) (w.0 || should_suppress now w.1 i) _ _
            (λ q. record { gists = kept.same }) (λ q. record { gists = kept.same }))

  pub media_frame-Same : (frame : ℕ) (t : Tab N) → Same t (set_media_frame frame t)
  unfolding set_media_frame
  media_frame-Same frame t = still refl refl

  pub gist-route_intent :
      (now frame : ℕ) (i : LocalIntent N) (t : Tab N) → HasGist t (route_intent now frame i t)
  unfolding route_intent
  gist-route_intent now frame i t =
      Option-split (HasGist t) t.session _ _ (record { gists = (media_frame-Same frame t).same })
        (λ id e.
          let u = set_media_frame frame t in
          record { gists = (gist-gate_intent now i id u).gists ∙ (media_frame-Same frame t).same })

  pub route_media_hello-Same :
      (now frame : ℕ) (pooled : Bool) (t : Tab N) → Same t (route_media_hello now frame pooled t)
  unfolding route_media_hello
  route_media_hello-Same now frame pooled t =
      let kept : Same t (ensure_connected pooled false (set_media_frame frame t)) =
        media_frame-Same frame t ⨾ ensure_connected-Same pooled false (set_media_frame frame t) in
      Option-split (Same t) t.session _ _ kept
        (λ id e. kept ⨾ dispatch_all-Same now (build_resync_commands now (t.objects id)) _)
