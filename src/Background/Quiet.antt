-- ===== src/Background/Quiet.antt =====
-- The handlers of extension/entrypoints/background.ts that change the convergence flags, and send no
-- intent to the room.
use text.Mathlib.Text.{◌==◌ as str_eq}
use playback_sync.Base.{
  get_elem?, ℕ, Bool, true, false, ◌≡◌, refl, ◌∙◌, Option, none, some, List, [], ◌∷◌, String,
  Option-split, if-split, ◌||◌, ◌&&◌,
}
use playback_sync.Number.{Number}
use playback_sync.Protocol.Frames.{
  InboundFrame, room_state, state, cursor_change, playlist_update, sync_adjust, clock_pong, error,
  notice, PlaylistEntry, VideoRefWithMeta,
}
use playback_sync.Messages.{AuthoritativeCommand, ContentIdentity}
use playback_sync.Session.{SessionState, reset_convergence}
use playback_sync.Session.Folds.{
  apply_room_state, apply_state, apply_cursor_change, apply_sync_adjust,
}
use playback_sync.Tabs.{record_identity}
use playback_sync.Urls.{Url, video_id_for_url}
use playback_sync.Ws.{Creds}
use playback_sync.Ws.Senders.{is_freeform}
use playback_sync.Background.{
  Tab, Task, Context, assign, routing, reconciling, rechecking, loading, saving, tearing_down,
  failing,
}
use playback_sync.Background.Dispatch.{push_room_active, clear_nav_guard, set_page_frame}
use playback_sync.Background.Guard.{
  forward_cursor_change, reload_due, request_due, maybe_end_guard_reload, matches_cursor,
  same_video, is_single, ref_of_entry,
}
use playback_sync.Background.Navigation.{
  route_anchored, route_move, route_resumed, reconcile_resumed, recheck_resumed, object_of,
  find_entry, freeform_target, on_effective_cursor, in_playlist, is_room_url,
}
use playback_sync.Background.Routes.{connect_with, creds_loaded, route_identity, arm_guard}
use playback_sync.Background.Runs.{
  Answer, deliver, receive, receive_any, reconnect, pushed, resumed, resume_task,
}
use playback_sync.Background.Gist.{sent, Same, dispatch_all-Same}
use playback_sync.Background.Steady.{pull_tab_back-Same, recheck-Same}

module _ {N : Type 0} where
  pub record Quiet (t u : Tab N) : Type 0 where
    pub quiet : sent u.out ≡ sent t.out

  pub hush : {t u : Tab N} → sent u.out ≡ sent t.out → Quiet t u
  hush e = record { quiet = e }

  pub Same-Quiet : {t u : Tab N} → Same t u → Quiet t u
  Same-Quiet s = hush s.quiet

  forward-Quiet :
      (id : ℕ) (target : VideoRefWithMeta N) (t : Tab N)
      → Quiet t (forward_cursor_change id target t)
  unfolding forward_cursor_change
  forward-Quiet id target t = hush refl

  pub reload_due-Quiet : (now : ℕ) (t : Tab N) → Quiet t (reload_due now t)
  unfolding reload_due
  reload_due-Quiet now t = Option-split (Quiet t) t.session _ _ (hush refl) (λ id e. hush refl)

  pub request_due-Quiet : (now : ℕ) (t : Tab N) → Quiet t (request_due now t)
  unfolding request_due
  request_due-Quiet now t = Option-split (Quiet t) t.session _ _ (hush refl) (λ id e. hush refl)

  end_reload-Quiet :
      (now : ℕ) (i : ContentIdentity) (t : Tab N) → Quiet t (maybe_end_guard_reload now i t)
  unfolding maybe_end_guard_reload
  end_reload-Quiet now i t = Option-split (Quiet t) t.session t _ (hush refl) (λ id e.
      if-split (Quiet t) ((t.objects id).awaiting_reload && matches_cursor (t.objects id) i) _ _
        (λ q. hush refl) (λ q. hush refl))

  arm_guard-Quiet :
      (b : Bool) (adapter : String) (t u : Tab N) → Quiet t u → Quiet t (arm_guard b adapter u)
  unfolding clear_nav_guard
  arm_guard-Quiet true adapter t u q = hush q.quiet
  arm_guard-Quiet false adapter t u q = hush q.quiet

  pub route_identity-Quiet :
      (now frame : ℕ) (adapter : String) (i : ContentIdentity) (page_url : String) (b : Bool)
      (t : Tab N)
      → Quiet t (route_identity now frame adapter i page_url b t)
  unfolding route_identity
  route_identity-Quiet now frame adapter i page_url b t =
      let u = record (set_page_frame frame t) { cache = record_identity t.id adapter i t.cache } in
      hush (
        (end_reload-Quiet now i (arm_guard b adapter u)).quiet
        ∙ (arm_guard-Quiet b adapter t u (hush refl)).quiet)

  recheck_resumed-Quiet :
      (parse : String → Option Url) (ctx : Context) (live : Option String) (t : Tab N)
      → Quiet t (recheck_resumed parse ctx live t)
  unfolding recheck_resumed
  recheck_resumed-Quiet parse ctx none t = hush refl
  recheck_resumed-Quiet parse ctx (some live) t =
      if-split (Quiet t) (str_eq live "" || is_room_url parse (object_of ctx t) live ctx.adapter_id)
        _ _ (λ e. hush refl) (λ e. hush refl)

  route_anchored-Quiet :
      (now : ℕ) (ctx : Context) (entry : Option (PlaylistEntry N)) (t : Tab N)
      → Quiet t (route_anchored now ctx entry t)
  unfolding route_anchored
  route_anchored-Quiet now ctx none t = Same-Quiet (recheck-Same t)
  route_anchored-Quiet now ctx (some entry) t =
      if-split (Quiet t) (is_single (object_of ctx t).mode) _ _
        (λ q. Same-Quiet (pull_tab_back-Same now ctx.session t))
        (λ q. forward-Quiet ctx.session (ref_of_entry entry) t)

  route_move-Quiet :
      (parse : String → Option Url) (now : ℕ) (ctx : Context) (live : String)
      (video : Option String) (t : Tab N)
      → Quiet t (route_move parse now ctx live video t)
  unfolding route_move
  route_move-Quiet parse now ctx live none t =
      if-split (Quiet t) (is_freeform (object_of ctx t).mode) _ _ (λ q. hush refl)
        (λ q. route_anchored-Quiet now ctx none t)
  route_move-Quiet parse now ctx live (some video) t =
      if-split (Quiet t) (is_freeform (object_of ctx t).mode) _ _
        (λ q. forward-Quiet ctx.session (freeform_target parse ctx video live) t)
        (λ q.
          route_anchored-Quiet now ctx (find_entry ctx.cursor.provider_id video (object_of ctx t))
            t)

  route_resumed-Quiet :
      (parse : String → Option Url) (now : ℕ) (ctx : Context) (live : Option String) (t : Tab N)
      → Quiet t (route_resumed parse now ctx live t)
  unfolding route_resumed
  route_resumed-Quiet parse now ctx none t = hush refl
  route_resumed-Quiet parse now ctx (some live) t =
      let video = video_id_for_url parse ctx.adapter_id live in
      if-split (Quiet t) (str_eq live "" || on_effective_cursor video (object_of ctx t)) _ _
        (λ q. hush refl) (λ q. route_move-Quiet parse now ctx live video t)

  reconcile_resumed-Quiet :
      (parse : String → Option Url) (now : ℕ) (ctx : Context) (live : Option String) (t : Tab N)
      → Quiet t (reconcile_resumed parse now ctx live t)
  unfolding reconcile_resumed
  reconcile_resumed-Quiet parse now ctx none t = hush refl
  reconcile_resumed-Quiet parse now ctx (some live) t =
      let video = video_id_for_url parse ctx.adapter_id live in
      if-split (Quiet t) (str_eq live "" || same_video video (some ctx.cursor.video_id)) _ _
        (λ q. hush refl)
        (λ q.
          if-split (Quiet t) (in_playlist ctx video (object_of ctx t)) _ _
            (λ r. Same-Quiet (pull_tab_back-Same now ctx.session t))
            (λ r. Same-Quiet (recheck-Same t)))

  pub reconnect-Quiet : (t : Tab N) → Quiet t (reconnect t)
  unfolding reconnect
  reconnect-Quiet t = Option-split (Quiet t) t.session t _ (hush refl) (λ id e. hush refl)

  deliver-Quiet :
      (now id : ℕ) (p : SessionState N × List (AuthoritativeCommand N)) (t : Tab N)
      → Quiet t (deliver now id p t)
  unfolding deliver
  deliver-Quiet now id (s, []) t = hush refl
  deliver-Quiet now id (s, c ∷ cs) t = hush (dispatch_all-Same now (c ∷ cs) (assign id s t)).quiet

module _ {N : Type 0} ⦃n : Number N⦄ where
  receive-Quiet : (now id : ℕ) (f : InboundFrame N) (t : Tab N) → Quiet t (receive now id f t)
  unfolding receive
  receive-Quiet now id (room_state f) t = deliver-Quiet now id (apply_room_state (t.objects id) f) t
  receive-Quiet now id (state f) t = deliver-Quiet now id (apply_state (t.objects id) f) t
  receive-Quiet now id (cursor_change f) t =
      deliver-Quiet now id (apply_cursor_change (reset_convergence (t.objects id)) f) t
  receive-Quiet now id (sync_adjust f) t =
      deliver-Quiet now id (apply_sync_adjust (t.objects id) f) t
  receive-Quiet now id (playlist_update f) t = hush refl
  receive-Quiet now id (clock_pong f) t = hush refl
  receive-Quiet now id (notice f) t = hush refl
  receive-Quiet now id (error f) t = hush refl

  pub receive_any-Quiet : (now : ℕ) (f : InboundFrame N) (t : Tab N) → Quiet t (receive_any now f t)
  unfolding receive_any
  receive_any-Quiet now f t =
      Option-split (Quiet t) t.session t (λ id. receive now id f t) (hush refl)
        (λ id e. receive-Quiet now id f t)

  pub connect_with-Quiet :
      (pooled : Bool) (creds : Creds) (t : Tab N) → Quiet t (connect_with pooled creds t)
  unfolding connect_with
  connect_with-Quiet true creds t = hush refl
  connect_with-Quiet false creds t = hush refl

  creds_loaded-Quiet :
      (pooled : Bool) (stored : Option Creds) (t : Tab N) → Quiet t (creds_loaded pooled stored t)
  unfolding creds_loaded
  creds_loaded-Quiet pooled none t = hush refl
  creds_loaded-Quiet pooled (some creds) t = connect_with-Quiet pooled creds t

  pushed-Quiet : (b : Bool) (t u : Tab N) → Quiet t u → Quiet t (pushed b u)
  unfolding push_room_active
  pushed-Quiet true t u q = hush q.quiet
  pushed-Quiet false t u q = q

  resumed-Quiet :
      (parse : String → Option Url) (a : Answer) (task : Task) (t : Tab N)
      → Quiet t (resumed parse a task t)
  unfolding resumed
  resumed-Quiet parse a (routing ctx) t = route_resumed-Quiet parse a.now ctx a.live t
  resumed-Quiet parse a (reconciling ctx) t = reconcile_resumed-Quiet parse a.now ctx a.live t
  resumed-Quiet parse a (rechecking ctx) t = recheck_resumed-Quiet parse ctx a.live t
  resumed-Quiet parse a (loading push) t =
      pushed-Quiet push t _ (creds_loaded-Quiet a.pooled a.stored t)
  resumed-Quiet parse a (saving url password) t = connect_with-Quiet a.pooled _ t
  resumed-Quiet parse a tearing_down t = hush refl
  resumed-Quiet parse a failing t = hush refl

  pub resume_task-Quiet :
      (parse : String → Option Url) (k : ℕ) (a : Answer) (t : Tab N)
      → Quiet t (resume_task parse k a t)
  unfolding resume_task
  resume_task-Quiet parse k a t =
      Option-split (Quiet t) (get_elem? t.tasks k) t _ (hush refl)
        (λ task e. hush (resumed-Quiet parse a task _).quiet)
