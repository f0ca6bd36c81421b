-- ===== src/Background/Fallback.antt =====
-- The fallback timers of extension/entrypoints/background.ts over the whole life of a tab.
use text.Mathlib.Text.{◌==◌ as str_eq}
use playback_sync.Base.{
  get_elem?, ℕ, Bool, true, false, ◌≡◌, refl, sym, subst, ◌∙◌, Option, none, some, List, [], ◌∷◌,
  String, arith, Option-split, if-split, ◌||◌,
}
use playback_sync.Number.{Number}
use playback_sync.Protocol.Frames.{
  InboundFrame, room_state, state, cursor_change, playlist_update, sync_adjust, clock_pong, error,
  notice, PlaylistEntry,
}
use playback_sync.Messages.{AuthoritativeCommand, ContentIdentity}
use playback_sync.Session.{
  SessionState, create_session, mark_converged, reset_convergence, reset_connection_state,
}
use playback_sync.Session.Folds.{
  apply_room_state, apply_state, apply_sync_adjust, apply_cursor_change, apply_playlist_update,
}
use playback_sync.Session.Clock.{apply_clock_pong}
use playback_sync.Urls.{Url, video_id_for_url}
use playback_sync.Ws.{Creds}
use playback_sync.Ws.Senders.{is_freeform}
use playback_sync.Background.{
  Tab, Task, Context, assign, routing, reconciling, rechecking, loading, saving, tearing_down,
  failing,
}
use playback_sync.Background.Dispatch.{dispatch_all, push_room_active}
use playback_sync.Background.Guard.{same_video, is_single, ref_of_entry}
use playback_sync.Background.Navigation.{
  route_anchored, route_move, route_resumed, reconcile_resumed, object_of, find_entry,
  freeform_target, on_effective_cursor, in_playlist,
}
use playback_sync.Background.Routes.{connect_with, creds_loaded, route_identity}
use playback_sync.Background.Runs.{
  Answer, deliver, receive, reconnect, pushed, resumed, resume_task,
}
use playback_sync.Background.Gist.{
  Flags, flags, flags_at, gist, still, assign-Same, dispatch_all-Same, session-dispatch_all,
}
use playback_sync.Background.Steady.{pull_tab_back-Same, recheck-Same}
use playback_sync.Background.Unstuck.{
  IsBacked, Backed, IsLive, Same-IsLive, Backed-current, current, forward-IsLive,
  recheck_resumed-IsLive, end_reload-IsLive,
}

weaken : (f : Flags) (r q : Bool) → IsBacked f r q → IsBacked f r true
weaken f r q v = ground arith

no_commands : {A P : Type 0} (c : A) (cs : List A) → c ∷ cs ≡ [] → P
no_commands c cs q = cc

module _ {N : Type 0} where
  marked :
      (now : ℕ) (s : SessionState N) (r q : Bool)
      → IsBacked (flags s) r true
      → IsBacked (flags (mark_converged now s)) r q
  unfolding mark_converged
  marked now s r q v = ground arith

  -- Frames may un-converge the session only where their commands converge it again.
  deliver-IsLive :
      (now id : ℕ) (s : SessionState N) (cs : List (AuthoritativeCommand N)) (t : Tab N)
      → IsLive t
      → t.session ≡ some id
      → IsBacked (flags s) t.reload_timer true
      → (cs ≡ [] → IsBacked (flags s) t.reload_timer t.request_timer)
      → IsLive (deliver now id (s, cs) t)
  unfolding deliver
  deliver-IsLive now id s [] t v e w k = record {
    backed = Backed-current t.session t.objects id s t.reload_timer t.request_timer e (k refl);
  }
  deliver-IsLive now id s (c ∷ cs) t v e w k =
      let u = dispatch_all now (c ∷ cs) (assign id s t) in
      let d = dispatch_all-Same now (c ∷ cs) (assign id s t) in
      let weak : Backed (gist u).session (gist u).reload true =
        subst (λ g. Backed g.session g.reload true) (sym d.same)
          (Backed-current t.session t.objects id s t.reload_timer true e w) in
      let e' : u.session ≡ some id = session-dispatch_all now (c ∷ cs) (assign id s t) ∙ e in
      let w' : IsBacked (flags (u.objects id)) u.reload_timer true =
        subst (λ o. Backed (flags_at o u.objects) u.reload_timer true) e' weak in
      record {
        backed =
            Backed-current u.session u.objects id _ u.reload_timer u.request_timer e'
              (marked now (u.objects id) u.reload_timer u.request_timer w');
      }

  route_anchored-IsLive :
      (now : ℕ) (ctx : Context) (entry : Option (PlaylistEntry N)) (t : Tab N)
      → IsLive t
      → IsLive (route_anchored now ctx entry t)
  unfolding route_anchored
  route_anchored-IsLive now ctx none t v = Same-IsLive (recheck-Same t) v
  route_anchored-IsLive now ctx (some entry) t v =
      if-split IsLive (is_single (object_of ctx t).mode) _ _
        (λ q. Same-IsLive (pull_tab_back-Same now ctx.session t) v)
        (λ q. forward-IsLive ctx.session (ref_of_entry entry) t v)

  route_move-IsLive :
      (parse : String → Option Url) (now : ℕ) (ctx : Context) (live : String)
      (video : Option String) (t : Tab N)
      → IsLive t
      → IsLive (route_move parse now ctx live video t)
  unfolding route_move
  route_move-IsLive parse now ctx live none t v =
      if-split IsLive (is_freeform (object_of ctx t).mode) _ _ (λ q. v)
        (λ q. route_anchored-IsLive now ctx none t v)
  route_move-IsLive parse now ctx live (some video) t v =
      if-split IsLive (is_freeform (object_of ctx t).mode) _ _
        (λ q. forward-IsLive ctx.session (freeform_target parse ctx video live) t v)
        (λ q.
          route_anchored-IsLive now ctx (find_entry ctx.cursor.provider_id video (object_of ctx t))
            t v)

  route_resumed-IsLive :
      (parse : String → Option Url) (now : ℕ) (ctx : Context) (live : Option String) (t : Tab N)
      → IsLive t
      → IsLive (route_resumed parse now ctx live t)
  unfolding route_resumed
  route_resumed-IsLive parse now ctx none t v = v
  route_resumed-IsLive parse now ctx (some live) t v =
      let video = video_id_for_url parse ctx.adapter_id live in
      if-split IsLive (str_eq live "" || on_effective_cursor video (object_of ctx t)) _ _ (λ q. v)
        (λ q. route_move-IsLive parse now ctx live video t v)

  reconcile_resumed-IsLive :
      (parse : String → Option Url) (now : ℕ) (ctx : Context) (live : Option String) (t : Tab N)
      → IsLive t
      → IsLive (reconcile_resumed parse now ctx live t)
  unfolding reconcile_resumed
  reconcile_resumed-IsLive parse now ctx none t v = v
  reconcile_resumed-IsLive parse now ctx (some live) t v =
      let video = video_id_for_url parse ctx.adapter_id live in
      if-split IsLive (str_eq live "" || same_video video (some ctx.cursor.video_id)) _ _ (λ q. v)
        (λ q.
          if-split IsLive (in_playlist ctx video (object_of ctx t)) _ _
            (λ r. Same-IsLive (pull_tab_back-Same now ctx.session t) v)
            (λ r. Same-IsLive (recheck-Same t) v))

  pub reconnect-IsLive : (t : Tab N) → IsLive t → IsLive (reconnect t)
  unfolding reconnect reset_connection_state
  reconnect-IsLive t v = Option-split IsLive t.session t _ v (λ id e. record {
    backed =
        Backed-current t.session t.objects id _ t.reload_timer t.request_timer e
          (let c = current t id v e in (c.0, λ a. refl, λ a b d. cc));
  })

  pub identity-IsLive :
      (now frame : ℕ) (adapter : String) (i : ContentIdentity) (page_url : String) (t : Tab N)
      → IsLive t
      → IsLive (route_identity now frame adapter i page_url true t)
  unfolding route_identity
  identity-IsLive now frame adapter i page_url t v =
      Same-IsLive (still refl refl) (end_reload-IsLive now i _ (Same-IsLive (still refl refl) v))

module _ {N : Type 0} ⦃n : Number N⦄ where
  pub receive-IsLive :
      (now id : ℕ) (f : InboundFrame N) (t : Tab N)
      → IsLive t
      → t.session ≡ some id
      → IsLive (receive now id f t)
  unfolding receive apply_room_state apply_state apply_cursor_change apply_sync_adjust
      apply_playlist_update
  receive-IsLive now id (room_state f) t v e =
      let c = current t id v e in
      let p = apply_room_state (t.objects id) f in
      deliver-IsLive now id p.0 p.1 t v e (weaken _ _ _ c) (λ q. c)
  receive-IsLive now id (state f) t v e =
      let c = current t id v e in
      let p = apply_state (t.objects id) f in
      deliver-IsLive now id p.0 p.1 t v e (weaken _ _ _ c) (λ q. c)
  receive-IsLive now id (cursor_change f) t v e =
      let c = current t id v e in
      let p = apply_cursor_change (reset_convergence (t.objects id)) f in
      deliver-IsLive now id p.0 p.1 t v e (c.0, λ a. refl, λ a b d. refl) (λ q. no_commands _ _ q)
  receive-IsLive now id (playlist_update f) t v e =
      Same-IsLive (assign-Same id (apply_playlist_update (t.objects id) f).0 t refl) v
  receive-IsLive now id (sync_adjust f) t v e =
      let c = current t id v e in
      let p = apply_sync_adjust (t.objects id) f in
      deliver-IsLive now id p.0 p.1 t v e (weaken _ _ _ c) (λ q. c)
  receive-IsLive now id (clock_pong f) t v e =
      Same-IsLive
        (assign-Same id
          (apply_clock_pong (t.objects id) f.client_send_time f.server_recv_time f.server_send_time
            (n.lit now))
          t refl)
        v
  receive-IsLive now id (notice f) t v e = Same-IsLive (still refl refl) v
  receive-IsLive now id (error f) t v e = v

  pub connect_with-IsLive :
      (pooled : Bool) (creds : Creds) (t : Tab N) → IsLive t → IsLive (connect_with pooled creds t)
  unfolding connect_with create_session
  connect_with-IsLive true creds t v = v
  connect_with-IsLive false creds t v = record {
    backed =
        Backed-current (some t.fresh) t.objects t.fresh _ t.reload_timer t.request_timer refl
          (λ a. cc, λ a. refl, λ a b d. cc);
  }

  creds_loaded-IsLive :
      (pooled : Bool) (stored : Option Creds) (t : Tab N)
      → IsLive t
      → IsLive (creds_loaded pooled stored t)
  unfolding creds_loaded
  creds_loaded-IsLive pooled none t v = v
  creds_loaded-IsLive pooled (some creds) t v = connect_with-IsLive pooled creds t v

  pushed-IsLive : (b : Bool) (t : Tab N) → IsLive t → IsLive (pushed b t)
  unfolding push_room_active
  pushed-IsLive true t v = Same-IsLive (still refl refl) v
  pushed-IsLive false t v = v

  resumed-IsLive :
      (parse : String → Option Url) (a : Answer) (task : Task) (t : Tab N)
      → IsLive t
      → IsLive (resumed parse a task t)
  unfolding resumed
  resumed-IsLive parse a (routing ctx) t v = route_resumed-IsLive parse a.now ctx a.live t v
  resumed-IsLive parse a (reconciling ctx) t v = reconcile_resumed-IsLive parse a.now ctx a.live t v
  resumed-IsLive parse a (rechecking ctx) t v = recheck_resumed-IsLive parse ctx a.live t v
  resumed-IsLive parse a (loading push) t v =
      pushed-IsLive push _ (creds_loaded-IsLive a.pooled a.stored t v)
  resumed-IsLive parse a (saving url password) t v = connect_with-IsLive a.pooled _ t v
  resumed-IsLive parse a tearing_down t v = record { backed = tt }
  resumed-IsLive parse a failing t v = record { backed = tt }

  pub resume_task-IsLive :
      (parse : String → Option Url) (k : ℕ) (a : Answer) (t : Tab N)
      → IsLive t
      → IsLive (resume_task parse k a t)
  unfolding resume_task
  resume_task-IsLive parse k a t v =
      Option-split IsLive (get_elem? t.tasks k) t _ v
        (λ task e. resumed-IsLive parse a task _ (Same-IsLive (still refl refl) v))
