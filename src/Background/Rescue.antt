-- ===== src/Background/Rescue.antt =====
-- The fallback timers of extension/entrypoints/background.ts over the whole life of a tab: whatever
-- happens, a tab that has been in step with its room gets back into it.
use playback_sync.Base.{
  ℕ, Bool, true, false, ◌≡◌, refl, sym, subst, Option, some, List, [], ◌∷◌, String, arith,
  Option-split, Option-split_eq, if-split, if◌then◌else◌, All, ==-refl,
}
use playback_sync.Number.{Number}
use playback_sync.Session.{SessionState, mark_converged, clear_pending_cursor_target}
use playback_sync.Session.Ops.{end_guard_reload}
use playback_sync.Urls.{Url}
use playback_sync.Background.{Tab, new_tab, mutate}
use playback_sync.Background.Dispatch.{push_room_active}
use playback_sync.Background.Guard.{reload_due, request_due, give_up_request}
use playback_sync.Background.Routes.{
  route_catalog, handle_credentials, leave_room, tab_removed, tear_down, ensure_connected,
}
use playback_sync.Background.Runs.{
  Event, content_ready, intent, status, media_owner, media_hello, identity, catalog, cursor_trigger,
  fail, credentials, leave, removed, navigated, booted, received, reconnecting, terminal, rejected,
  nav_timer, reload_timer, request_timer, reconcile_timer, resync_timer, resume, receive,
  receive_any, step, run,
}
use playback_sync.Background.Gist.{still}
use playback_sync.Background.Steady.{
  nav_due-Same, command_rejected-Same, reconcile_tick-Same, route_status-Same,
  handle_cursor_trigger-Same, route_fail-Same, url_changed-Same, ensure_connected-Same,
  resync_due-Same, media_frame-Same, gist-route_intent, route_media_hello-Same,
}
use playback_sync.Background.Unstuck.{
  IsBacked, IsLive, Same-IsLive, HasGist-IsLive, current, reload_due-IsLive, request_due-IsLive,
}
use playback_sync.Background.Fallback.{
  receive-IsLive, connect_with-IsLive, resume_task-IsLive, reconnect-IsLive, identity-IsLive,
}

-- No adapter without the navigation guard reports an identity.
abbrev pub IsOptIn : {N : Type 0} → Event N → Type 0
IsOptIn (identity now frame adapter_id i page_url guard) = guard ≡ true
IsOptIn _ = Unit

not_awaiting :
    (a c e r q : Bool)
    → IsBacked (record { awaiting = a; converged = c; ever = e }) r q
    → r ≡ false
    → a ≡ false
not_awaiting a c e r q v h = ground arith

in_step :
    (a c e r q : Bool)
    → IsBacked (record { awaiting = a; converged = c; ever = e }) r q
    → a ≡ false
    → e ≡ true
    → q ≡ false
    → c ≡ true
in_step a c e r q v h k l = ground arith

module _ {N : Type 0} ⦃n : Number N⦄ (parse : String → Option Url) where
  step-IsLive : (t : Tab N) (e : Event N) → IsOptIn e → IsLive t → IsLive (step parse t e)
  unfolding step
  step-IsLive t (content_ready pooled) o v =
      if-split IsLive pooled (push_room_active t) (ensure_connected pooled true t)
        (λ q. unfold push_room_active in Same-IsLive (still refl refl) v)
        (λ q. Same-IsLive (ensure_connected-Same pooled true t) v)
  step-IsLive t (intent now frame i) o v = HasGist-IsLive (gist-route_intent now frame i t) v
  step-IsLive t (status now frame pooled adapter s) o v =
      Same-IsLive (route_status-Same now frame pooled adapter s t) v
  step-IsLive t (media_owner frame) o v = Same-IsLive (media_frame-Same frame t) v
  step-IsLive t (media_hello now frame pooled) o v =
      Same-IsLive (route_media_hello-Same now frame pooled t) v
  step-IsLive t (identity now frame adapter i page_url guard) o v =
      rw o (identity-IsLive now frame adapter i page_url t v)
  step-IsLive t (catalog entries) o v = unfold route_catalog in Same-IsLive (still refl refl) v
  step-IsLive t (cursor_trigger now target) o v =
      Same-IsLive (handle_cursor_trigger-Same now target t) v
  step-IsLive t (fail media frame) o v = Same-IsLive (route_fail-Same media frame t) v
  step-IsLive t (credentials url password) o v =
      unfold handle_credentials in Same-IsLive (still refl refl) v
  step-IsLive t leave o v = unfold leave_room in Same-IsLive (still refl refl) v
  step-IsLive t removed o v = unfold tab_removed in record { backed = tt }
  step-IsLive t (navigated url) o v = Same-IsLive (url_changed-Same parse url t) v
  step-IsLive t (booted pooled creds) o v = connect_with-IsLive pooled creds t v
  step-IsLive t (received now f) o v =
      unfold receive_any in
      Option-split IsLive t.session t (λ id. receive now id f t) v
        (λ id e. receive-IsLive now id f t v e)
  step-IsLive t reconnecting o v = reconnect-IsLive t v
  step-IsLive t terminal o v = unfold tear_down in Same-IsLive (still refl refl) v
  step-IsLive t (rejected cmd target) o v = Same-IsLive (command_rejected-Same cmd target t) v
  step-IsLive t nav_timer o v =
      if-split IsLive t.nav_timer _ t (λ q. Same-IsLive (nav_due-Same t) v) (λ q. v)
  step-IsLive t (reload_timer now) o v =
      if-split IsLive t.reload_timer _ t (λ q. reload_due-IsLive now t v) (λ q. v)
  step-IsLive t (request_timer now) o v =
      if-split IsLive t.request_timer _ t (λ q. request_due-IsLive now t v) (λ q. v)
  step-IsLive t (reconcile_timer now) o v =
      if-split IsLive t.reconcile_timer _ t (λ q. Same-IsLive (reconcile_tick-Same now t) v)
        (λ q. v)
  step-IsLive t (resync_timer now) o v = Same-IsLive (resync_due-Same now t) v
  step-IsLive t (resume k a) o v = resume_task-IsLive parse k a t v

  run-IsLive_from :
      (t : Tab N) (es : List (Event N)) → All IsOptIn es → IsLive t → IsLive (run parse t es)
  unfolding run
  run-IsLive_from t [] o v = v
  run-IsLive_from t (e ∷ es) (o, os) v =
      run-IsLive_from (step parse t e) es os (step-IsLive t e o v)

  pub run-IsLive :
      (k : ℕ) (es : List (Event N)) → All IsOptIn es → IsLive (run parse (new_tab k) es)
  run-IsLive k es o = run-IsLive_from (new_tab k) es o (unfold new_tab in record { backed = tt })

  -- The session of a tab is off its reload wait, and has been in step once.
  abbrev IsFree : ℕ → Tab N → Type 0
  IsFree id t =
      (t.session ≡ some id)
      × ((t.objects id).awaiting_reload ≡ false)
      × ((t.objects id).ever_converged ≡ true)

  free_of :
      (now : ℕ) (s : SessionState N)
      → s.ever_converged ≡ true
      → let s' = if s.awaiting_reload then end_guard_reload now s else s in
        (s'.awaiting_reload ≡ false) × (s'.ever_converged ≡ true)
  unfolding end_guard_reload
  free_of now s e = ground arith

  gave_up :
      (now : ℕ) (s : SessionState N)
      → s.awaiting_reload ≡ false
      → (give_up_request now s).converged ≡ true
  unfolding mark_converged clear_pending_cursor_target
  gave_up now s h = ground arith

  reload_due-IsFree :
      (now id : ℕ) (t : Tab N)
      → t.session ≡ some id
      → (t.objects id).ever_converged ≡ true
      → IsFree id (reload_due now t)
  unfolding reload_due
  reload_due-IsFree now id t e h =
      Option-split_eq (IsFree id) t.session _ _ (λ e0. cc)
        (λ j ej.
          let same : j ≡ id = cc in
          subst
            (λ k. IsFree id (
              mutate k (λ s. if s.awaiting_reload then end_guard_reload now s else s)
                (record t { reload_timer = false })))
            (sym same)
            (let f = free_of now (t.objects id) h in (e, rw (==-refl id) f.0, rw (==-refl id) f.1)))

  reload_timer-IsFree :
      (now id : ℕ) (t : Tab N)
      → IsLive t
      → t.session ≡ some id
      → (t.objects id).ever_converged ≡ true
      → IsFree id (step parse t (reload_timer now))
  unfolding step
  reload_timer-IsFree now id t v e h =
      if-split (IsFree id) t.reload_timer (reload_due now t) t (λ q. reload_due-IsFree now id t e h)
        (λ q. (e, not_awaiting _ _ _ _ _ (current t id v e) q, h))

  request_due-converged :
      (now id : ℕ) (t : Tab N) → IsFree id t → ((request_due now t).objects id).converged ≡ true
  unfolding request_due
  request_due-converged now id t (e, a, h) =
      Option-split_eq (λ (u : Tab N). (u.objects id).converged ≡ true) t.session _ _ (λ e0. cc)
        (λ j ej.
          let same : j ≡ id = cc in
          subst
            (λ k.
              ((mutate k (give_up_request now) (record t { request_timer = false })).objects
                id).converged
              ≡ true)
            (sym same) (rw (==-refl id) (gave_up now (t.objects id) a)))

  request_timer-converged :
      (now id : ℕ) (t : Tab N)
      → IsLive t
      → IsFree id t
      → ((step parse t (request_timer now)).objects id).converged ≡ true
  unfolding step
  request_timer-converged now id t v f =
      if-split (λ (u : Tab N). (u.objects id).converged ≡ true) t.request_timer (request_due now t)
        t (λ q. request_due-converged now id t f)
        (λ q. in_step _ _ _ _ _ (current t id v f.0) f.1 f.2 q)

  -- Whatever events a tab has seen, none of them the identity report of an adapter without the
  -- navigation guard: if its session has ever been in step with the room, then it is in step after
  -- the two fallback timers have had their turn, as far as they are running.
  pub run_rescued :
      (k id now later : ℕ) (es : List (Event N))
      → All IsOptIn es
      → let t = run parse (new_tab k) es in
        t.session ≡ some id
        → (t.objects id).ever_converged ≡ true
        → ((step parse (step parse t (reload_timer now)) (request_timer later)).objects
            id).converged
          ≡ true
  run_rescued k id now later es o e h =
      let t = run parse (new_tab k) es in
      let v = run-IsLive k es o in
      request_timer-converged later id (step parse t (reload_timer now))
        (step-IsLive t (reload_timer now) tt v) (reload_timer-IsFree now id t v e h)
