-- ===== src/Background/Intents.antt =====
-- What a viewer's tab tells its room: the intents that extension/entrypoints/background.ts lets
-- through.
use playback_sync.Base.{
  ℕ, Bool, true, false, ◌≡◌, refl, sym, ◌∙◌, Option, some, List, ◌∷◌, String, ◌⊎◌, inl, inr, arith,
  All, if-split, Option-split, not, ◌||◌,
}
use playback_sync.Number.{Number}
use playback_sync.Messages.{LocalIntent}
use playback_sync.Session.{SessionState, in_settle_window}
use playback_sync.Session.Windows.{should_suppress}
use playback_sync.Urls.{Url}
use playback_sync.Background.{Tab, new_tab}
use playback_sync.Background.Dispatch.{push_room_active, set_media_frame}
use playback_sync.Background.Routes.{
  gate_intent, route_intent, ensure_connected, route_catalog, handle_credentials, leave_room,
  tab_removed, tear_down,
}
use playback_sync.Background.Runs.{
  Event, content_ready, intent, status, media_owner, media_hello, identity, catalog, cursor_trigger,
  fail, credentials, leave, removed, navigated, booted, received, reconnecting, terminal, rejected,
  nav_timer, reload_timer, request_timer, reconcile_timer, resync_timer, resume, step, run,
}
use playback_sync.Background.Gist.{sent, Same}
use playback_sync.Background.Quiet.{
  Quiet, reload_due-Quiet, request_due-Quiet, route_identity-Quiet, reconnect-Quiet,
  receive_any-Quiet, connect_with-Quiet, resume_task-Quiet,
}
use playback_sync.Background.Steady.{
  nav_due-Same, command_rejected-Same, reconcile_tick-Same, route_status-Same,
  handle_cursor_trigger-Same, route_fail-Same, url_changed-Same, ensure_connected-Same,
  resync_due-Same, media_frame-Same, route_media_hello-Same,
}
use playback_sync.Background.Unstuck.{IsBacked, IsLive, current}
use playback_sync.Background.Rescue.{IsOptIn, run-IsLive}

converged_of : (c : Bool) → not c ≡ false → c ≡ true
converged_of c q = ground arith

neither : (a b : Bool) → (a || b) ≡ false → (a ≡ false) × (b ≡ false)
neither a b q = ground arith

unawaited :
    (a c e r q : Bool)
    → IsBacked (record { awaiting = a; converged = c; ever = e }) r q
    → c ≡ true
    → a ≡ false
unawaited a c e r q v h = ground arith

module _ {N : Type 0} ⦃n : Number N⦄ where
  -- The session has converged, its settle window is over and the intent is no echo.
  pub record IsPassed (now : ℕ) (i : LocalIntent N) (s : SessionState N) : Type 0 where
    pub converged : s.converged ≡ true
    pub settled : (in_settle_window now s).0 ≡ false
    pub no_echo : should_suppress now s i ≡ false

  abbrev Sends : ℕ → LocalIntent N → ℕ → Tab N → Tab N → Type 0
  Sends now i id t u =
      (sent u.out ≡ sent t.out) ⊎ (IsPassed now i (t.objects id) × (sent u.out ≡ i ∷ sent t.out))

  pub should_suppress-in_settle_window :
      (now : ℕ) (s : SessionState N) (i : LocalIntent N)
      → should_suppress now (in_settle_window now s).1 i ≡ should_suppress now s i
  unfolding should_suppress in_settle_window
  should_suppress-in_settle_window now s i = ground arith

  gate_intent-Sends :
      (now : ℕ) (i : LocalIntent N) (id : ℕ) (t : Tab N) → Sends now i id t (gate_intent now i id t)
  gate_intent-Sends now i id t =
      let s = t.objects id in
      let w = in_settle_window now s in
      let same = should_suppress-in_settle_window now s i in
      if-split (Sends now i id t) (not s.converged) _ _ (λ q. inl refl)
        (λ q.
          if-split (Sends now i id t) (w.0 || should_suppress now w.1 i) _ _ (λ r. inl refl)
            (λ r. inr (
              record {
                converged = converged_of s.converged q;
                settled = (neither (in_settle_window now s).0 (should_suppress now w.1 i) r).0;
                no_echo =
                    sym same ∙ (neither (in_settle_window now s).0 (should_suppress now w.1 i) r).1;
              },
              refl,
            )))

  -- An intent of a tab that awaits no reload, and that the gate of its session lets through.
  pub record HasPassed (t : Tab N) (e : Event N) (u : Tab N) : Type 0 where
    pub now : ℕ
    pub frame : ℕ
    pub what : LocalIntent N
    pub id : ℕ
    pub is_intent : e ≡ intent now frame what
    pub in_room : t.session ≡ some id
    pub passed : IsPassed now what (t.objects id)
    pub no_reload : (t.objects id).awaiting_reload ≡ false
    pub sends : sent u.out ≡ what ∷ sent t.out

  abbrev Told : Tab N → Event N → Tab N → Type 0
  Told t e u = (sent u.out ≡ sent t.out) ⊎ HasPassed t e u

  same : {t u : Tab N} (e : Event N) → Same t u → Told t e u
  same e s = inl s.quiet

  quiet : {t u : Tab N} (e : Event N) → Quiet t u → Told t e u
  quiet e q = inl q.quiet

  route_intent-Told :
      (now frame : ℕ) (i : LocalIntent N) (t : Tab N)
      → IsLive t
      → Told t (intent now frame i) (route_intent now frame i t)
  unfolding route_intent set_media_frame
  route_intent-Told now frame i t v =
      Option-split (Told t (intent now frame i)) t.session (set_media_frame frame t)
        (λ id. gate_intent now i id (set_media_frame frame t)) (inl refl)
        (λ id e. elim (gate_intent-Sends now i id (set_media_frame frame t)) [
          | inl q ↦ inl q
          | inr (p, q) ↦ inr (record {
            now = now;
            frame = frame;
            what = i;
            id = id;
            is_intent = refl;
            in_room = e;
            passed = p;
            no_reload = unawaited _ _ _ _ _ (current t id v e) p.converged;
            sends = q;
          })
        ])

  module _ (parse : String → Option Url) where
    step-Told : (t : Tab N) (e : Event N) → IsLive t → Told t e (step parse t e)
    unfolding step
    step-Told t (intent now frame i) v = route_intent-Told now frame i t v
    step-Told t (content_ready pooled) v =
        if-split (Told t (content_ready pooled)) pooled (push_room_active t)
          (ensure_connected pooled true t) (λ q. unfold push_room_active in inl refl)
          (λ q. same _ (ensure_connected-Same pooled true t))
    step-Told t (status now frame pooled adapter s) v =
        same _ (route_status-Same now frame pooled adapter s t)
    step-Told t (media_owner frame) v = same _ (media_frame-Same frame t)
    step-Told t (media_hello now frame pooled) v =
        same _ (route_media_hello-Same now frame pooled t)
    step-Told t (identity now frame adapter i page_url guard) v =
        quiet _ (route_identity-Quiet now frame adapter i page_url guard t)
    step-Told t (catalog entries) v = unfold route_catalog in inl refl
    step-Told t (cursor_trigger now target) v = same _ (handle_cursor_trigger-Same now target t)
    step-Told t (fail media frame) v = same _ (route_fail-Same media frame t)
    step-Told t (credentials url password) v = unfold handle_credentials in inl refl
    step-Told t leave v = unfold leave_room in inl refl
    step-Told t removed v = unfold tab_removed in inl refl
    step-Told t (navigated url) v = same _ (url_changed-Same parse url t)
    step-Told t (booted pooled creds) v = quiet _ (connect_with-Quiet pooled creds t)
    step-Told t (received now f) v = quiet _ (receive_any-Quiet now f t)
    step-Told t reconnecting v = quiet _ (reconnect-Quiet t)
    step-Told t terminal v = unfold tear_down in inl refl
    step-Told t (rejected cmd target) v = same _ (command_rejected-Same cmd target t)
    step-Told t nav_timer v =
        if-split (Told t nav_timer) t.nav_timer _ t (λ q. same _ (nav_due-Same t)) (λ q. inl refl)
    step-Told t (reload_timer now) v =
        if-split (Told t (reload_timer now)) t.reload_timer _ t
          (λ q. quiet _ (reload_due-Quiet now t)) (λ q. inl refl)
    step-Told t (request_timer now) v =
        if-split (Told t (request_timer now)) t.request_timer _ t
          (λ q. quiet _ (request_due-Quiet now t)) (λ q. inl refl)
    step-Told t (reconcile_timer now) v =
        if-split (Told t (reconcile_timer now)) t.reconcile_timer _ t
          (λ q. same _ (reconcile_tick-Same now t)) (λ q. inl refl)
    step-Told t (resync_timer now) v = same _ (resync_due-Same now t)
    step-Told t (resume k a) v = quiet _ (resume_task-Quiet parse k a t)

    -- In any run whose identity reports all come from adapters with the navigation guard, an event
    -- either sends nothing to the room, or it is an intent of a tab in a room whose session has
    -- converged and awaits no reload, whose settle window is over, and which is no echo of a
    -- command; then this intent alone is sent.
    pub run_intents :
        (k : ℕ) (es : List (Event N)) (e : Event N)
        → All IsOptIn es
        → let t = run parse (new_tab k) es in
          (sent (step parse t e).out ≡ sent t.out) ⊎ HasPassed t e (step parse t e)
    run_intents k es e o = step-Told (run parse (new_tab k) es) e (run-IsLive parse k es o)
