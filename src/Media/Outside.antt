-- ===== src/Media/Outside.antt =====
-- What the media frame of a tab does outside a room: extension/src/adapters/media/runtime.ts.
use playback_sync.Base.{
  ℕ, Bool, true, false, not, ◌≡◌, refl, ap, Option, none, some, List, [], ◌∷◌, String, arith,
  if-split, Option-split, if◌then◌else◌, ◌||◌,
}
use playback_sync.Number.{Number}
use playback_sync.Messages.{
  AuthoritativeCommand, VideoState, play, pause, seek, nudge_rate, cursor_change,
}
use playback_sync.Media.{
  same, Media, idle, active, destroy, emit, nudge_dead_band_s, stop_status_polling, new_media,
  settle, poll_due, evaluate, init_resolved, fail, on_command, cancel_nudge, apply_nudge_rate,
  nudge_due, deliver_to, deliver_command, teardown, set_room_active, on_in_frame_source_change,
}
use playback_sync.Media.Runs.{
  Event, room, command, source_change, resolved, rejected, registered, gave_up, observed, claimed,
  nudge_timer, status_timer, step, run,
}
use playback_sync.Media.Gates.{
  is_active, is_none, or_true, none_of, by_state, is_gated, driven, gated-evaluate,
  gated-init_resolved, gated-on_command, Keeps, Keeps-gated, followed, hand-Keeps, poll_due-Keeps,
}

module _ {N : Type 0} ⦃n : Number N⦄ where
  cancel_nudge-Keeps : (a : ℕ) (m : Media N) → Keeps m (cancel_nudge a m)
  unfolding cancel_nudge
  cancel_nudge-Keeps a m =
      Option-split (Keeps m) m.nudge_timer m _
        (record { room_active = refl; state = refl; polling = refl })
        (λ b e. record { room_active = refl; state = refl; polling = refl })

  nudge_due-Keeps : (m : Media N) → Keeps m (nudge_due m)
  unfolding nudge_due
  nudge_due-Keeps m =
      Option-split (Keeps m) m.nudge_timer m _
        (record { room_active = refl; state = refl; polling = refl })
        (λ b e. record { room_active = refl; state = refl; polling = refl })

  apply_nudge_rate-Keeps :
      (a : ℕ) (target : N) (s : Option (VideoState N)) (throws : Bool) (m : Media N)
      → Keeps m (apply_nudge_rate a target s throws m)
  unfolding apply_nudge_rate
  apply_nudge_rate-Keeps a target none throws m = cancel_nudge-Keeps a m
  apply_nudge_rate-Keeps a target (some s) throws m =
      if-split (Keeps m) (n.gt nudge_dead_band_s (n.abs (n.sub target s.current_pos)) || throws) _ _
        (λ q. cancel_nudge-Keeps a m)
        (λ q.
          let k = cancel_nudge-Keeps a m in
          record { room_active = k.room_active; state = k.state; polling = k.polling })

  deliver_to-Keeps :
      (a : ℕ) (handler : Option ℕ) (c : AuthoritativeCommand N) (s : Option (VideoState N))
      (throws : Bool) (m : Media N)
      → Keeps m (deliver_to a handler c s throws m)
  unfolding deliver_to
  deliver_to-Keeps a handler (nudge_rate target) s throws m =
      apply_nudge_rate-Keeps a target s throws m
  deliver_to-Keeps a handler (cursor_change url) s throws m =
      hand-Keeps handler (cursor_change url) m
  deliver_to-Keeps a handler play s throws m =
      followed (cancel_nudge-Keeps a m) (hand-Keeps handler play (cancel_nudge a m))
  deliver_to-Keeps a handler pause s throws m =
      followed (cancel_nudge-Keeps a m) (hand-Keeps handler pause (cancel_nudge a m))
  deliver_to-Keeps a handler (seek t) s throws m =
      followed (cancel_nudge-Keeps a m) (hand-Keeps handler (seek t) (cancel_nudge a m))

  gated-deliver_command :
      (c : AuthoritativeCommand N) (s : Option (VideoState N)) (throws : Bool) (m : Media N)
      → is_gated m ≡ true
      → is_gated (deliver_command c s throws m) ≡ true
  unfolding deliver_command
  gated-deliver_command c s throws m h =
      by_state (λ (u : Media N). is_gated u ≡ true) m.state m (λ a f. deliver_to a f c s throws m) h
        (λ a f e. Keeps-gated (deliver_to-Keeps a f c s throws m) h)

  gated-teardown : (m : Media N) → is_gated (teardown m) ≡ true
  unfolding teardown stop_status_polling
  gated-teardown m =
      by_state (λ u. is_gated (record u { state = idle; pending_handler = none }) ≡ true) m.state
        (record m { polling = none })
        (λ a f. emit (destroy a) (cancel_nudge a (record m { polling = none })))
        (or_true m.room_active)
        (λ a f e.
          rw
            (
              (cancel_nudge-Keeps a (record m { polling = none })).room_active,
              (cancel_nudge-Keeps a (record m { polling = none })).polling,
            )
            (or_true m.room_active))

  gated-fail : (reason : String) (m : Media N) → is_gated m ≡ true → is_gated (fail reason m) ≡ true
  unfolding fail
  gated-fail reason m h = ground arith

  module _ (matches : Bool) where
    gated-step :
        (m : Media N) (e : Event N) → is_gated m ≡ true → is_gated (step matches m e) ≡ true
    unfolding step set_room_active on_in_frame_source_change
    gated-step m (room on) h =
        if-split (λ (u : Media N). is_gated u ≡ true) (same on m.room_active) _ _ (λ q. h)
          (λ q.
            if-split (λ (u : Media N). is_gated u ≡ true) on _ _
              (λ r. gated-evaluate matches (record m { room_active = true }) refl)
              (λ r. gated-teardown (record m { room_active = false })))
    gated-step m (command c s throws) h = gated-deliver_command c s throws m h
    gated-step m (source_change at_video) h =
        by_state (λ (u : Media N). is_gated u ≡ true) m.state m
          (λ a f. if at_video then evaluate matches (teardown m) else m) h
          (λ a f e.
            if-split (λ (u : Media N). is_gated u ≡ true) at_video _ _
              (λ q. gated-evaluate matches (teardown m) (gated-teardown m)) (λ q. h))
    gated-step m (resolved a) h =
        if-split (λ (u : Media N). is_gated u ≡ true) (m.inits a) _ _
          (λ q. gated-init_resolved a m h) (λ q. h)
    gated-step m (rejected a reason) h =
        if-split (λ (u : Media N). is_gated u ≡ true) (m.inits a) _ _
          (λ q. gated-fail reason (settle a m) h) (λ q. h)
    gated-step m (registered a) h = gated-on_command a m h
    gated-step m (gave_up reason) h = gated-fail reason m h
    gated-step m (observed intent) h = h
    gated-step m claimed h = h
    gated-step m nudge_timer h = Keeps-gated (nudge_due-Keeps m) h
    gated-step m (status_timer s) h = Keeps-gated (poll_due-Keeps s m) h

    pub gated-run :
        (m : Media N) (es : List (Event N)) → is_gated m ≡ true → is_gated (run matches m es) ≡ true
    unfolding run
    gated-run m [] h = h
    gated-run m (e ∷ es) h = gated-run (step matches m e) es (gated-step m e h)

    -- Outside a room no adapter is active and none is sampled.
    inactive : (m : Media N) → is_gated m ≡ true → m.room_active ≡ false → is_active m.state ≡ false
    inactive m h o = ground arith

    polled : (m : Media N) → is_gated m ≡ true → m.room_active ≡ false → is_none m.polling ≡ true
    polled m h o = ground arith

    absurd_active :
        {P : Type 0} (m : Media N) (a : ℕ) (f : Option ℕ)
        → is_gated m ≡ true
        → m.room_active ≡ false
        → m.state ≡ active a f
        → P
    absurd_active m a f h o e = cc (inactive m h o, ap is_active e)

    unsampled : (m : Media N) → is_gated m ≡ true → m.room_active ≡ false → m.polling ≡ none
    unsampled m h o = none_of m.polling (polled m h o)

    driven-evaluate : (m : Media N) → driven (evaluate matches m).out ≡ driven m.out
    unfolding evaluate
    driven-evaluate m =
        if-split (λ (u : Media N). driven u.out ≡ driven m.out) (not m.room_active) m _ (λ q. refl)
          (λ q.
            if-split (λ (u : Media N). driven u.out ≡ driven m.out) matches _ _ (λ r. refl)
              (λ r. refl))

    driven-init_resolved :
        (a : ℕ) (m : Media N)
        → m.room_active ≡ false
        → driven (init_resolved a m).out ≡ driven m.out
    unfolding init_resolved
    driven-init_resolved a m o =
        if-split (λ (u : Media N). driven u.out ≡ driven m.out) (not m.room_active) _ _ (λ q. refl)
          (λ q. cc (ap not o))

    driven-step :
        (m : Media N) (e : Event N)
        → is_gated m ≡ true
        → m.room_active ≡ false
        → driven (step matches m e).out ≡ driven m.out
    unfolding step set_room_active deliver_command on_in_frame_source_change
    driven-step m (room true) h o =
        if-split (λ (u : Media N). driven u.out ≡ driven m.out) m.room_active m _ (λ q. refl)
          (λ q. driven-evaluate (record m { room_active = true }))
    driven-step m (room false) h o =
        if-split (λ (u : Media N). driven u.out ≡ driven m.out) (not m.room_active) m _ (λ q. refl)
          (λ q. cc (ap not o))
    driven-step m (command c s throws) h o =
        by_state (λ (u : Media N). driven u.out ≡ driven m.out) m.state m
          (λ a f. deliver_to a f c s throws m) refl (λ a f e. absurd_active m a f h o e)
    driven-step m (source_change at_video) h o =
        by_state (λ (u : Media N). driven u.out ≡ driven m.out) m.state m
          (λ a f. if at_video then evaluate matches (teardown m) else m) refl
          (λ a f e. absurd_active m a f h o e)
    driven-step m (resolved a) h o =
        if-split (λ (u : Media N). driven u.out ≡ driven m.out) (m.inits a) _ m
          (λ q. driven-init_resolved a (settle a m) o) (λ q. refl)
    driven-step m (rejected a reason) h o =
        unfold fail in
        if-split (λ (u : Media N). driven u.out ≡ driven m.out) (m.inits a) _ m (λ q. refl)
          (λ q. refl)
    driven-step m (registered a) h o = unfold on_command in refl
    driven-step m (gave_up reason) h o = unfold fail in refl
    driven-step m (observed intent) h o = refl
    driven-step m claimed h o = refl
    driven-step m nudge_timer h o =
        unfold nudge_due in
        Option-split (λ (u : Media N). driven u.out ≡ driven m.out) m.nudge_timer m _ refl
          (λ a e. refl)
    driven-step m (status_timer s) h o = unfold poll_due in rw (unsampled m h o) refl

    -- Outside a room the media frame is passive, whatever it has seen: no event hands a command to an
    -- adapter, starts a nudge, or reports an activation or a state to the background.
    pub run_outside :
        (es : List (Event N)) (e : Event N)
        → (run matches new_media es).room_active ≡ false
        → driven (step matches (run matches new_media es) e).out
          ≡ driven (run matches new_media es).out
    unfolding new_media
    run_outside es e o = driven-step (run matches new_media es) e (gated-run new_media es refl) o
