-- ===== src/Media/Nudges.antt =====
-- Nudges of the playback rate in a run of extension/src/adapters/media/runtime.ts.
use playback_sync.Base.{
  ℕ, Bool, true, false, not, ◌≡◌, inl, inr, refl, ◌∙◌, sym, ap, subst, Option, none, some, List, [],
  ◌∷◌, if-split, Option-split, if◌then◌else◌, ◌||◌,
}
use playback_sync.Number.{Number}
use playback_sync.Messages.{
  AuthoritativeCommand, VideoState, play, pause, seek, nudge_rate, cursor_change,
}
use playback_sync.Media.{
  Media, idle, destroy, emit, settle, sampled, poll_due, evaluate, is_failed, init_resolved, hand,
  cancel_nudge, nudge_dead_band_s, apply_nudge_rate, nudge_due, deliver_to, deliver_command,
  nudged_rate, same, teardown, set_room_active, on_in_frame_source_change, stop_status_polling,
  fail, on_command, start_status_polling,
}
use playback_sync.Media.Runs.{
  Event, room, command, source_change, resolved, rejected, registered, gave_up, observed, claimed,
  nudge_timer, status_timer, step, run,
}
use playback_sync.Media.Gates.{by_state}
use playback_sync.Media.Rates.{
  current, current-adopt, greeted, rate_of, IsRated, rested, settled, started, restored, slowed,
  activated,
}

module _ {N : Type 0} ⦃n : Number N⦄ where
  abbrev pub IsFair : Media N → Type 0
  IsFair m =
      IsRated (λ b. greeted b m.out) (λ b. rate_of b m.out) m.inits m.fresh (current m.state)
        m.nudge_timer

  readopted :
      {seen : ℕ → Bool} {rate : ℕ → N} {inits : ℕ → Bool} {fresh : ℕ} {now now' timer : Option ℕ}
      → IsRated seen rate inits fresh now timer
      → now' ≡ now
      → IsRated seen rate inits fresh now' timer
  readopted {seen} {rate} {inits} {fresh} {timer = timer} r e =
      subst (λ o. IsRated seen rate inits fresh o timer) (sym e) r

  cancel_nudge-IsFair :
      (a : ℕ) (m : Media N) → current m.state ≡ some a → IsFair m → IsFair (cancel_nudge a m)
  unfolding cancel_nudge
  cancel_nudge-IsFair a m e r =
      Option-split IsFair m.nudge_timer m _ r (λ b q. restored r a (λ c k. inl cc))

  nudge_due-IsFair : (m : Media N) → IsFair m → IsFair (nudge_due m)
  unfolding nudge_due
  nudge_due-IsFair m r =
      Option-split IsFair m.nudge_timer m _ r
        (λ b q. restored r b (λ c k. elim (r.nudged c k) [ inl e ↦ inr e | inr e ↦ inl cc ]))

  hand-IsFair :
      (h : Option ℕ) (c : AuthoritativeCommand N) (m : Media N) → IsFair m → IsFair (hand h c m)
  unfolding hand
  hand-IsFair none c m r = r
  hand-IsFair (some a) c m r = r

  sampled-IsFair : (s : Option (VideoState N)) (m : Media N) → IsFair m → IsFair (sampled s m)
  sampled-IsFair none m r = r
  sampled-IsFair (some s) m r = r

  poll_due-IsFair : (s : Option (VideoState N)) (m : Media N) → IsFair m → IsFair (poll_due s m)
  unfolding poll_due
  poll_due-IsFair s m r =
      Option-split IsFair m.polling m (λ a. sampled s m) r (λ a e. sampled-IsFair s m r)

  evaluate-IsFair : (matches : Bool) (m : Media N) → IsFair m → IsFair (evaluate matches m)
  unfolding evaluate
  evaluate-IsFair matches m r =
      if-split IsFair (not m.room_active) m _ (λ q. r)
        (λ q. if-split IsFair matches _ _ (λ s. started r) (λ s. rested r))

  init_resolved-IsFair :
      (a : ℕ) (m : Media N) → m.inits a ≡ true → IsFair m → IsFair (init_resolved a (settle a m))
  unfolding init_resolved
  init_resolved-IsFair a m e r =
      if-split IsFair (not m.room_active) _ _ (λ q. rested (settled r a))
        (λ q.
          if-split IsFair (is_failed m.state) (settle a m) _ (λ s. settled r a)
            (λ s. unfold start_status_polling in activated r a e))

  current-cancel_nudge : (a : ℕ) (m : Media N) → (cancel_nudge a m).state ≡ m.state
  unfolding cancel_nudge
  current-cancel_nudge a m =
      Option-split (λ (u : Media N). u.state ≡ m.state) m.nudge_timer m _ refl (λ b q. refl)

  apply_nudge_rate-IsFair :
      (a : ℕ) (target : N) (s : Option (VideoState N)) (throws : Bool) (m : Media N)
      → current m.state ≡ some a
      → IsFair m
      → IsFair (apply_nudge_rate a target s throws m)
  unfolding apply_nudge_rate
  apply_nudge_rate-IsFair a target none throws m e r = cancel_nudge-IsFair a m e r
  apply_nudge_rate-IsFair a target (some s) throws m e r =
      let u = cancel_nudge a m in
      let kept = cancel_nudge-IsFair a m e r in
      if-split IsFair (n.gt nudge_dead_band_s (n.abs (n.sub target s.current_pos)) || throws) u _
        (λ q. kept)
        (λ q.
          slowed kept a (nudged_rate (n.sub target s.current_pos))
            (ap current (current-cancel_nudge a m) ∙ e))

  deliver_to-IsFair :
      (a : ℕ) (h : Option ℕ) (c : AuthoritativeCommand N) (s : Option (VideoState N))
      (throws : Bool) (m : Media N)
      → current m.state ≡ some a
      → IsFair m
      → IsFair (deliver_to a h c s throws m)
  unfolding deliver_to
  deliver_to-IsFair a h (nudge_rate target) s throws m e r =
      apply_nudge_rate-IsFair a target s throws m e r
  deliver_to-IsFair a h (cursor_change url) s throws m e r = hand-IsFair h (cursor_change url) m r
  deliver_to-IsFair a h play s throws m e r =
      hand-IsFair h play (cancel_nudge a m) (cancel_nudge-IsFair a m e r)
  deliver_to-IsFair a h pause s throws m e r =
      hand-IsFair h pause (cancel_nudge a m) (cancel_nudge-IsFair a m e r)
  deliver_to-IsFair a h (seek t) s throws m e r =
      hand-IsFair h (seek t) (cancel_nudge a m) (cancel_nudge-IsFair a m e r)

  pub teardown-IsFair : (m : Media N) → IsFair m → IsFair (teardown m)
  unfolding teardown stop_status_polling
  teardown-IsFair m r =
      by_state (λ (u : Media N). IsFair (record u { state = idle; pending_handler = none })) m.state
        (record m { polling = none })
        (λ a h. emit (destroy a) (cancel_nudge a (record m { polling = none }))) (rested r)
        (λ a h e. rested (cancel_nudge-IsFair a (record m { polling = none }) (ap current e) r))

  module _ (matches : Bool) where
    step-IsFair : (m : Media N) (e : Event N) → IsFair m → IsFair (step matches m e)
    unfolding step set_room_active on_in_frame_source_change deliver_command
    step-IsFair m (room on) r =
        if-split IsFair (same on m.room_active) m _ (λ q. r)
          (λ q.
            if-split IsFair on _ _
              (λ s. evaluate-IsFair matches (record m { room_active = true }) r)
              (λ s. teardown-IsFair (record m { room_active = false }) r))
    step-IsFair m (command c s throws) r =
        by_state IsFair m.state m (λ a h. deliver_to a h c s throws m) r
          (λ a h e. deliver_to-IsFair a h c s throws m (ap current e) r)
    step-IsFair m (source_change at_video) r =
        by_state IsFair m.state m (λ a h. if at_video then evaluate matches (teardown m) else m) r
          (λ a h e.
            if-split IsFair at_video _ m
              (λ q. evaluate-IsFair matches (teardown m) (teardown-IsFair m r)) (λ q. r))
    step-IsFair m (resolved a) r =
        if-split IsFair (m.inits a) _ m (λ q. init_resolved-IsFair a m q r) (λ q. r)
    step-IsFair m (rejected a reason) r =
        unfold fail in if-split IsFair (m.inits a) _ m (λ q. rested (settled r a)) (λ q. r)
    step-IsFair m (registered a) r = unfold on_command in readopted r (current-adopt a m.state)
    step-IsFair m (gave_up reason) r = unfold fail in rested r
    step-IsFair m (observed intent) r = r
    step-IsFair m claimed r = r
    step-IsFair m nudge_timer r = nudge_due-IsFair m r
    step-IsFair m (status_timer s) r = poll_due-IsFair s m r

    pub run-IsFair : (m : Media N) (es : List (Event N)) → IsFair m → IsFair (run matches m es)
    unfolding run
    run-IsFair m [] r = r
    run-IsFair m (e ∷ es) r = run-IsFair (step matches m e) es (step-IsFair m e r)
