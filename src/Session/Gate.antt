-- ===== src/Session/Gate.antt =====
-- The convergence gate: what holds of the flags `converged`, `everConverged`, `settleUntil` and
-- `awaitingReload` of extension/src/background/session.ts after any operations.
use playback_sync.Base.{
  ◌≤◌, true, false, ◌≡◌, ◌≢◌, refl, none, List, [], ◌∷◌, arith, All, length, length-append, ◌++◌,
  ◌-◌,
}
use playback_sync.Number.{Number}
use playback_sync.Session.{SessionState, create_session}
use playback_sync.Session.Clock.{shift, push_sample, round_trip_time}
use playback_sync.Session.Ops.{Op, clock_pong, reconnect, end_reload, begin_reload, apply, run}

length-shift {ℓ} : {A : Type ℓ} (xs : List A) → length (shift xs) ≡ length xs - 1
length-shift [] = refl
length-shift (x ∷ xs) = omega arith

length-push_sample {ℓ} :
    {A : Type ℓ} (x : A) (xs : List A) → length xs ≤ 8 → length (push_sample x xs) ≤ 8
length-push_sample x xs h = ground (arith, length-append xs (x ∷ []), length-shift (xs ++ x ∷ []))

module _ {N : Type 0} where
  pub record IsGated (s : SessionState N) : Type 0 where
    pub latched : s.converged ≡ true → s.ever_converged ≡ true
    pub settling : s.converged ≡ false → s.settle_until ≡ none
    pub held : s.awaiting_reload ≡ true → s.converged ≡ false
    pub sampled : length s.rtt_samples_ms ≤ 8

module _ {N : Type 0} ⦃n : Number N⦄ where
  create_session-IsGated : IsGated {N = N} create_session
  unfolding create_session
  create_session-IsGated = ground arith

  apply-IsGated : (s : SessionState N) (o : Op N) → IsGated s → IsGated (apply s o)
  unfolding apply
  apply-IsGated s (clock_pong t1 t2 t3 t4) g =
      let kept = length-push_sample (round_trip_time t1 t2 t3 t4) s.rtt_samples_ms g.sampled in
      record { latched = g.latched; settling = g.settling; held = g.held; sampled = kept }
  apply-IsGated s _ g = ground arith

  run-IsGated_from : (s : SessionState N) (os : List (Op N)) → IsGated s → IsGated (run s os)
  unfolding run
  run-IsGated_from s [] g = g
  run-IsGated_from s (o ∷ os) g = run-IsGated_from (apply s o) os (apply-IsGated s o g)

  -- After any operations on a fresh session: a converged tab has its latch set, an unconverged one
  -- has no settle window, a tab that waits for a reload is unconverged, and at most eight round-trip
  -- samples are kept.
  pub run-IsGated : (os : List (Op N)) → IsGated {N = N} (run create_session os)
  run-IsGated os = run-IsGated_from create_session os create_session-IsGated

  apply_latched :
      (s : SessionState N) (o : Op N)
      → o ≢ reconnect
      → s.ever_converged ≡ true
      → (apply s o).ever_converged ≡ true
  unfolding apply
  apply_latched s reconnect h e = absurd (h refl)
  apply_latched s _ h e = ground arith

  -- Once set, `everConverged` stays set through any operations but a reconnect.
  run_latched :
      (s : SessionState N) (os : List (Op N))
      → All (λ o. o ≢ reconnect) os
      → s.ever_converged ≡ true
      → (run s os).ever_converged ≡ true
  unfolding run
  run_latched s [] h e = e
  run_latched s (o ∷ os) (h, hs) e = run_latched (apply s o) os hs (apply_latched s o h e)

  abbrev pub IsEnd : Op N → Type 0
  IsEnd (end_reload now) = Unit
  IsEnd _ = ⊥

  apply_held :
      (s : SessionState N) (o : Op N)
      → ¬ IsEnd o
      → s.awaiting_reload ≡ true
      → s.converged ≡ false
      → ((apply s o).awaiting_reload ≡ true) × ((apply s o).converged ≡ false)
  unfolding apply
  apply_held s (end_reload now) h a c = absurd (h tt)
  apply_held s _ h a c = ground arith

  -- From the start of a guard reload to its end nothing converges the tab: neither server frames nor
  -- timers that mark it.
  pub run_held :
      (s : SessionState N) (os : List (Op N))
      → All (λ o. ¬ IsEnd o) os
      → (run s (begin_reload ∷ os)).converged ≡ false
  unfolding run
  run_held s os h = go (apply s begin_reload) os h (unfold apply in refl) (unfold apply in refl)
    where
      go :
          (t : SessionState N) (ps : List (Op N))
          → All (λ o. ¬ IsEnd o) ps
          → t.awaiting_reload ≡ true
          → t.converged ≡ false
          → (run t ps).converged ≡ false
      go t [] k a c = c
      go t (p ∷ ps) (k, ks) a c = let (a', c') = apply_held t p k a c in go (apply t p) ps ks a' c'
