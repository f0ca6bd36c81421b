-- ===== src/Refresh/Frozen.antt =====
-- A refresh of src/composables/useAutoRefresh.ts that is switched off and on again.
use playback_sync.Base.{
  ℕ, suc, Bool, true, false, not, ◌&&◌, ◌||◌, ◌≡◌, refl, ◌∙◌, Option, List, [], ◌∷◌, String, arith,
  All, if-split, Option-split_eq,
}
use playback_sync.Number.{Number}
use playback_sync.Refresh.{
  Output, called, stored, Refresh, Event, framed, visibility, switched, left, schedule_tick, stop,
  on_visibility_change, tick, store, truthy, enabled_changed, switch, step, run,
}

-- How often the callback was called.
abbrev pub calls : List Output → ℕ
calls [] = 0
calls (called ∷ os) = suc (calls os)
calls (stored k v ∷ os) = calls os

abbrev pub switches_on : {N : Type 0} → Event N → Bool
switches_on (switched value now) = value
switches_on _ = false

module _ {N : Type 0} ⦃n : Number N⦄ where
  -- The progress and the calls are those of the other state.
  abbrev pub SameRing : Refresh N → Refresh N → Type 0
  SameRing s t = s.progress ≡ t.progress × calls s.out ≡ calls t.out

  ring_trans : (r s t : Refresh N) → SameRing r s → SameRing s t → SameRing r t
  ring_trans r s t (p, c) (q, d) = (p ∙ q, c ∙ d)

  module _ (interval_ms : N) (storage_key : Option String) where
    step_frozen :
        (s : Refresh N) (e : Event N)
        → s.enabled ≡ false
        → switches_on e ≡ false
        → (step interval_ms storage_key s e).enabled ≡ false
          × SameRing (step interval_ms storage_key s e) s
    unfolding step tick on_visibility_change switch stop
    step_frozen s (framed now later) off h = ground arith
    step_frozen s (visibility is_hidden now) off h = ground arith
    step_frozen s (switched value now) off h = ground arith
    step_frozen s left off h = (off, (refl, refl))

    run_off :
        (es : List (Event N)) (s : Refresh N)
        → s.enabled ≡ false
        → All (λ e. switches_on e ≡ false) es
        → (run interval_ms storage_key s es).enabled ≡ false
          × SameRing (run interval_ms storage_key s es) s
    unfolding run
    run_off [] s off h = (off, (refl, refl))
    run_off (e ∷ es) s off (h, hs) =
        let (still, before) = step_frozen s e off h in
        let (ended, after) = run_off es (step interval_ms storage_key s e) still hs in
        (
          ended,
          ring_trans (run interval_ms storage_key s (e ∷ es)) (step interval_ms storage_key s e) s
              after before,
        )

    store-SameRing : (t s : Refresh N) → SameRing t s → SameRing (store interval_ms storage_key t) s
    unfolding store
    store-SameRing t s h =
        Option-split_eq (λ u. SameRing u s) (truthy storage_key) t _ (λ e. h) (λ k e. h)

    enabled_changed-SameRing :
        (now : N) (s : Refresh N) → SameRing (enabled_changed interval_ms storage_key now s) s
    unfolding enabled_changed stop schedule_tick
    enabled_changed-SameRing now s = store-SameRing _ s (ground arith)

    switch-SameRing :
        (value : Bool) (now : N) (s : Refresh N)
        → SameRing (switch interval_ms storage_key value now s) s
    unfolding switch
    switch-SameRing value now s =
        if-split (λ t. SameRing t s) ((value && s.enabled) || (not value && not s.enabled)) s _
          (λ e. (refl, refl))
          (λ e.
            if-split (λ t. SameRing t s) s.disposed _ _ (λ d. (refl, refl))
              (λ d. enabled_changed-SameRing now (record s { enabled = value })))

    -- A refresh that is off, and through any events but those that switch it on, calls nothing and
    -- keeps its progress, and so does the event that switches it on again.
    pub run_frozen :
        (s : Refresh N) (es : List (Event N)) (now : N)
        → s.enabled ≡ false
        → All (λ e. switches_on e ≡ false) es
        → SameRing (run interval_ms storage_key s es) s
          × SameRing
              (step interval_ms storage_key (run interval_ms storage_key s es) (switched true now))
              s
    unfolding step
    run_frozen s es now off h =
        let waited = (run_off es s off h).1 in
        (
          waited,
          ring_trans
              (step interval_ms storage_key (run interval_ms storage_key s es) (switched true now))
              (run interval_ms storage_key s es) s
              (switch-SameRing true now (run interval_ms storage_key s es)) waited,
        )
