-- ===== src/Refresh/Paced.antt =====
-- When src/composables/useAutoRefresh.ts asks for frames and calls back.
use playback_sync.Base.{
  Bool, true, false, not, ◌&&◌, ◌||◌, ◌≡◌, refl, Option, none, some, List, [], ◌∷◌, String, arith,
  if-split, Option-split_eq,
}
use playback_sync.Number.{Number}
use playback_sync.Refresh.{
  Refresh, Event, framed, visibility, switched, left, fire_and_reset, schedule_tick, stop,
  on_visibility_change, tick, store, truthy, enabled_changed, use_auto_refresh, new_refresh,
  read_initial_enabled, switch, step, run,
}

abbrev pub is_anchored {ℓ} : {A : Type ℓ} → Option A → Bool
is_anchored none = false
is_anchored (some a) = true

module _ {N : Type 0} ⦃n : Number N⦄ where
  -- A frame is asked for exactly while the refresh is on, visible and not disposed; then there is a time
  -- to measure from; and the progress has not reached the end.
  abbrev pub IsPaced : Refresh N → Type 0
  IsPaced s =
      s.frame ≡ (not s.disposed && (s.enabled && not s.hidden))
      × (s.frame ≡ true → is_anchored s.last_frame_at ≡ true)
      × n.le (n.lit 1) s.progress ≡ false

  module _ (zero_below : n.le (n.lit 1) (n.lit 0) ≡ false) (interval_ms : N)
      (storage_key : Option String) where
    store-IsPaced : (s : Refresh N) → IsPaced s → IsPaced (store interval_ms storage_key s)
    unfolding store
    store-IsPaced s h = Option-split_eq IsPaced (truthy storage_key) s _ (λ e. h) (λ k e. h)

    enabled_changed-IsPaced :
        (now : N) (s : Refresh N)
        → s.disposed ≡ false
        → (s.enabled ≡ true → s.frame ≡ true → s.hidden ≡ false)
        → n.le (n.lit 1) s.progress ≡ false
        → IsPaced (enabled_changed interval_ms storage_key now s)
    unfolding enabled_changed stop schedule_tick
    enabled_changed-IsPaced now s live shown below = store-IsPaced _ (ground arith)

    step-IsPaced :
        (s : Refresh N) (e : Event N) → IsPaced s → IsPaced (step interval_ms storage_key s e)
    unfolding step tick on_visibility_change switch stop fire_and_reset schedule_tick
    step-IsPaced s (framed now later) h = ground arith
    step-IsPaced s (visibility is_hidden now) h = ground arith
    step-IsPaced s (switched value now) h =
        if-split IsPaced ((value && s.enabled) || (not value && not s.enabled)) s _ (λ e. h)
          (λ e.
            if-split IsPaced s.disposed _ _ (λ d. (ground arith))
              (λ d.
                enabled_changed-IsPaced now (record s { enabled = value }) d (ground arith) h.2))
    step-IsPaced s left h = ground arith

    kept :
        (es : List (Event N)) (s : Refresh N)
        → IsPaced s
        → IsPaced (run interval_ms storage_key s es)
    unfolding run
    kept [] s h = h
    kept (e ∷ es) s h = kept es (step interval_ms storage_key s e) (step-IsPaced s e h)

    -- Whatever happens, and however often the refresh is switched on and off, hidden and shown: a frame
    -- is asked for exactly while it is on, the page is visible and the component is not disposed, then
    -- there is a time to measure from, and the progress is short of 1; provided that 1 <= 0 is false of the
    -- numbers.
    pub run-IsPaced :
        (default_enabled : Bool) (saved : Option String) (is_hidden : Bool) (now : N)
        (es : List (Event N))
        → IsPaced (
            run interval_ms storage_key
              (use_auto_refresh interval_ms storage_key default_enabled saved is_hidden now)
              es)
    unfolding use_auto_refresh
    run-IsPaced default_enabled saved is_hidden now es = kept es _ (
        enabled_changed-IsPaced now
          (new_refresh interval_ms storage_key
            (read_initial_enabled storage_key default_enabled saved) is_hidden)
          refl (λ e f. cc) zero_below)
