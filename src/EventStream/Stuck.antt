-- ===== src/EventStream/Stuck.antt =====
-- A stream of src/composables/useEventSource.ts whose source has closed by itself.
use playback_sync.Base.{
  ℕ, ◌≡◌, ◌≢◌, refl, ap, ◌∙◌, Option, some, List, [], ◌∷◌, String, All, true, if-true, if-false,
  Option-split_eq,
}
use playback_sync.EventStream.{
  EventLogEntry, EventStreamMeta, EventStream, closed, onerror, dead, is_live, start, StreamEvent,
  started, stopped, connected, meta_text, event_text, errored, step, run,
}

module _ {D : Type 0} (max_events : ℕ) (parse_meta : String → Option EventStreamMeta)
    (parse_entry : String → Option (EventLogEntry D)) (s : EventStream D)
    (shut : s.source ≡ some dead) where
  step_stuck : (e : StreamEvent) → e ≢ stopped → step max_events parse_meta parse_entry s e ≡ s
  unfolding step start
  step_stuck started n =
      Option-split_eq (λ t. t ≡ s) s.source _ (λ held. s) (λ e. cc) (λ held e. refl)
  step_stuck stopped n = absurd (n refl)
  step_stuck connected n = if-false _ s (ap is_live shut)
  step_stuck (meta_text text) n = if-false _ s (ap is_live shut)
  step_stuck (event_text text) n = if-false _ s (ap is_live shut)
  step_stuck (errored for_good) n = if-false _ s (ap is_live shut)

  run_dead :
      (es : List StreamEvent)
      → All (λ e. e ≢ stopped) es
      → run max_events parse_meta parse_entry s es ≡ s
  unfolding run
  run_dead [] n = refl
  run_dead (e ∷ es) n =
      ap (λ t. run max_events parse_meta parse_entry t es) (step_stuck e n.0) ∙ run_dead es n.1

-- Once its source closes for good, a stream stays as that leaves it, whatever happens and however often
-- `start` is called, until `stop` is.
pub run_stuck :
    {D : Type 0} (max_events : ℕ) (parse_meta : String → Option EventStreamMeta)
    (parse_entry : String → Option (EventLogEntry D)) (s : EventStream D) (es : List StreamEvent)
    → is_live s.source ≡ true
    → All (λ e. e ≢ stopped) es
    → run max_events parse_meta parse_entry s (errored true ∷ es)
      ≡ record s { degraded = true; state = closed; source = some dead }
unfolding run step onerror
run_stuck max_events parse_meta parse_entry s es live n =
    ap (λ t. run max_events parse_meta parse_entry t es) (if-true _ s live)
    ∙ run_dead max_events parse_meta parse_entry
        (record s { degraded = true; state = closed; source = some dead }) refl es n
