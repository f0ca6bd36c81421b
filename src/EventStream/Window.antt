-- ===== src/EventStream/Window.antt =====
-- Runs of src/composables/useEventSource.ts, against the log of a connection with no bound.
use playback_sync.Base.{
  ℕ, ◌≤◌, Bool, true, false, ◌≡◌, refl, ap, sym, ◌∙◌, Option, none, some, List, [], ◌∷◌, String,
  arith, if◌then◌else◌, length, if-split, Option-split_eq, Option-split, subst,
}
use playback_sync.EventStream.{
  EventLogEntry, EventStreamMeta, connecting, EventStream, Source, live, dead, is_live, take,
  new_stream, append_event, start, stop, onopen, on_meta, on_event, onerror, StreamEvent, started,
  stopped, connected, meta_text, event_text, errored, step, run,
}
use playback_sync.EventStream.Recent.{
  note, take-IsDescending, note-IsDescending, IsDescending, IsExpected, append_event-take,
  append_event-le,
}

-- All entries since the list was last emptied, newest first, each once.
pub record Feed (D : Type 0) : Type 0 where
  pub source : Option Source
  pub log : List (EventLogEntry D)

abbrev pub new_feed : {D : Type 0} → Feed D
new_feed = record { source = none; log = [] }

module _ {D : Type 0} (parse_entry : String → Option (EventLogEntry D)) where
  abbrev noted : Option (EventLogEntry D) → Feed D → Feed D
  noted none f = f
  noted (some e) f = record f { log = note e f.log }

  abbrev opening : Option Source → Feed D → Feed D
  opening none f = record { source = some live; log = [] }
  opening (some held) f = f

  -- The same events on the unbounded log.
  unfoldable pub follow : Feed D → StreamEvent → Feed D
  follow f started = opening f.source f
  follow f stopped = record f { source = none }
  follow f connected = f
  follow f (meta_text text) = f
  follow f (event_text text) = if is_live f.source then noted (parse_entry text) f else f
  follow f (errored for_good) =
      if is_live f.source then (if for_good then record f { source = some dead } else f) else f

  unfoldable pub follow_all : Feed D → List StreamEvent → Feed D
  follow_all f [] = f
  follow_all f (e ∷ es) = follow_all (follow f e) es

  abbrev IsParsed : ℕ → Option (EventLogEntry D) → Feed D → Type 0
  IsParsed n none f = Unit
  IsParsed n (some e) f = IsExpected n e f.log

  abbrev IsNext : ℕ → StreamEvent → Feed D → Type 0
  IsNext n (event_text text) f = IsParsed n (parse_entry text) f
  IsNext n _ f = Unit

  -- Every entry that arrives is new to the log, or still in the window of `n`.
  unfoldable pub IsFed : ℕ → Feed D → List StreamEvent → Type 0
  unfolding follow
  IsFed n f [] = Unit
  IsFed n f (e ∷ es) = IsNext n e f × IsFed n (follow f e) es

  module _ (max_events : ℕ) (parse_meta : String → Option EventStreamMeta) where
    -- The list is the window of the log.
    pub record Shows (f : Feed D) (s : EventStream D) : Type 0 where
      pub source : s.source ≡ f.source
      pub events : s.events ≡ take max_events f.log
      pub ordered : IsDescending f.log

    started-Shows :
        (f : Feed D) (s : EventStream D) → Shows f s → Shows (opening f.source f) (start s)
    unfolding start
    started-Shows f s h =
        Option-split_eq (Shows (opening f.source f)) s.source _ (λ held. s)
          (λ e.
            subst
              (λ o.
                Shows (opening o f)
                  (record s { events = []; meta = none; state = connecting; source = some live }))
              (sym e ∙ h.source) (record { source = refl; events = refl; ordered = tt }))
          (λ held e. subst (λ o. Shows (opening o f) s) (sym e ∙ h.source) h)

    noted-Shows :
        (o : Option (EventLogEntry D)) (f : Feed D) (s : EventStream D)
        → IsParsed max_events o f
        → Shows f s
        → Shows (noted o f) (on_event max_events o s)
    unfolding on_event
    noted-Shows none f s x h = h
    noted-Shows (some e) f s x h = record {
      source = h.source;
      events =
          ap (append_event max_events e) h.events
          ∙ append_event-take max_events e f.log h.ordered x;
      ordered = note-IsDescending e f.log h.ordered;
    }

    -- What only a live source brings.
    alive :
        (f u : Feed D) (s t : EventStream D)
        → Shows f s
        → Shows u t
        → Shows (if is_live f.source then u else f) (if is_live s.source then t else s)
    alive f u s t h k =
        subst
          (λ (o : Option Source).
            Shows (if is_live f.source then u else f) (if is_live o then t else s))
          (sym h.source) (by_test (is_live f.source) f u s t h k)
      where
        by_test :
            (b : Bool) (f u : Feed D) (s t : EventStream D)
            → Shows f s
            → Shows u t
            → Shows (if b then u else f) (if b then t else s)
        by_test true f u s t h k = k
        by_test false f u s t h k = h

    meta-Shows :
        (o : Option EventStreamMeta) (f : Feed D) (s : EventStream D)
        → Shows f s
        → Shows f (on_meta o s)
    unfolding on_meta
    meta-Shows none f s h = h
    meta-Shows (some m) f s h = record { source = h.source; events = h.events; ordered = h.ordered }

    step-Shows :
        (f : Feed D) (s : EventStream D) (e : StreamEvent)
        → IsNext max_events e f
        → Shows f s
        → Shows (follow f e) (step max_events parse_meta parse_entry s e)
    unfolding follow step stop onopen onerror
    step-Shows f s started x h = started-Shows f s h
    step-Shows f s stopped x h = record { source = refl; events = h.events; ordered = h.ordered }
    step-Shows f s connected x h =
        if-split (Shows f) (is_live s.source) _ s
          (λ q. record { source = h.source; events = h.events; ordered = h.ordered }) (λ q. h)
    step-Shows f s (meta_text text) x h =
        if-split (Shows f) (is_live s.source) _ s (λ q. meta-Shows (parse_meta text) f s h) (λ q. h)
    step-Shows f s (event_text text) x h = alive f _ s _ h (noted-Shows (parse_entry text) f s x h)
    step-Shows f s (errored true) x h =
        alive f _ s _ h (record { source = refl; events = h.events; ordered = h.ordered })
    step-Shows f s (errored false) x h =
        alive f _ s _ h (record { source = h.source; events = h.events; ordered = h.ordered })

    run-Shows :
        (f : Feed D) (s : EventStream D) (es : List StreamEvent)
        → IsFed max_events f es
        → Shows f s
        → Shows (follow_all f es) (run max_events parse_meta parse_entry s es)
    unfolding follow_all run IsFed
    run-Shows f s [] x h = h
    run-Shows f s (e ∷ es) x h =
        run-Shows (follow f e) (step max_events parse_meta parse_entry s e) es x.1
          (step-Shows f s e x.0 h)

    -- While every entry that arrives is new or still in the window, the list is the newest
    -- `maxEvents` of all entries since it was last emptied, each once, in the order of their ids.
    pub run_window :
        (es : List StreamEvent)
        → IsFed max_events new_feed es
        → ((run max_events parse_meta parse_entry new_stream es).events
            ≡ take max_events (follow_all new_feed es).log)
          × IsDescending (run max_events parse_meta parse_entry new_stream es).events
    unfolding new_stream
    run_window es x =
        let h =
          run-Shows new_feed new_stream es x
            (record { source = refl; events = refl; ordered = tt }) in
        (h.events, subst IsDescending (sym h.events) (take-IsDescending max_events _ h.ordered))

    meta_bounded :
        (o : Option EventStreamMeta) (s : EventStream D)
        → length s.events ≤ max_events
        → length (on_meta o s).events ≤ max_events
    unfolding on_meta
    meta_bounded none s h = h
    meta_bounded (some m) s h = h

    event_bounded :
        (o : Option (EventLogEntry D)) (s : EventStream D)
        → length s.events ≤ max_events
        → length (on_event max_events o s).events ≤ max_events
    unfolding on_event
    event_bounded none s h = h
    event_bounded (some e) s h = append_event-le max_events e s.events h

    error_bounded :
        (for_good : Bool) (s : EventStream D)
        → length s.events ≤ max_events
        → length (onerror for_good s).events ≤ max_events
    unfolding onerror
    error_bounded true s h = h
    error_bounded false s h = h

    step_bounded :
        (s : EventStream D) (e : StreamEvent)
        → length s.events ≤ max_events
        → length (step max_events parse_meta parse_entry s e).events ≤ max_events
    unfolding step start stop onopen onerror
    step_bounded s started h =
        Option-split (λ (t : EventStream D). length t.events ≤ max_events) s.source _ _
          (omega arith) (λ held e. h)
    step_bounded s stopped h = h
    step_bounded s connected h =
        if-split (λ (t : EventStream D). length t.events ≤ max_events) (is_live s.source) _ s
          (λ q. h) (λ q. h)
    step_bounded s (meta_text text) h =
        if-split (λ (t : EventStream D). length t.events ≤ max_events) (is_live s.source) _ s
          (λ q. meta_bounded (parse_meta text) s h) (λ q. h)
    step_bounded s (event_text text) h =
        if-split (λ (t : EventStream D). length t.events ≤ max_events) (is_live s.source) _ s
          (λ q. event_bounded (parse_entry text) s h) (λ q. h)
    step_bounded s (errored for_good) h =
        if-split (λ (t : EventStream D). length t.events ≤ max_events) (is_live s.source) _ s
          (λ q. error_bounded for_good s h) (λ q. h)

    all_bounded :
        (s : EventStream D) (es : List StreamEvent)
        → length s.events ≤ max_events
        → length (run max_events parse_meta parse_entry s es).events ≤ max_events
    unfolding run
    all_bounded s [] h = h
    all_bounded s (e ∷ es) h =
        all_bounded (step max_events parse_meta parse_entry s e) es (step_bounded s e h)

    -- Whatever arrives, in any order, the list holds at most `maxEvents` entries.
    run_bounded :
        (es : List StreamEvent)
        → length (run max_events parse_meta parse_entry new_stream es).events ≤ max_events
    unfolding new_stream
    run_bounded es = all_bounded new_stream es (omega arith)
