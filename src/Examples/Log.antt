-- ===== src/Examples/Log.antt =====
-- The event log of a room in a window of two entries: a connection that ends, resumes with an overlap,
-- and at last fails for good.
use text.Mathlib.Text.{◌==◌ as str_eq}
use playback_sync.Base.{
  ℕ, true, false, ◌≡◌, ◌≢◌, refl, Option, none, some, List, [], ◌∷◌, String, arith, All,
  if◌then◌else◌, inl, inr,
}
use playback_sync.EventStream.{
  EventLogEntry, EventStreamMeta, EventStream, EventStreamState, playback, client, take, new_stream,
  live, dead, step, run, StreamEvent, started, stopped, connected, event_text, errored,
}
use playback_sync.EventStream.Recent.{IsDescending}
use playback_sync.EventStream.Window.{new_feed, follow, follow_all, IsFed, run_window}
use playback_sync.EventStream.Stuck.{run_stuck}

abbrev entry : ℕ → EventLogEntry ℕ
entry id = record {
  id = id;
  ts = 90000;
  kind = "play";
  category = playback;
  actor = client;
  actor_id = some "c1";
  room_uuid = "r1";
  details = none;
}

abbrev parse_entry : String → Option (EventLogEntry ℕ)
parse_entry text =
    if str_eq text "1"
    then some (entry 1)
    else if str_eq text "2"
    then some (entry 2)
    else if str_eq text "3"
    then some (entry 3)
    else none

abbrev parse_meta : String → Option EventStreamMeta
parse_meta text = none

abbrev resumed : List StreamEvent
resumed =
    started
    ∷ connected
    ∷ event_text "1"
    ∷ event_text "2"
    ∷ errored false
    ∷ connected
    ∷ event_text "2"
    ∷ event_text "?"
    ∷ event_text "3"
    ∷ []

resumed-IsFed : IsFed parse_entry 2 new_feed resumed
unfolding IsFed follow
resumed-IsFed = (tt, (tt, (inl refl, (inl refl, (tt, (tt, (inr refl, (tt, (inl refl, tt)))))))))

shown : (run 2 parse_meta parse_entry new_stream resumed).events ≡ entry 3 ∷ entry 2 ∷ []
unfolding run step new_stream
shown = refl

run_window_example :
    ((run 2 parse_meta parse_entry new_stream resumed).events
      ≡ take 2 (follow_all parse_entry new_feed resumed).log)
    × IsDescending (run 2 parse_meta parse_entry new_stream resumed).events
run_window_example = run_window parse_entry 2 parse_meta resumed resumed-IsFed

abbrev flowing : EventStream ℕ
flowing = record {
  state = EventStreamState.opened;
  events = entry 3 ∷ [];
  meta = none;
  degraded = false;
  source = some live;
}

kept_starting : All (λ e. e ≢ stopped) (started ∷ event_text "4" ∷ [])
kept_starting = ((λ e. ground arith), ((λ e. ground arith), tt))

run_stuck_example :
    run 2 parse_meta parse_entry flowing (errored true ∷ started ∷ event_text "4" ∷ [])
    ≡ record flowing { degraded = true; state = EventStreamState.closed; source = some dead }
run_stuck_example =
    run_stuck 2 parse_meta parse_entry flowing (started ∷ event_text "4" ∷ []) refl kept_starting
