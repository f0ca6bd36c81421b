-- ===== src/EventStream.antt =====
-- The event log of the dashboard, as one server-sent stream fills it: src/composables/useEventSource.ts.
-- The list is kept newest first. A source that is closed, by `close` or by a failure for good, dispatches
-- nothing more, as the browser documents. What `JSON.parse` makes of a text is a parameter.
pub mod Recent
pub mod Window
pub mod Stuck
use playback_sync.Base.{
  ℕ, zero, suc, Bool, true, false, Option, none, some, List, [], ◌∷◌, String, if◌then◌else◌, leb,
  ltb, ◌==◌, length,
}

pub data EventCategory : Type 0 where
  playback : EventCategory
  presence : EventCategory
  lifecycle : EventCategory
  admin : EventCategory

pub data EventActor : Type 0 where
  client : EventActor
  owner : EventActor
  admin : EventActor
  system : EventActor

-- `D` are the fields of a type of events.
pub record EventLogEntry (D : Type 0) : Type 0 where
  pub id : ℕ
  pub ts : ℕ
  pub kind : String
  pub category : EventCategory
  pub actor : EventActor
  pub actor_id : Option String
  pub room_uuid : String
  pub details : Option D

pub record EventStreamMeta : Type 0 where
  pub daemon_started_at_ms : ℕ
  pub backfilled_from_id : ℕ
  pub backfill_count : ℕ

pub data EventStreamState : Type 0 where
  connecting : EventStreamState
  opened : EventStreamState
  closed : EventStreamState
  failing : EventStreamState

-- The source that is held: it lives, or its `readyState` is `CLOSED`.
pub data Source : Type 0 where
  live : Source
  dead : Source

pub record EventStream (D : Type 0) : Type 0 where
  pub state : EventStreamState
  pub events : List (EventLogEntry D)
  pub meta : Option EventStreamMeta
  pub degraded : Bool
  pub source : Option Source

abbrev pub take {ℓ} : {A : Type ℓ} → ℕ → List A → List A
take n [] = []
take zero (x ∷ xs) = []
take (suc n) (x ∷ xs) = x ∷ take n xs

abbrev pub is_live : Option Source → Bool
is_live (some live) = true
is_live (some dead) = false
is_live none = false

module _ {D : Type 0} where
  unfoldable pub new_stream : EventStream D
  new_stream = record { state = closed; events = []; meta = none; degraded = false; source = none }

  -- The loop of `appendEvent` from the newest entry on: whether it finds the id.
  unfoldable pub scan : ℕ → List (EventLogEntry D) → Bool
  scan id [] = false
  scan id (e ∷ es) =
      let rest = scan id es in if leb id e.id then (if e.id == id then true else rest) else false

  unfoldable pub append_event :
      ℕ → EventLogEntry D → List (EventLogEntry D) → List (EventLogEntry D)
  unfolding scan
  append_event max_events entry existing =
      if scan entry.id existing
      then existing
      else let next = entry ∷ existing in
        if ltb max_events (length next) then take max_events next else next

  unfoldable pub start : EventStream D → EventStream D
  start s = elim s.source [
    | some held ↦ s
    | none ↦ record s { events = []; meta = none; state = connecting; source = some live }
  ]

  unfoldable pub stop : EventStream D → EventStream D
  stop s = record s { source = none; state = closed }

  unfoldable pub onopen : EventStream D → EventStream D
  onopen s = record s { state = opened; degraded = false }

  -- The listeners, by what the text parses to.
  unfoldable pub on_meta : Option EventStreamMeta → EventStream D → EventStream D
  on_meta none s = s
  on_meta (some m) s = record s { meta = some m }

  unfoldable pub on_event : ℕ → Option (EventLogEntry D) → EventStream D → EventStream D
  unfolding append_event
  on_event max_events none s = s
  on_event max_events (some entry) s = record s { events = append_event max_events entry s.events }

  -- By whether the source has closed.
  unfoldable pub onerror : Bool → EventStream D → EventStream D
  onerror true s = record s { degraded = true; state = closed; source = some dead }
  onerror false s = record s { degraded = true; state = failing }

pub data StreamEvent : Type 0 where
  started : StreamEvent
  stopped : StreamEvent
  connected : StreamEvent
  meta_text : String → StreamEvent
  event_text : String → StreamEvent
  errored : Bool → StreamEvent

module _ {D : Type 0} (max_events : ℕ) (parse_meta : String → Option EventStreamMeta)
    (parse_entry : String → Option (EventLogEntry D)) where
  unfoldable pub step : EventStream D → StreamEvent → EventStream D
  unfolding start stop onopen on_meta on_event onerror
  step s started = start s
  step s stopped = stop s
  step s connected = if is_live s.source then onopen s else s
  step s (meta_text text) = if is_live s.source then on_meta (parse_meta text) s else s
  step s (event_text text) =
      if is_live s.source then on_event max_events (parse_entry text) s else s
  step s (errored for_good) = if is_live s.source then onerror for_good s else s

  unfoldable pub run : EventStream D → List StreamEvent → EventStream D
  run s [] = s
  run s (e ∷ es) = run (step s e) es
