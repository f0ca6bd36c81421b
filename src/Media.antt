-- ===== src/Media.antt =====
-- The runtime of the media frame, extension/src/adapters/media/runtime.ts, behind `start`: the adapter
-- that drives the frame's <video>, its activation while the tab is in a room, the commands it gets,
-- the nudge of its playback rate and the polling of its state. Every activation makes a new adapter;
-- an adapter is the number of its activation. `init` awaits, so activations can overlap: `inits` says
-- of which adapters it has not settled.
pub mod Runs
pub mod Gates
pub mod Outside
pub mod Rates
pub mod Nudges
pub mod Restored
use playback_sync.Base.{
  ℕ, ◌+◌, Bool, true, false, not, Option, none, some, List, [], ◌∷◌, String, if◌then◌else◌, ◌==◌,
  ◌||◌,
}
use playback_sync.Number.{Number}
use playback_sync.Messages.{
  AuthoritativeCommand, play, pause, seek, nudge_rate, cursor_change, LocalIntent, VideoState,
}

-- The handler of an active adapter is the adapter that registered it.
pub data RuntimeState : Type 0 where
  idle : RuntimeState
  active : ℕ → Option ℕ → RuntimeState
  failed : String → RuntimeState

-- Calls of an adapter, of the timers, and of the bridge to the background.
pub data Output (N : Type 0) : Type 0 where
  init : ℕ → Output N
  destroy : ℕ → Output N
  set_playback_rate : ℕ → N → Output N
  start_nudge : N → Output N
  handle : ℕ → AuthoritativeCommand N → Output N
  send_intent : LocalIntent N → Output N
  send_status : VideoState N → Output N
  send_media_hello : ℕ → Output N
  send_media_owner : Output N
  send_fail : String → Output N

-- The outputs stand newest first. `nudge_timer` is the adapter that the timer's callback restores,
-- `polling` the one whose state is sampled.
pub record Media (N : Type 0) : Type 0 where
  pub room_active : Bool
  pub state : RuntimeState
  pub pending_handler : Option ℕ
  pub nudge_timer : Option ℕ
  pub polling : Option ℕ
  pub inits : ℕ → Bool
  pub fresh : ℕ
  pub out : List (Output N)

abbrev pub is_failed : RuntimeState → Bool
is_failed (failed reason) = true
is_failed _ = false

-- `onCommand` compares the ids of the adapters, and all adapters of a frame have the same.
abbrev pub adopt : ℕ → RuntimeState → RuntimeState
adopt a (active b handler) = active b (some a)
adopt a s = s

abbrev pub same : Bool → Bool → Bool
same true b = b
same false b = not b

module _ {N : Type 0} where
  abbrev pub emit : Output N → Media N → Media N
  emit o m = record m { out = o ∷ m.out }

  abbrev pub settle : ℕ → Media N → Media N
  settle a m = record m { inits = λ j. if a == j then false else m.inits j }

  -- The variables of the module as they are declared.
  unfoldable pub new_media : Media N
  new_media = record {
    room_active = false;
    state = idle;
    pending_handler = none;
    nudge_timer = none;
    polling = none;
    inits = λ j. false;
    fresh = 0;
    out = [];
  }

  unfoldable pub stop_status_polling : Media N → Media N
  stop_status_polling m = record m { polling = none }

  unfoldable pub start_status_polling : ℕ → Media N → Media N
  start_status_polling a m = record m { polling = some a }

  abbrev pub sampled : Option (VideoState N) → Media N → Media N
  sampled none m = m
  sampled (some state) m = emit (send_status state) m

  -- A tick of the polling; `snapshot` is what `getState` returns.
  unfoldable pub poll_due : Option (VideoState N) → Media N → Media N
  poll_due snapshot m = elim m.polling [ none ↦ m | some a ↦ sampled snapshot m ]

  -- `evaluate` up to its await; `matches` is whether an adapter claims the frame.
  unfoldable pub evaluate : Bool → Media N → Media N
  evaluate matches m =
      if not m.room_active
      then m
      else if matches
      then emit (init m.fresh) (record m {
        pending_handler = none;
        inits = λ j. if m.fresh == j then true else m.inits j;
        fresh = m.fresh + 1;
      })
      else record m { state = idle }

  -- Behind the await of an adapter's `init`.
  abbrev pub activate : ℕ → Media N → Media N
  activate a m = emit (send_media_hello a) (
      start_status_polling a
        (record m { state = active a m.pending_handler; pending_handler = none }))

  unfoldable pub init_resolved : ℕ → Media N → Media N
  unfolding start_status_polling
  init_resolved a m =
      if not m.room_active
      then record (emit (destroy a) m) { state = idle }
      else if is_failed m.state
      then m
      else activate a m

  -- The `catch` of an adapter's `init`, and the `fail` of its context.
  unfoldable pub fail : String → Media N → Media N
  fail reason m = emit (send_fail reason) (record m { state = failed reason })

  unfoldable pub on_command : ℕ → Media N → Media N
  on_command a m = record m { pending_handler = some a; state = adopt a m.state }

  unfoldable pub hand : Option ℕ → AuthoritativeCommand N → Media N → Media N
  hand none cmd m = m
  hand (some a) cmd m = emit (handle a cmd) m

module _ {N : Type 0} ⦃n : Number N⦄ where
  abbrev pub nudge_rate_offset : N
  nudge_rate_offset = n.frac 5 100

  abbrev pub nudge_dead_band_s : N
  nudge_dead_band_s = n.frac 5 100

  abbrev pub nudge_max_duration_ms : N
  nudge_max_duration_ms = n.lit 3000

  unfoldable pub cancel_nudge : ℕ → Media N → Media N
  cancel_nudge a m = elim m.nudge_timer [
    | none ↦ m
    | some b ↦ emit (set_playback_rate a (n.lit 1)) (record m { nudge_timer = none })
  ]

  abbrev pub nudged_rate : N → N
  nudged_rate delta =
      if n.gt delta (n.lit 0)
      then n.add (n.lit 1) nudge_rate_offset
      else n.sub (n.lit 1) nudge_rate_offset

  abbrev pub nudge_duration_ms : N → N
  nudge_duration_ms delta =
      n.minimum (n.mul (n.div (n.abs delta) nudge_rate_offset) (n.lit 1000)) nudge_max_duration_ms

  -- `throws` is whether the adapter's `setPlaybackRate` throws at the nudge; at the restoring call
  -- it is documented not to.
  abbrev pub nudge_by : ℕ → N → Bool → Media N → Media N
  nudge_by a delta throws m =
      if n.gt nudge_dead_band_s (n.abs delta) || throws
      then m
      else emit (start_nudge (nudge_duration_ms delta))
          (record (emit (set_playback_rate a (nudged_rate delta)) m) { nudge_timer = some a })

  unfoldable pub apply_nudge_rate : ℕ → N → Option (VideoState N) → Bool → Media N → Media N
  unfolding cancel_nudge
  apply_nudge_rate a target none throws m = cancel_nudge a m
  apply_nudge_rate a target (some state) throws m =
      nudge_by a (n.sub target state.current_pos) throws (cancel_nudge a m)

  -- The callback of the timer of a nudge.
  unfoldable pub nudge_due : Media N → Media N
  nudge_due m = elim m.nudge_timer [
    | none ↦ m
    | some a ↦ emit (set_playback_rate a (n.lit 1)) (record m { nudge_timer = none })
  ]

  -- On the active adapter, with its handler.
  unfoldable pub deliver_to :
      ℕ → Option ℕ → AuthoritativeCommand N → Option (VideoState N) → Bool → Media N → Media N
  unfolding apply_nudge_rate cancel_nudge hand
  deliver_to a handler (nudge_rate target) snapshot throws m =
      apply_nudge_rate a target snapshot throws m
  deliver_to a handler (cursor_change url) snapshot throws m = hand handler (cursor_change url) m
  deliver_to a handler cmd snapshot throws m = hand handler cmd (cancel_nudge a m)

  unfoldable pub deliver_command :
      AuthoritativeCommand N → Option (VideoState N) → Bool → Media N → Media N
  unfolding deliver_to
  deliver_command cmd snapshot throws m = elim m.state [
    | idle ↦ m
    | active a handler ↦ deliver_to a handler cmd snapshot throws m
    | failed reason ↦ m
  ]

  abbrev pub dismiss : Media N → Media N
  dismiss m = elim m.state [
    | idle ↦ m
    | active a handler ↦ emit (destroy a) (cancel_nudge a m)
    | failed reason ↦ m
  ]

  unfoldable pub teardown : Media N → Media N
  unfolding stop_status_polling cancel_nudge
  teardown m = record (dismiss (stop_status_polling m)) { state = idle; pending_handler = none }

  unfoldable pub set_room_active : Bool → Bool → Media N → Media N
  unfolding evaluate teardown
  set_room_active matches on m =
      if same on m.room_active
      then m
      else if on
      then evaluate matches (record m { room_active = true })
      else teardown (record m { room_active = false })

  -- A `loadstart` event, at a <video> or not.
  unfoldable pub on_in_frame_source_change : Bool → Bool → Media N → Media N
  unfolding evaluate teardown
  on_in_frame_source_change matches at_video m = elim m.state [
    | idle ↦ m
    | active a handler ↦ if at_video then evaluate matches (teardown m) else m
    | failed reason ↦ m
  ]
