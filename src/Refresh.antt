-- ===== src/Refresh.antt =====
-- The paced refresh of the dashboard's lists: src/composables/useAutoRefresh.ts, in a browser with a
-- document. The times of `performance.now()` come with the events. A watcher runs at the end of the task
-- that changed `enabled`, before any other event, so a change and its watcher are one step.
pub mod Paced
pub mod Frozen
use text.Mathlib.Text.{◌==◌ as str_eq}
use playback_sync.Base.{
  Bool, true, false, not, ◌&&◌, ◌||◌, Option, none, some, List, [], ◌∷◌, String, if◌then◌else◌,
}
use playback_sync.Number.{Number}

pub data Output : Type 0 where
  called : Output
  stored : String → String → Output

-- `frame` tells that `rafId` is set.
pub record Refresh (N : Type 0) : Type 0 where
  pub enabled : Bool
  pub hidden : Bool
  pub progress : N
  pub frame : Bool
  pub last_frame_at : Option N
  pub disposed : Bool
  pub out : List Output

-- A frame carries the time at its start and the one at which it fires the callback.
pub data Event (N : Type 0) : Type 0 where
  framed : N → N → Event N
  visibility : Bool → N → Event N
  switched : Bool → N → Event N
  left : Event N

-- A key that is given and not empty.
unfoldable pub truthy : Option String → Option String
truthy none = none
truthy (some k) = if str_eq k "" then none else some k

-- `saved` is what the storage has under the key, `none` also where it throws.
unfoldable pub read_initial_enabled : Option String → Bool → Option String → Bool
unfolding truthy
read_initial_enabled key default_enabled saved = elim (truthy key) [
  | none ↦ default_enabled
  | some k ↦ elim saved [
    | none ↦ default_enabled
    | some raw ↦ if str_eq raw "1" then true else if str_eq raw "0" then false else default_enabled
  ]
]

module _ {N : Type 0} ⦃n : Number N⦄ where
  unfoldable pub fire_and_reset : N → Refresh N → Refresh N
  fire_and_reset now s = record s {
    progress = n.lit 0;
    last_frame_at = some now;
    out = called ∷ s.out;
  }

  unfoldable pub schedule_tick : Refresh N → Refresh N
  schedule_tick s = if s.frame then s else record s { frame = true }

  unfoldable pub stop : Refresh N → Refresh N
  stop s = record s { frame = false; last_frame_at = none }

  unfoldable pub on_visibility_change : Bool → N → Refresh N → Refresh N
  unfolding stop fire_and_reset schedule_tick
  on_visibility_change is_hidden now s =
      let u = record s { hidden = is_hidden } in
      if is_hidden then stop u else if u.enabled then schedule_tick (fire_and_reset now u) else u

  abbrev pub delta : N → Option N → N
  delta now none = n.lit 0
  delta now (some at) = n.sub now at

  module _ (interval_ms : N) (storage_key : Option String) where
    unfoldable pub tick : N → N → Refresh N → Refresh N
    unfolding fire_and_reset schedule_tick
    tick now later s =
        let u = record s { frame = false } in
        if not u.enabled || u.hidden
        then u
        else let next = n.add u.progress (n.div (delta now u.last_frame_at) interval_ms) in
          let v = record u { last_frame_at = some now } in
          schedule_tick
            (if n.le (n.lit 1) next then fire_and_reset later v else record v { progress = next })

    unfoldable pub store : Refresh N → Refresh N
    unfolding truthy
    store s = elim (truthy storage_key) [
      | none ↦ s
      | some k ↦ record s { out = stored k (if s.enabled then "1" else "0") ∷ s.out }
    ]

    -- The watcher of `enabled`.
    unfoldable pub enabled_changed : N → Refresh N → Refresh N
    unfolding stop schedule_tick store
    enabled_changed now s =
        let u = record s { last_frame_at = some now } in
        store (if s.enabled then (if u.hidden then u else schedule_tick u) else stop s)

    abbrev pub new_refresh : Bool → Bool → Refresh N
    new_refresh enabled hidden = record {
      enabled = enabled;
      hidden = hidden;
      progress = n.lit 0;
      frame = false;
      last_frame_at = none;
      disposed = false;
      out = [];
    }

    -- The composable, with the first run of its watcher.
    unfoldable pub use_auto_refresh : Bool → Option String → Bool → N → Refresh N
    unfolding read_initial_enabled enabled_changed
    use_auto_refresh default_enabled saved is_hidden now =
        enabled_changed now
          (new_refresh (read_initial_enabled storage_key default_enabled saved) is_hidden)

    unfoldable pub switch : Bool → N → Refresh N → Refresh N
    unfolding enabled_changed
    switch value now s =
        if (value && s.enabled) || (not value && not s.enabled)
        then s
        else let u = record s { enabled = value } in if s.disposed then u else enabled_changed now u

    unfoldable pub step : Refresh N → Event N → Refresh N
    unfolding tick on_visibility_change switch stop
    step s (framed now later) = if s.frame then tick now later s else s
    step s (visibility is_hidden now) =
        if s.disposed then s else on_visibility_change is_hidden now s
    step s (switched value now) = switch value now s
    step s left = record (stop s) { disposed = true }

    unfoldable pub run : Refresh N → List (Event N) → Refresh N
    unfolding step
    run s [] = s
    run s (e ∷ es) = run (step s e) es
