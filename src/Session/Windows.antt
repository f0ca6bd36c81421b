-- ===== src/Session/Windows.antt =====
-- Echo suppression: `recordCommand`, `shouldSuppress` and `mapCommandKind` of
-- extension/src/background/session.ts. `b.at >= cutoff` with `cutoff = now - 600` is written
-- `now <= b.at + 600`, since native subtraction stops at 0.
use playback_sync.Base.{
  ℕ, ◌+◌, Bool, true, false, ◌||◌, not, Option, none, some, [], ◌∷◌, ◌++◌, if◌then◌else◌, leb, any,
  keep,
}
use playback_sync.Number.{Number}
use playback_sync.Protocol.Frames.{EventKind}
use playback_sync.Messages.{
  AuthoritativeCommand, play, pause, seek, nudge_rate, cursor_change, LocalIntent,
}
use playback_sync.Session.{
  SessionState, RecentCommand, event_kind_eq, suppression_window_ms, seek_echo_tolerance_s,
}

module _ {N : Type 0} where
  unfoldable pub map_command_kind : AuthoritativeCommand N → Option EventKind
  map_command_kind play = some EventKind.play
  map_command_kind pause = some EventKind.pause
  map_command_kind (seek time) = some EventKind.seek
  map_command_kind (nudge_rate target_pos) = none
  map_command_kind (cursor_change page_url) = none

  abbrev pub seek_time : AuthoritativeCommand N → Option N
  seek_time (seek time) = some time
  seek_time _ = none

  -- Whether the stamp is no older than the suppression window.
  abbrev pub in_window : ℕ → RecentCommand N → Bool
  in_window now b = leb now (b.at + suppression_window_ms)

  unfoldable pub record_command : ℕ → SessionState N → AuthoritativeCommand N → SessionState N
  unfolding map_command_kind
  record_command now s cmd = elim (map_command_kind cmd) [
    | none ↦ s
    | some kind ↦ record s {
      recent_commands =
          keep (in_window now)
            (s.recent_commands ++ record { kind = kind; at = now; time = seek_time cmd } ∷ []);
    }
  ]

module _ {N : Type 0} ⦃n : Number N⦄ where
  abbrev pub near : Option N → N → Bool
  near none time = false
  near (some t) time = n.le (n.abs (n.sub t time)) (n.lit seek_echo_tolerance_s)

  -- The test that `shouldSuppress` makes of one stamp.
  unfoldable pub is_echo : ℕ → LocalIntent N → RecentCommand N → Bool
  is_echo now intent b =
      if not (in_window now b) || not (event_kind_eq b.kind intent.kind)
      then false
      else if event_kind_eq intent.kind EventKind.seek
      then near b.time intent.time
      else true

  -- The early return on an empty list is the empty case of `any`.
  unfoldable pub should_suppress : ℕ → SessionState N → LocalIntent N → Bool
  unfolding is_echo
  should_suppress now s intent = any (is_echo now intent) s.recent_commands
