-- ===== src/Media/Runs.antt =====
-- The life of a media frame's runtime as a sequence of events: messages of the background, calls of the
-- adapters' contexts, the settling of an adapter's `init`, timers and media events. `matches` is
-- whether an adapter claims the frame's address.
use playback_sync.Base.{ℕ, Bool, Option, List, [], ◌∷◌, String, if◌then◌else◌}
use playback_sync.Number.{Number}
use playback_sync.Messages.{AuthoritativeCommand, LocalIntent, VideoState}
use playback_sync.Media.{
  Media, send_intent, send_media_owner, emit, settle, poll_due, init_resolved, fail, on_command,
  nudge_due, deliver_command, set_room_active, on_in_frame_source_change,
}

pub data Event (N : Type 0) : Type 0 where
  room : Bool → Event N
  command : AuthoritativeCommand N → Option (VideoState N) → Bool → Event N
  source_change : Bool → Event N
  resolved : ℕ → Event N
  rejected : ℕ → String → Event N
  registered : ℕ → Event N
  gave_up : String → Event N
  observed : LocalIntent N → Event N
  claimed : Event N
  nudge_timer : Event N
  status_timer : Option (VideoState N) → Event N

module _ {N : Type 0} ⦃n : Number N⦄ (matches : Bool) where
  unfoldable pub step : Media N → Event N → Media N
  unfolding set_room_active deliver_command on_in_frame_source_change init_resolved fail on_command
      nudge_due poll_due
  step m (room on) = set_room_active matches on m
  step m (command cmd snapshot throws) = deliver_command cmd snapshot throws m
  step m (source_change at_video) = on_in_frame_source_change matches at_video m
  step m (resolved a) = if m.inits a then init_resolved a (settle a m) else m
  step m (rejected a reason) = if m.inits a then fail reason (settle a m) else m
  step m (registered a) = on_command a m
  step m (gave_up reason) = fail reason m
  step m (observed intent) = emit (send_intent intent) m
  step m claimed = emit send_media_owner m
  step m nudge_timer = nudge_due m
  step m (status_timer snapshot) = poll_due snapshot m

  unfoldable pub run : Media N → List (Event N) → Media N
  run m [] = m
  run m (e ∷ es) = run (step m e) es
