-- ===== src/Page/Runs.antt =====
-- The life of a page frame's runtime as a sequence of events: what the background sends, what the adapters'
-- contexts are asked for, the settling of `init` and of a scrape, and the address of the page, which
-- can change unseen.
use playback_sync.Base.{ℕ, Bool, Option, List, [], ◌∷◌, String, if◌then◌else◌}
use playback_sync.Protocol.Frames.{VideoRefWithMeta}
use playback_sync.Messages.{AuthoritativeCommand, ContentIdentity}
use playback_sync.Page.{
  Candidate, Page, scrape_settled, settle, init_resolved, fail, on_command, set_identity,
  emit_cursor_trigger, deliver_command, set_room_active, handle_location_change,
}

pub data Event (N : Type 0) : Type 0 where
  room : Bool → Event N
  command : AuthoritativeCommand N → Event N
  moved : String → Event N
  location_change : Event N
  resolved : ℕ → Event N
  rejected : ℕ → String → Event N
  registered : ℕ → Event N
  gave_up : ℕ → String → Event N
  identified : ℕ → ContentIdentity → Event N
  triggered : ℕ → VideoRefWithMeta N → Event N
  scraped : ℕ → Option (List (VideoRefWithMeta N)) → Event N

module _ {N : Type 0} (claims : String → Option Candidate) where
  unfoldable pub step : Page N → Event N → Page N
  unfolding scrape_settled init_resolved fail on_command set_identity emit_cursor_trigger
      deliver_command set_room_active handle_location_change
  step p (room on) = set_room_active claims on p
  step p (command cmd) = deliver_command cmd p
  step p (moved href) = record p { href = href }
  step p location_change = handle_location_change claims p
  step p (resolved a) = if p.inits a then init_resolved a (settle a p) else p
  step p (rejected a reason) = if p.inits a then fail a reason (settle a p) else p
  step p (registered a) = on_command a p
  step p (gave_up a reason) = fail a reason p
  step p (identified a identity) = set_identity a identity p
  step p (triggered a target) = emit_cursor_trigger a target p
  step p (scraped a result) = if p.scrapes a then scrape_settled a result p else p

  unfoldable pub run : Page N → List (Event N) → Page N
  run p [] = p
  run p (e ∷ es) = run (step p e) es
