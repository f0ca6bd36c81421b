-- ===== src/Background/Dispatch.antt =====
-- Frame routing and the messages to a tab's content scripts, and the ends of a tab's session, in
-- extension/entrypoints/background.ts.
use playback_sync.Base.{ℕ, Bool, true, false, Option, none, some, List, [], ◌∷◌, if◌then◌else◌}
use playback_sync.Messages.{AuthoritativeCommand, cursor_change, Notice}
use playback_sync.Session.Windows.{record_command}
use playback_sync.Tabs.{get_tab}
use playback_sync.Background.{
  TabFrames, command, notice, room_active, reevaluate, message, popup_cleared, set_colored, Tab,
  emit, mutate,
}

unfoldable pub page_frame_of : ℕ → Option TabFrames → TabFrames
page_frame_of frame none = record { page_frame = frame; media_frame = none }
page_frame_of frame (some f) = record f { page_frame = frame }

unfoldable pub media_frame_of : ℕ → Option TabFrames → TabFrames
media_frame_of frame none = record { page_frame = 0; media_frame = some frame }
media_frame_of frame (some f) = record f { media_frame = some frame }

unfoldable pub without_media : Option TabFrames → Option TabFrames
without_media none = none
without_media (some f) = some (record f { media_frame = none })

-- `frames?.pageFrameId` and `frames?.mediaFrameId`
unfoldable pub page_target : Option TabFrames → Option ℕ
page_target none = none
page_target (some f) = some f.page_frame

unfoldable pub media_target : Option TabFrames → Option ℕ
media_target none = none
media_target (some f) = f.media_frame

abbrev pub has_session : Option ℕ → Bool
has_session none = false
has_session (some id) = true

abbrev pub is_cursor_change : {N : Type 0} → AuthoritativeCommand N → Bool
is_cursor_change (cursor_change url) = true
is_cursor_change _ = false

module _ {N : Type 0} where
  unfoldable pub set_page_frame : ℕ → Tab N → Tab N
  unfolding page_frame_of
  set_page_frame frame t = record t { frames = some (page_frame_of frame t.frames) }

  unfoldable pub set_media_frame : ℕ → Tab N → Tab N
  unfolding media_frame_of
  set_media_frame frame t = record t { frames = some (media_frame_of frame t.frames) }

  unfoldable pub clear_media_frame : Tab N → Tab N
  unfolding without_media
  clear_media_frame t = record t { frames = without_media t.frames }

  unfoldable pub target_of : AuthoritativeCommand N → Option TabFrames → Option ℕ
  unfolding page_target media_target
  target_of cmd frames = if is_cursor_change cmd then page_target frames else media_target frames

  -- `dispatchCommand` behind its recorded command: nothing is sent to a tab with no cache entry.
  unfoldable pub send_command : AuthoritativeCommand N → Tab N → Tab N
  unfolding target_of get_tab
  send_command cmd t = elim (get_tab t.id t.cache) [
    | none ↦ t
    | some entry ↦ emit (message (target_of cmd t.frames) (command cmd)) t
  ]

  unfoldable pub dispatch_command : ℕ → AuthoritativeCommand N → Tab N → Tab N
  unfolding send_command
  dispatch_command now cmd t = elim t.session [
    | none ↦ t
    | some id ↦ send_command cmd (mutate id (λ s. record_command now s cmd) t)
  ]

  unfoldable pub dispatch_all : ℕ → List (AuthoritativeCommand N) → Tab N → Tab N
  unfolding dispatch_command
  dispatch_all now [] t = t
  dispatch_all now (c ∷ cs) t = dispatch_all now cs (dispatch_command now c t)

  -- The `catch` of a command's message: a frame that could be targeted is gone.
  unfoldable pub command_rejected : AuthoritativeCommand N → Option ℕ → Tab N → Tab N
  unfolding clear_media_frame
  command_rejected cmd none t = t
  command_rejected cmd (some target) t = if is_cursor_change cmd then t else clear_media_frame t

  unfoldable pub dispatch_notice : Notice N → Tab N → Tab N
  unfolding page_target
  dispatch_notice n t = emit (message (page_target t.frames) (notice n)) t

  unfoldable pub push_reevaluate : Tab N → Tab N
  unfolding page_target
  push_reevaluate t = emit (message (page_target t.frames) reevaluate) t

  unfoldable pub push_room_active : Tab N → Tab N
  push_room_active t = emit (message none (room_active (has_session t.session))) t

  unfoldable pub clear_nav_guard : Tab N → Tab N
  clear_nav_guard t = record t {
    guarded = none;
    nav_timer = false;
    reload_timer = false;
    request_timer = false;
    reconcile_timer = false;
  }

  -- `tearDownTab` behind its `await clearCreds`.
  unfoldable pub torn_down : Tab N → Tab N
  unfolding clear_nav_guard push_room_active
  torn_down t = push_room_active (
      emit (set_colored false)
        (emit popup_cleared (clear_nav_guard (record t { session = none; frames = none }))))
