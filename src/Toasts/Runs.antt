-- ===== src/Toasts/Runs.antt =====
-- The notices and what else happens to the page's UI in extension/src/ui/notifications.ts: the shadow root
-- is ready, the context is invalidated, a timer fires, an element has left.
use text.Mathlib.Text.{◌==◌ as str_eq}
use playback_sync.Base.{
  ℕ, true, false, not, Option, none, some, List, [], ◌∷◌, ◌++◌, String, if◌then◌else◌,
}
use playback_sync.Messages.{Notice, welcome, peer}
use playback_sync.Protocol.Frames.{NoticeEvent}
use playback_sync.Toasts.{
  Toasts, init_notifications, invalidated, remove_toast, show_text, dismiss_toast, show_badge,
  dismiss_badge, badge_removed, set_flag,
}
use playback_sync.Toasts.Format.{format_notice}

pub data Event (N : Type 0) : Type 0 where
  registered : Event N
  noticed : Notice N → Event N
  mount_ready : Event N
  invalid : Event N
  toast_timer : ℕ → Event N
  toast_gone : ℕ → Event N
  badge_timer : ℕ → Event N
  badge_gone : ℕ → Event N

-- The actor whose seeks are one toast.
abbrev pub seek_key : {N : Type 0} → Notice N → Option String
seek_key (peer NoticeEvent.seek actor (some id) d) = if str_eq id "" then none else some id
seek_key _ = none

module _ {N : Type 0} where
  abbrev pub ensure_mounted : Toasts N → Toasts N
  ensure_mounted s = if s.mounting then s else record s { mounting = true; awaiting = true }

  unfoldable pub element_gone : ℕ → Toasts N → Toasts N
  unfolding remove_toast
  element_gone id s = remove_toast id (record s { leaving = set_flag id false s.leaving })

module _ {N : Type 0} (floor : N → Option ℕ) (show : ℕ → String) (trim : String → String) where
  unfoldable pub render : Notice N → Toasts N → Toasts N
  unfolding show_badge show_text format_notice
  render (welcome nickname) s = show_badge (trim nickname) s
  render (peer event actor actor_id d) s =
      elim (format_notice floor show (peer event actor actor_id d)) [
        | none ↦ s
        | some text ↦ show_text (seek_key (peer event actor actor_id d)) text s
      ]

  unfoldable pub render_all : List (Notice N) → Toasts N → Toasts N
  unfolding render
  render_all [] s = s
  render_all (n ∷ ns) s = render_all ns (render n s)

  unfoldable pub show_notice : Notice N → Toasts N → Toasts N
  unfolding render
  show_notice n s =
      if not s.registered
      then s
      else if s.mounted
      then render n s
      else ensure_mounted (record s { pending = s.pending ++ n ∷ [] })

  -- Behind the await of the mount.
  unfoldable pub mount_resumed : Toasts N → Toasts N
  unfolding render_all
  mount_resumed s =
      let u = record s { awaiting = false } in
      if not s.registered
      then u
      else render_all s.pending (record u { mounted = true; pending = [] })

  unfoldable pub step : Toasts N → Event N → Toasts N
  unfolding init_notifications invalidated show_notice mount_resumed dismiss_toast element_gone
      dismiss_badge badge_removed
  step s registered = init_notifications s
  step s (noticed n) = show_notice n s
  step s mount_ready = if s.awaiting then mount_resumed s else s
  step s invalid = invalidated s
  step s (toast_timer id) = if s.ticking id then dismiss_toast id s else s
  step s (toast_gone id) = if s.leaving id then element_gone id s else s
  step s (badge_timer id) = if s.badge_ticking id then dismiss_badge id s else s
  step s (badge_gone id) = if s.badge_leaving id then badge_removed id s else s

  unfoldable pub run : Toasts N → List (Event N) → Toasts N
  run s [] = s
  run s (e ∷ es) = run (step s e) es
