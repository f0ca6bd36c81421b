-- ===== src/Admin/Actions.antt =====
-- The actions of src/stores/adminSettings.ts, up to their awaits and behind them.
use playback_sync.Base.{
  ℕ, zero, suc, Bool, true, false, Option, none, some, [], ◌∷◌, String, if◌then◌else◌, ltb,
  get_elem?, erase_idx,
}
use playback_sync.Rooms.Errors.{Failure, extract_error_message}
use playback_sync.Admin.{
  AdminSecretInfo, UpdateStatus, AdminSettingsSnapshot, AdminSettingsSection, flag, not_installed,
  WsStatus, Phase, requested, grace, polling, pausing, confirming, concluding, fetch_admin_settings,
  update_admin_settings, request_reload, regenerate_admin_secret, request_restart, fetch_ws_status,
  request_update_check, Output, request, load_ws_status, delay, show_success, show_warning,
  show_error, answer, Task, loading_settings, saving_section, reloading, regenerating_secret,
  restarting_daemon, checking, toggling, Admin, collect_section, apply_snapshot,
}

abbrev pub restart_grace_ms : ℕ
restart_grace_ms = 2000

abbrev pub restart_poll_interval_ms : ℕ
restart_poll_interval_ms = 1000

abbrev pub restart_poll_attempts : ℕ
restart_poll_attempts = 20

pub data Reply : Type 0 where
  done : Reply
  elapsed : Reply
  settings : AdminSettingsSnapshot → Reply
  reloaded : ℕ → Reply  -- how many keys changed
  secret_info : AdminSecretInfo → Reply
  update_info : UpdateStatus → Reply
  status : WsStatus → Reply
  failed : Failure → Reply

abbrev pub emit : Output → Admin → Admin
emit o a = record a { out = o ∷ a.out }

abbrev pub wait : Task → Output → Admin → Admin
wait t o a = record a { tasks = t ∷ a.tasks; out = o ∷ a.out }

-- `extractErrorMessage(error) ?? t('playbacksync', text)`
abbrev pub message_or : String → Failure → String
unfolding extract_error_message
message_or text f = elim (extract_error_message f) [ none ↦ text | some m ↦ m ]

unfoldable pub load : Admin → Admin
load a = wait loading_settings (request fetch_admin_settings) (record a { loading = true })

unfoldable pub load_resumed : Reply → Admin → Option Admin
unfolding apply_snapshot
load_resumed (settings s) a = some (record (apply_snapshot s a) { loaded = true; loading = false })
load_resumed (failed f) a =
    some (emit (show_error "Could not load settings.") (record a { loading = false }))
load_resumed _ a = none

unfoldable pub save_section : AdminSettingsSection → Admin → Admin
unfolding collect_section
save_section section a = elim (collect_section section a) [
  | none ↦ emit (answer false) a
  | some patch ↦
      wait saving_section (request (update_admin_settings patch))
        (record a { saving = some section })
]

unfoldable pub save_resumed : Reply → Admin → Option Admin
unfolding apply_snapshot
save_resumed (settings s) a = some (
    emit (answer true)
      (emit (show_success "Saved") (record (apply_snapshot s a) { saving = none })))
save_resumed (failed f) a = some (
    emit (answer false)
      (emit (show_error (message_or "Could not save settings." f)) (record a { saving = none })))
save_resumed _ a = none

unfoldable pub reload_daemon : Admin → Admin
reload_daemon a = wait reloading (request request_reload) a

unfoldable pub reload_resumed : Reply → Admin → Option Admin
reload_resumed (reloaded changed) a =
    some (if ltb 0 changed then emit (show_success "Applied to the running daemon") a else a)
reload_resumed (failed f) a = some (
    emit
      (show_warning
        "Saved, but the daemon could not be reached to apply it live — the change takes effect on the next restart.")
      a)
reload_resumed _ a = none

unfoldable pub regenerate_secret : Admin → Admin
regenerate_secret a =
    wait regenerating_secret (request regenerate_admin_secret) (record a { regenerating = true })

unfoldable pub secret_resumed : Reply → Admin → Option Admin
secret_resumed (secret_info s) a = some (
    emit (answer true) (
      emit (show_success "Admin secret regenerated")
        (record a { secret = some s; regenerating = false })))
secret_resumed (failed f) a = some (
    emit (answer false)
      (emit (show_error "Could not regenerate admin secret.") (record a { regenerating = false })))
secret_resumed _ a = none

unfoldable pub check_for_updates : Admin → Admin
check_for_updates a =
    wait checking (request request_update_check) (record a { checking_for_updates = true })

unfoldable pub check_resumed : Reply → Admin → Option Admin
check_resumed (update_info u) a = some (
    emit (show_success "Update check complete")
      (record a { updates = some u; checking_for_updates = false }))
check_resumed (failed f) a =
    some
      (emit (show_error "Could not check for updates.") (record a { checking_for_updates = false }))
check_resumed _ a = none

unfoldable pub set_update_check_enabled : Bool → Admin → Admin
set_update_check_enabled enabled a =
    wait toggling (request (update_admin_settings (("update_check_enabled", flag enabled) ∷ []))) a

unfoldable pub toggle_resumed : Reply → Admin → Option Admin
unfolding apply_snapshot
toggle_resumed (settings s) a = some (apply_snapshot s a)
toggle_resumed (failed f) a = some (emit (show_error "Could not save settings.") a)
toggle_resumed _ a = none

unfoldable pub restart_daemon : Admin → Admin
restart_daemon a =
    wait (restarting_daemon requested) (request request_restart) (record a { restarting = true })

-- The loop's test: a poll, or the load that concludes.
unfoldable pub next_poll : ℕ → Admin → Admin
next_poll zero a = wait (restarting_daemon concluding) load_ws_status a
next_poll (suc left) a = wait (restarting_daemon (polling left)) (request fetch_ws_status) a

-- The end, with the `finally`.
abbrev pub restart_over : Output → Bool → Admin → Admin
restart_over toast back a = emit (answer back) (emit toast (record a { restarting = false }))

-- `load` of the status store: a failure counts as not installed.
unfoldable pub status_loaded : Reply → Admin → Option Admin
status_loaded (status s) a = some (record a { ws_status = some s })
status_loaded (failed f) a =
    some (record a { ws_status = some (record { available = false; reason = some not_installed }) })
status_loaded _ a = none

abbrev pub pause : ℕ → Admin → Admin
pause left a = wait (restarting_daemon (pausing left)) (delay restart_poll_interval_ms) a

unfoldable pub restart_resumed : Phase → Reply → Admin → Option Admin
unfolding next_poll status_loaded
restart_resumed requested done a = some (wait (restarting_daemon grace) (delay restart_grace_ms) a)
restart_resumed requested (failed f) a =
    some
      (restart_over (show_error (message_or "Could not restart the WebSocket daemon." f)) false a)
restart_resumed requested _ a = none
restart_resumed grace elapsed a = some (next_poll restart_poll_attempts a)
restart_resumed grace _ a = none
restart_resumed (polling left) (status s) a =
    some
      (if s.available then wait (restarting_daemon confirming) load_ws_status a else pause left a)
restart_resumed (polling left) (failed f) a = some (pause left a)
restart_resumed (polling left) _ a = none
restart_resumed (pausing left) elapsed a = some (next_poll left a)
restart_resumed (pausing left) _ a = none
restart_resumed confirming r a = elim (status_loaded r a) [
  | none ↦ none
  | some u ↦ some (restart_over (show_success "WebSocket daemon restarted") true u)
]
restart_resumed concluding r a = elim (status_loaded r a) [
  | none ↦ none
  | some u ↦ some (
      restart_over
        (show_error
          "The daemon did not come back online. It only restarts automatically when run under a supervisor (Docker Compose with restart: unless-stopped, systemd, etc.). See the operator guide.")
        false u)
]

-- What goes on behind an await; `none` for a reply that is not one of its.
unfoldable pub resume : Task → Reply → Admin → Option Admin
unfolding load_resumed save_resumed reload_resumed secret_resumed check_resumed toggle_resumed
    restart_resumed
resume loading_settings r a = load_resumed r a
resume saving_section r a = save_resumed r a
resume reloading r a = reload_resumed r a
resume regenerating_secret r a = secret_resumed r a
resume (restarting_daemon p) r a = restart_resumed p r a
resume checking r a = check_resumed r a
resume toggling r a = toggle_resumed r a

abbrev pub waiting : ℕ → Admin → Admin
waiting k a = record a { tasks = erase_idx a.tasks k }

unfoldable pub reply : ℕ → Reply → Admin → Option Admin
unfolding resume
reply k r a = elim (get_elem? a.tasks k) [ none ↦ none | some t ↦ resume t r (waiting k a) ]
