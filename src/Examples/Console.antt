-- ===== src/Examples/Console.antt =====
-- A restart of the daemon that comes back at the second poll.
use playback_sync.Base.{◌+◌, ◌≤◌, true, ◌≡◌, refl, none, some, List, [], ◌∷◌, length}
use playback_sync.Admin.{
  WsStatus, Admin, new_admin, show_success, Output, Request, daemon_section, collect_section, text,
  num,
}
use playback_sync.Admin.Actions.{Reply, done, elapsed, status, failed, restart_daemon}
use playback_sync.Admin.Phases.{polls}
use playback_sync.Admin.Restart.{attend, Outcome, attend-restart_daemon}

abbrev up : WsStatus
up = record { available = true; reason = none }

abbrev comes_back : List Reply
comes_back = done ∷ elapsed ∷ failed none ∷ elapsed ∷ status up ∷ status up ∷ []

abbrev restarted : Admin
restarted = record new_admin {
  ws_status = some up;
  out =
      Output.answer true
      ∷ show_success "WebSocket daemon restarted"
      ∷ Output.load_ws_status
      ∷ Output.request Request.fetch_ws_status
      ∷ Output.delay 1000
      ∷ Output.request Request.fetch_ws_status
      ∷ Output.delay 2000
      ∷ Output.request Request.request_restart
      ∷ [];
}

attended : attend comes_back (restart_daemon new_admin) ≡ some restarted
unfolding attend restart_daemon new_admin
attended = refl

no_tasks : new_admin.tasks ≡ []
unfolding new_admin
no_tasks = refl

attend-restart_daemon_example :
    (length comes_back ≤ 43)
    × (polls restarted.out ≤ 20 + polls new_admin.out)
    × Outcome new_admin restarted
attend-restart_daemon_example =
    attend-restart_daemon new_admin restarted comes_back no_tasks attended

-- Fields that are not filled in are not sent.
abbrev half_filled : Admin
half_filled = record new_admin {
  daemon = some (record {
    ws_host = some "0.0.0.0";
    ws_port = none;
    ws_admin_host = none;
    ws_admin_port = some 8766;
  });
}

sent_fields :
    collect_section daemon_section half_filled
    ≡ some (("ws_host", text "0.0.0.0") ∷ ("ws_admin_port", num 8766) ∷ [])
unfolding collect_section
sent_fields = refl
