-- ===== src/Admin.antt =====
-- The settings of the administrator's page: src/stores/adminSettings.ts, with the load of
-- src/stores/wsStatus.ts that a restart awaits. An action is split at its awaits; a restart is in one of six
-- phases.
pub mod Actions
pub mod Phases
pub mod Restart
use playback_sync.Base.{ℕ, zero, suc, Bool, true, false, Option, none, some, List, [], ◌∷◌, String}

pub record WsTuningSettings : Type 0 where
  pub ws_join_timeout_ms : Option ℕ
  pub ws_idle_close_ms : Option ℕ
  pub ws_tombstone_ms : Option ℕ
  pub ws_kick_block_ms : Option ℕ
  pub ws_event_log_size : Option ℕ
  pub ws_rate_limit_events_per_sec : Option ℕ
  pub ws_drift_nudge_threshold_ms : Option ℕ
  pub ws_drift_seek_threshold_ms : Option ℕ
  pub ws_drift_cooldown_ms : Option ℕ

pub record DaemonSettings : Type 0 where
  pub ws_host : Option String
  pub ws_port : Option ℕ
  pub ws_admin_host : Option String
  pub ws_admin_port : Option ℕ

pub record RoomSettings : Type 0 where
  pub restrict_to_admins : Option Bool
  pub default_ttl_seconds : Option ℕ
  pub max_ttl_seconds : Option ℕ
  pub max_clients_per_room : Option ℕ

pub record AdminSecretInfo : Type 0 where
  pub configured : Bool
  pub masked : String
  pub secret_length : ℕ

pub record UpdateStatus : Type 0 where
  pub enabled : Bool
  pub current_version : String
  pub latest_version : Option String
  pub update_available : Bool
  pub release_url : String
  pub last_checked_at : Option ℕ

pub record AdminSettingsSnapshot : Type 0 where
  pub ws_tuning : WsTuningSettings
  pub daemon : DaemonSettings
  pub rooms : RoomSettings
  pub secret : AdminSecretInfo
  pub updates : UpdateStatus

pub data AdminSettingsSection : Type 0 where
  ws_tuning_section : AdminSettingsSection
  daemon_section : AdminSettingsSection
  rooms_section : AdminSettingsSection

-- A patch is its keys and values.
pub data SettingValue : Type 0 where
  num : ℕ → SettingValue
  text : String → SettingValue
  flag : Bool → SettingValue

abbrev pub AdminSettingsPatch : Type 0
AdminSettingsPatch = List (String × SettingValue)

pub data WsUnavailableReason : Type 0 where
  not_installed : WsUnavailableReason
  not_running : WsUnavailableReason

pub record WsStatus : Type 0 where
  pub available : Bool
  pub reason : Option WsUnavailableReason

-- Where a restart waits: for its request, the grace delay, a poll or a pause with so many attempts
-- left, or the load of the status store at the end.
pub data Phase : Type 0 where
  requested : Phase
  grace : Phase
  polling : ℕ → Phase
  pausing : ℕ → Phase
  confirming : Phase
  concluding : Phase

pub data Request : Type 0 where
  fetch_admin_settings : Request
  update_admin_settings : AdminSettingsPatch → Request
  request_reload : Request
  regenerate_admin_secret : Request
  request_restart : Request
  fetch_ws_status : Request
  request_update_check : Request

pub data Output : Type 0 where
  request : Request → Output
  load_ws_status : Output
  delay : ℕ → Output
  show_success : String → Output
  show_warning : String → Output
  show_error : String → Output
  answer : Bool → Output

pub data Task : Type 0 where
  loading_settings : Task
  saving_section : Task
  reloading : Task
  regenerating_secret : Task
  restarting_daemon : Phase → Task
  checking : Task
  toggling : Task

-- `ws_status` is the other store, as far as it is loaded here.
pub record Admin : Type 0 where
  pub ws_tuning : Option WsTuningSettings
  pub daemon : Option DaemonSettings
  pub rooms : Option RoomSettings
  pub secret : Option AdminSecretInfo
  pub updates : Option UpdateStatus
  pub loaded : Bool
  pub loading : Bool
  pub saving : Option AdminSettingsSection
  pub regenerating : Bool
  pub restarting : Bool
  pub checking_for_updates : Bool
  pub ws_status : Option WsStatus
  pub tasks : List Task
  pub out : List Output

unfoldable pub new_admin : Admin
new_admin = record {
  ws_tuning = none;
  daemon = none;
  rooms = none;
  secret = none;
  updates = none;
  loaded = false;
  loading = false;
  saving = none;
  regenerating = false;
  restarting = false;
  checking_for_updates = false;
  ws_status = none;
  tasks = [];
  out = [];
}

-- `stripNulls` on the entries of a section.
abbrev pub strip_nulls : List (String × Option SettingValue) → AdminSettingsPatch
strip_nulls [] = []
strip_nulls ((key, none) ∷ es) = strip_nulls es
strip_nulls ((key, some v) ∷ es) = (key, v) ∷ strip_nulls es

abbrev as_num : Option ℕ → Option SettingValue
as_num none = none
as_num (some n) = some (num n)

abbrev as_text : Option String → Option SettingValue
as_text none = none
as_text (some t) = some (text t)

abbrev as_flag : Option Bool → Option SettingValue
as_flag none = none
as_flag (some b) = some (flag b)

unfoldable pub ws_tuning_entries : WsTuningSettings → List (String × Option SettingValue)
ws_tuning_entries s =
    ("ws_join_timeout_ms", as_num s.ws_join_timeout_ms)
    ∷ ("ws_idle_close_ms", as_num s.ws_idle_close_ms)
    ∷ ("ws_tombstone_ms", as_num s.ws_tombstone_ms)
    ∷ ("ws_kick_block_ms", as_num s.ws_kick_block_ms)
    ∷ ("ws_event_log_size", as_num s.ws_event_log_size)
    ∷ ("ws_rate_limit_events_per_sec", as_num s.ws_rate_limit_events_per_sec)
    ∷ ("ws_drift_nudge_threshold_ms", as_num s.ws_drift_nudge_threshold_ms)
    ∷ ("ws_drift_seek_threshold_ms", as_num s.ws_drift_seek_threshold_ms)
    ∷ ("ws_drift_cooldown_ms", as_num s.ws_drift_cooldown_ms)
    ∷ []

unfoldable pub daemon_entries : DaemonSettings → List (String × Option SettingValue)
daemon_entries s =
    ("ws_host", as_text s.ws_host)
    ∷ ("ws_port", as_num s.ws_port)
    ∷ ("ws_admin_host", as_text s.ws_admin_host)
    ∷ ("ws_admin_port", as_num s.ws_admin_port)
    ∷ []

unfoldable pub room_entries : RoomSettings → List (String × Option SettingValue)
room_entries s =
    ("restrict_to_admins", as_flag s.restrict_to_admins)
    ∷ ("default_ttl_seconds", as_num s.default_ttl_seconds)
    ∷ ("max_ttl_seconds", as_num s.max_ttl_seconds)
    ∷ ("max_clients_per_room", as_num s.max_clients_per_room)
    ∷ []

abbrev stripped {ℓ} :
    {A : Type ℓ} → (A → List (String × Option SettingValue)) → Option A → Option AdminSettingsPatch
stripped entries none = none
stripped entries (some s) = some (strip_nulls (entries s))

unfoldable pub collect_section : AdminSettingsSection → Admin → Option AdminSettingsPatch
unfolding ws_tuning_entries daemon_entries room_entries
collect_section ws_tuning_section a = stripped ws_tuning_entries a.ws_tuning
collect_section daemon_section a = stripped daemon_entries a.daemon
collect_section rooms_section a = stripped room_entries a.rooms

unfoldable pub apply_snapshot : AdminSettingsSnapshot → Admin → Admin
apply_snapshot s a = record a {
  ws_tuning = some s.ws_tuning;
  daemon = some s.daemon;
  rooms = some s.rooms;
  secret = some s.secret;
  updates = some s.updates;
}
