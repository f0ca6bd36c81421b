-- ===== src/Rooms.antt =====
-- The rooms of the dashboard: src/stores/rooms.ts. The objects of rooms are kept in a store, since a
-- playback command keeps the object it found while `refresh` replaces the list. An action is split at its
-- await. `P` is what a request passes on unread.
pub mod Errors
pub mod Actions
pub mod Runs
pub mod Places
pub mod Objects
pub mod Answers
pub mod Flags
pub mod Rollback
use text.Mathlib.Text.{◌==◌ as str_eq}
use playback_sync.Base.{
  ℕ, suc, Bool, true, false, Option, none, some, List, [], ◌∷◌, String, if◌then◌else◌, ◌==◌,
}

pub record ConnectedClient : Type 0 where
  pub client_id : String
  pub nickname : String
  pub is_buffering : Bool
  pub last_seen_ms : ℕ

pub data PlaylistEntrySource : Type 0 where
  scraped : PlaylistEntrySource
  curated : PlaylistEntrySource
  auto_appended : PlaylistEntrySource

pub record PlaylistEntry : Type 0 where
  pub entry_id : String
  pub position : ℕ
  pub provider_id : String
  pub video_id : String
  pub page_url : String
  pub label : Option String
  pub episode_number : Option ℕ
  pub season_number : Option ℕ
  pub source : PlaylistEntrySource
  pub added_by : String
  pub added_at : ℕ
  pub last_seen_at : ℕ

pub record RoomLiveState (N : Type 0) : Type 0 where
  pub connected_count : ℕ
  pub clients : List ConnectedClient
  pub player_state : String
  pub video_pos : N
  pub last_activity_ms : Option ℕ

pub record Room (N : Type 0) : Type 0 where
  pub uuid : String
  pub name : Option String
  pub bootstrap_url : String
  pub single_mode : Bool
  pub freeform_mode : Bool
  pub playlist : List PlaylistEntry
  pub cursor_entry_id : Option String
  pub created_at : ℕ
  pub expires_at : ℕ
  pub share_link : String
  pub live : Option (RoomLiveState N)

pub data PlaybackAction : Type 0 where
  play : PlaybackAction
  pause : PlaybackAction
  seek : PlaybackAction
  reset : PlaybackAction

-- The calls of services/roomsApi.ts and services/playlistApi.ts.
pub data Request (N P : Type 0) : Type 0 where
  list_rooms : Request N P
  create_room : P → Request N P
  delete_room : String → Request N P
  kick_room_client : String → String → Request N P
  send_playback : String → PlaybackAction → Option N → Request N P
  update_room_settings : String → Option Bool → Option Bool → Request N P
  add_entry : String → P → Request N P
  remove_entry : String → String → Request N P
  update_entry : String → String → P → Request N P
  clear_entries : String → Request N P
  set_room_cursor : String → String → Request N P

-- A text of the program, translated, or one of the server.
pub data Toast : Type 0 where
  translated : String → Toast
  from_server : String → Toast

pub data Output (N P : Type 0) : Type 0 where
  request : Request N P → Output N P
  show_error : Toast → Output N P
  answer : Bool → Output N P

-- An action behind its await. `sent_playback` has the object that was found and its snapshot.
pub data Task (N : Type 0) : Type 0 where
  loading_rooms : Task N
  refreshing : Task N
  creating_room : Task N
  removing : String → Task N
  kicking : Task N
  sent_playback : Option (ℕ × RoomLiveState N) → Task N
  settings_update : Task N
  entry_added : Task N
  entry_updated : Task N
  clearing : Task N
  entry_removed : Task N
  cursor_set : Task N

pub record Rooms (N P : Type 0) : Type 0 where
  pub rooms : List ℕ
  pub objects : ℕ → Room N
  pub next : ℕ
  pub loading : Bool
  pub creating : Bool
  pub loaded : Bool
  pub last_created : Option (ℕ × String)
  pub tasks : List (Task N)
  pub out : List (Output N P)

module _ {N : Type 0} where
  -- The objects that a parsed response makes, from the number on.
  unfoldable pub refs : ℕ → List (Room N) → List ℕ
  refs n [] = []
  refs n (r ∷ rs) = n ∷ refs (suc n) rs

  unfoldable pub allocate : ℕ → List (Room N) → (ℕ → Room N) → ℕ → Room N
  allocate n [] objects = objects
  allocate n (r ∷ rs) objects = allocate (suc n) rs (λ j. if j == n then r else objects j)

  -- `this.rooms.find((r) => r.uuid === uuid)`
  unfoldable pub find_room : String → (ℕ → Room N) → List ℕ → Option ℕ
  find_room uuid objects [] = none
  find_room uuid objects (o ∷ os) =
      if str_eq (objects o).uuid uuid then some o else find_room uuid objects os

module _ {N P : Type 0} where
  abbrev pub emit : Output N P → Rooms N P → Rooms N P
  emit o s = record s { out = o ∷ s.out }

  -- Up to the await.
  abbrev pub call : Task N → Request N P → Rooms N P → Rooms N P
  call t r s = record s { tasks = t ∷ s.tasks; out = request r ∷ s.out }

  abbrev pub set_object : ℕ → Room N → Rooms N P → Rooms N P
  set_object o r s = record s { objects = λ j. if j == o then r else s.objects j }

  abbrev pub set_live : ℕ → RoomLiveState N → Rooms N P → Rooms N P
  set_live o l s = set_object o (record (s.objects o) { live = some l }) s

  -- The state as it is declared; `room` stands for objects that no list has yet.
  unfoldable pub new_rooms : Room N → Rooms N P
  new_rooms room = record {
    rooms = [];
    objects = λ j. room;
    next = 0;
    loading = false;
    creating = false;
    loaded = false;
    last_created = none;
    tasks = [];
    out = [];
  }
