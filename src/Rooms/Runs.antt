-- ===== src/Rooms/Runs.antt =====
-- The life of the store of src/stores/rooms.ts: actions are called, and requests are answered in any
-- order. An answer goes to the task at its place among those that wait.
use playback_sync.Base.{ℕ, Bool, Option, none, some, List, [], ◌∷◌, String, get_elem?, erase_idx}
use playback_sync.Number.{Number}
use playback_sync.Rooms.{
  PlaylistEntry, Room, PlaybackAction, Task, loading_rooms, refreshing, creating_room, removing,
  kicking, sent_playback, settings_update, entry_added, entry_updated, clearing, entry_removed,
  cursor_set, Rooms, emit, answer,
}
use playback_sync.Rooms.Errors.{
  Failure, kick_error, settings_error, add_error, update_error, clear_error, remove_entry_error,
  cursor_error,
}
use playback_sync.Rooms.Actions.{
  load, load_resumed, load_failed, replace_rooms, refresh, patch_room_playlist, give_up, reconcile,
  create, create_resumed, create_failed, remove, remove_resumed, remove_failed, kick_client,
  send_playback_command, playback_failed, dismiss_last_created, update_settings, add_playlist_entry,
  update_playlist_entry, clear_playlist, remove_playlist_entry, set_cursor,
}
use mathlib.Core.Bool.{true}

pub data Action (N P : Type 0) : Type 0 where
  load_rooms : Action N P
  refresh_rooms : Action N P
  patch : String → List PlaylistEntry → Option String → Action N P
  make : P → Action N P
  delete : String → Action N P
  kick : String → String → Action N P
  command : String → PlaybackAction → Option N → Action N P
  dismiss : Action N P
  settings : String → Option Bool → Option Bool → Action N P
  add : String → P → Action N P
  edit : String → String → P → Action N P
  clear : String → Action N P
  drop_entry : String → String → Action N P
  move_cursor : String → String → Action N P

-- What a request came back with: a list of rooms, a room and its password, nothing, or a failure.
pub data Reply (N : Type 0) : Type 0 where
  listed : List (Room N) → Reply N
  created : Room N → String → Reply N
  done : Reply N
  failed : Failure → Reply N

pub data Event (N P : Type 0) : Type 0 where
  act : Action N P → Event N P
  replied : ℕ → Reply N → Event N P

module _ {N P : Type 0} where
  -- The catch blocks.
  unfoldable pub catch_failure : Task N → Failure → Rooms N P → Rooms N P
  unfolding load_failed create_failed remove_failed playback_failed kick_error settings_error
      add_error update_error clear_error remove_entry_error cursor_error
  catch_failure loading_rooms f s = load_failed s
  catch_failure refreshing f s = s
  catch_failure creating_room f s = create_failed f s
  catch_failure (removing uuid) f s = remove_failed s
  catch_failure kicking f s = give_up (kick_error f) s
  catch_failure (sent_playback c) f s = playback_failed c f s
  catch_failure settings_update f s = give_up (settings_error f) s
  catch_failure entry_added f s = give_up (add_error f) s
  catch_failure entry_updated f s = give_up (update_error f) s
  catch_failure clearing f s = give_up (clear_error f) s
  catch_failure entry_removed f s = give_up (remove_entry_error f) s
  catch_failure cursor_set f s = give_up (cursor_error f) s

  -- Behind an await that returned nothing that is used; `none` where the request returns something.
  unfoldable pub finish : Task N → Rooms N P → Option (Rooms N P)
  unfolding remove_resumed
  finish loading_rooms s = none
  finish refreshing s = none
  finish creating_room s = none
  finish (removing uuid) s = some (remove_resumed uuid s)
  finish kicking s = some (emit (answer true) s)
  finish (sent_playback c) s = some (reconcile s)
  finish settings_update s = some (reconcile s)
  finish entry_added s = some (reconcile s)
  finish entry_updated s = some (reconcile s)
  finish clearing s = some (reconcile s)
  finish entry_removed s = some (reconcile s)
  finish cursor_set s = some (reconcile s)

  unfoldable pub take_list : Task N → List (Room N) → Rooms N P → Option (Rooms N P)
  unfolding load_resumed replace_rooms
  take_list loading_rooms rs s = some (load_resumed rs s)
  take_list refreshing rs s = some (replace_rooms rs s)
  take_list _ rs s = none

  unfoldable pub take_room : Task N → Room N → String → Rooms N P → Option (Rooms N P)
  unfolding create_resumed
  take_room creating_room r password s = some (create_resumed r password s)
  take_room _ r password s = none

  -- `none` for a reply that the task's request does not have.
  unfoldable pub resume : Task N → Reply N → Rooms N P → Option (Rooms N P)
  unfolding catch_failure finish take_list take_room
  resume t (listed rs) s = take_list t rs s
  resume t (created r password) s = take_room t r password s
  resume t done s = finish t s
  resume t (failed f) s = some (catch_failure t f s)

  abbrev pub waiting : ℕ → Rooms N P → Rooms N P
  waiting k s = record s { tasks = erase_idx s.tasks k }

module _ {N P : Type 0} ⦃n : Number N⦄ where
  unfoldable pub perform : Action N P → Rooms N P → Rooms N P
  unfolding load refresh patch_room_playlist create remove kick_client send_playback_command
      dismiss_last_created update_settings add_playlist_entry update_playlist_entry clear_playlist
      remove_playlist_entry set_cursor
  perform load_rooms s = load s
  perform refresh_rooms s = refresh s
  perform (patch uuid entries cursor) s = patch_room_playlist uuid entries cursor s
  perform (make payload) s = create payload s
  perform (delete uuid) s = remove uuid s
  perform (kick uuid client) s = kick_client uuid client s
  perform (command uuid action pos) s = send_playback_command uuid action pos s
  perform dismiss s = dismiss_last_created s
  perform (settings uuid single freeform) s = update_settings uuid single freeform s
  perform (add uuid entry) s = add_playlist_entry uuid entry s
  perform (edit uuid entry p) s = update_playlist_entry uuid entry p s
  perform (clear uuid) s = clear_playlist uuid s
  perform (drop_entry uuid entry) s = remove_playlist_entry uuid entry s
  perform (move_cursor uuid target) s = set_cursor uuid target s

  unfoldable pub step : Rooms N P → Event N P → Rooms N P
  unfolding perform resume
  step s (act a) = perform a s
  step s (replied k r) = elim (get_elem? s.tasks k) [
    | none ↦ s
    | some t ↦ elim (resume t r (waiting k s)) [ none ↦ s | some u ↦ u ]
  ]

  unfoldable pub run : Rooms N P → List (Event N P) → Rooms N P
  run s [] = s
  run s (e ∷ es) = run (step s e) es
