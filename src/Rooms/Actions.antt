-- ===== src/Rooms/Actions.antt =====
-- The actions of src/stores/rooms.ts, up to their awaits and behind them.
use text.Mathlib.Text.{◌==◌ as str_eq}
use playback_sync.Base.{
  ℕ, suc, ◌+◌, Bool, true, false, not, Option, none, some, List, ◌∷◌, String, if◌then◌else◌, ◌==◌,
  keep, length,
}
use playback_sync.Number.{Number}
use playback_sync.Rooms.{
  PlaylistEntry, RoomLiveState, Room, PlaybackAction, play, pause, seek, reset, list_rooms,
  create_room, delete_room, kick_room_client, send_playback, update_room_settings, add_entry,
  remove_entry, update_entry, clear_entries, set_room_cursor, Toast, translated, show_error, answer,
  loading_rooms, refreshing, creating_room, removing, kicking, sent_playback, settings_update,
  entry_added, entry_updated, clearing, entry_removed, cursor_set, Rooms, refs, allocate, find_room,
  emit, call, set_object, set_live,
}
use playback_sync.Rooms.Errors.{Failure, create_error, playback_error}

unfoldable pub apply_optimistic_playback :
    {N : Type 0} ⦃n : Number N⦄ → RoomLiveState N → PlaybackAction → Option N → RoomLiveState N
apply_optimistic_playback live play pos = record live { player_state = "playing" }
apply_optimistic_playback live pause pos = record live { player_state = "paused" }
apply_optimistic_playback live seek none = live
apply_optimistic_playback live seek (some pos) = record live { video_pos = pos }
apply_optimistic_playback ⦃n⦄ live reset pos = record live {
  player_state = "paused";
  video_pos = n.lit 0;
}

module _ {N P : Type 0} where
  unfoldable pub load : Rooms N P → Rooms N P
  load s = call loading_rooms list_rooms (record s { loading = true })

  -- `this.rooms = await listRooms()` behind the await.
  unfoldable pub replace_rooms : List (Room N) → Rooms N P → Rooms N P
  unfolding refs allocate
  replace_rooms rs s = record s {
    rooms = refs s.next rs;
    objects = allocate s.next rs s.objects;
    next = s.next + length rs;
    loaded = true;
  }

  unfoldable pub load_resumed : List (Room N) → Rooms N P → Rooms N P
  unfolding replace_rooms
  load_resumed rs s = record (replace_rooms rs s) { loading = false }

  unfoldable pub load_failed : Rooms N P → Rooms N P
  load_failed s =
      emit (show_error (translated "Could not load rooms.")) (record s { loading = false })

  unfoldable pub refresh : Rooms N P → Rooms N P
  refresh s = call refreshing list_rooms s

  unfoldable pub patch_room_playlist :
      String → List PlaylistEntry → Option String → Rooms N P → Rooms N P
  unfolding find_room
  patch_room_playlist uuid entries cursor s = elim (find_room uuid s.objects s.rooms) [
    | none ↦ s
    | some o ↦
        set_object o (record (s.objects o) { playlist = entries; cursor_entry_id = cursor }) s
  ]

  -- A failed action shows its error and returns false.
  abbrev pub give_up : Toast → Rooms N P → Rooms N P
  give_up toast s = emit (answer false) (emit (show_error toast) s)

  -- A change that the server took: `void this.refresh()` and true.
  abbrev pub reconcile : Rooms N P → Rooms N P
  unfolding refresh
  reconcile s = emit (answer true) (refresh s)

  unfoldable pub create : P → Rooms N P → Rooms N P
  create payload s = call creating_room (create_room payload) (record s { creating = true })

  unfoldable pub create_resumed : Room N → String → Rooms N P → Rooms N P
  create_resumed room password s = emit (answer true) (record s {
    rooms = s.next ∷ s.rooms;
    objects = λ j. if j == s.next then room else s.objects j;
    next = suc s.next;
    last_created = some (s.next, password);
    creating = false;
  })

  unfoldable pub create_failed : Failure → Rooms N P → Rooms N P
  unfolding create_error
  create_failed f s = give_up (create_error f) (record s { creating = false })

  unfoldable pub remove : String → Rooms N P → Rooms N P
  remove uuid s = call (removing uuid) (delete_room uuid) s

  unfoldable pub remove_resumed : String → Rooms N P → Rooms N P
  remove_resumed uuid s =
      emit (answer true)
        (record s { rooms = keep (λ o. not (str_eq (s.objects o).uuid uuid)) s.rooms })

  unfoldable pub remove_failed : Rooms N P → Rooms N P
  remove_failed s = give_up (translated "Could not delete room.") s

  unfoldable pub kick_client : String → String → Rooms N P → Rooms N P
  kick_client uuid client s = call kicking (kick_room_client uuid client) s

  -- The room that was found and its live state, if it has one.
  unfoldable pub captured : String → Rooms N P → Option (ℕ × RoomLiveState N)
  unfolding find_room
  captured uuid s = elim (find_room uuid s.objects s.rooms) [
    | none ↦ none
    | some o ↦ elim (s.objects o).live [ none ↦ none | some live ↦ some (o, live) ]
  ]

  unfoldable pub send_playback_command :
      ⦃n : Number N⦄ → String → PlaybackAction → Option N → Rooms N P → Rooms N P
  unfolding captured apply_optimistic_playback
  send_playback_command uuid action pos s = elim (captured uuid s) [
    | none ↦ call (sent_playback none) (send_playback uuid action pos) s
    | some (o, live) ↦
        call (sent_playback (some (o, live))) (send_playback uuid action pos)
          (set_live o (apply_optimistic_playback live action pos) s)
  ]

  -- `room.live = snapshot`
  unfoldable pub roll_back : Option (ℕ × RoomLiveState N) → Rooms N P → Rooms N P
  roll_back none s = s
  roll_back (some (o, snapshot)) s = set_live o snapshot s

  unfoldable pub playback_failed : Option (ℕ × RoomLiveState N) → Failure → Rooms N P → Rooms N P
  unfolding roll_back playback_error
  playback_failed c f s = give_up (playback_error f) (roll_back c s)

  unfoldable pub dismiss_last_created : Rooms N P → Rooms N P
  dismiss_last_created s = record s { last_created = none }

  unfoldable pub update_settings : String → Option Bool → Option Bool → Rooms N P → Rooms N P
  update_settings uuid single freeform s =
      call settings_update (update_room_settings uuid single freeform) s

  unfoldable pub add_playlist_entry : String → P → Rooms N P → Rooms N P
  add_playlist_entry uuid entry s = call entry_added (add_entry uuid entry) s

  unfoldable pub update_playlist_entry : String → String → P → Rooms N P → Rooms N P
  update_playlist_entry uuid entry patch s = call entry_updated (update_entry uuid entry patch) s

  unfoldable pub clear_playlist : String → Rooms N P → Rooms N P
  clear_playlist uuid s = call clearing (clear_entries uuid) s

  unfoldable pub remove_playlist_entry : String → String → Rooms N P → Rooms N P
  remove_playlist_entry uuid entry s = call entry_removed (remove_entry uuid entry) s

  unfoldable pub set_cursor : String → String → Rooms N P → Rooms N P
  set_cursor uuid target s = call cursor_set (set_room_cursor uuid target) s
