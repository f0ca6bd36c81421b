-- ===== src/Rooms/Objects.antt =====
-- The objects of rooms that a playback command captured, while lists of rooms come and go in
-- src/stores/rooms.ts.
use playback_sync.Base.{
  ℕ, suc, ◌+◌, ◌<◌, ◌≡◌, subst, none, some, List, [], ◌∷◌, String, arith, All, length, get_elem?,
  All-erase_idx, Ensures, Ensures_or, Option-split_eq, Option-split, some_inj,
}
use playback_sync.Number.{Number}
use playback_sync.Rooms.{
  RoomLiveState, Room, Task, loading_rooms, refreshing, creating_room, removing, kicking,
  sent_playback, Rooms, find_room,
}
use playback_sync.Rooms.Errors.{Failure}
use playback_sync.Rooms.Actions.{
  load, load_resumed, load_failed, replace_rooms, refresh, patch_room_playlist, create,
  create_resumed, create_failed, remove, remove_resumed, remove_failed, kick_client, captured,
  send_playback_command, roll_back, playback_failed, dismiss_last_created, update_settings,
  add_playlist_entry, update_playlist_entry, clear_playlist, remove_playlist_entry, set_cursor,
}
use playback_sync.Rooms.Runs.{
  Action, patch, command, dismiss, Reply, listed, created, done, failed, Event, act, replied,
  catch_failure, finish, take_list, take_room, resume, waiting, perform, step, run,
}
use playback_sync.Rooms.Places.{
  refs-below, All-find_room, WritesBelow, WritesBelow-weaken, lt-weaken, All-keep,
}

module _ {N P : Type 0} where
  -- All objects that are listed or captured have been made.
  pub record IsMade (s : Rooms N P) : Type 0 where
    pub rooms : All (λ o. o < s.next) s.rooms
    pub tasks : All (WritesBelow s.next) s.tasks

  catch_failure-IsMade :
      (t : Task N) (f : Failure) (s : Rooms N P) → IsMade s → IsMade (catch_failure t f s)
  unfolding catch_failure load_failed create_failed remove_failed playback_failed
  catch_failure-IsMade (sent_playback none) f s h =
      unfold roll_back in record { rooms = h.rooms; tasks = h.tasks }
  catch_failure-IsMade (sent_playback (some c)) f s h =
      unfold roll_back in record { rooms = h.rooms; tasks = h.tasks }
  catch_failure-IsMade _ f s h = record { rooms = h.rooms; tasks = h.tasks }

  finish-IsMade : (t : Task N) (s : Rooms N P) → IsMade s → Ensures IsMade (finish t s)
  unfolding finish remove_resumed refresh
  finish-IsMade loading_rooms s h = tt
  finish-IsMade refreshing s h = tt
  finish-IsMade creating_room s h = tt
  finish-IsMade (removing uuid) s h = record {
    rooms = All-keep (λ o. o < s.next) _ s.rooms h.rooms;
    tasks = h.tasks;
  }
  finish-IsMade kicking s h = record { rooms = h.rooms; tasks = h.tasks }
  finish-IsMade _ s h = record { rooms = h.rooms; tasks = (tt, h.tasks) }

  pub replace_rooms-IsMade :
      (rs : List (Room N)) (s : Rooms N P) → IsMade s → IsMade (replace_rooms rs s)
  unfolding replace_rooms
  replace_rooms-IsMade rs s h = record {
    rooms = refs-below (s.next + length rs) s.next rs (omega arith);
    tasks = WritesBelow-weaken s.next (s.next + length rs) s.tasks (omega arith) h.tasks;
  }

  take_list-IsMade :
      (t : Task N) (rs : List (Room N)) (s : Rooms N P)
      → IsMade s
      → Ensures IsMade (take_list t rs s)
  unfolding take_list load_resumed
  take_list-IsMade loading_rooms rs s h =
      let u = replace_rooms-IsMade rs s h in record { rooms = u.rooms; tasks = u.tasks }
  take_list-IsMade refreshing rs s h = replace_rooms-IsMade rs s h
  take_list-IsMade _ rs s h = tt

  take_room-IsMade :
      (t : Task N) (r : Room N) (password : String) (s : Rooms N P)
      → IsMade s
      → Ensures IsMade (take_room t r password s)
  unfolding take_room create_resumed
  take_room-IsMade loading_rooms r password s h = tt
  take_room-IsMade creating_room r password s h = record {
    rooms = (omega arith, lt-weaken s.next (suc s.next) s.rooms (omega arith) h.rooms);
    tasks = WritesBelow-weaken s.next (suc s.next) s.tasks (omega arith) h.tasks;
  }
  take_room-IsMade _ r password s h = tt

  pub resume-IsMade :
      (t : Task N) (r : Reply N) (s : Rooms N P) → IsMade s → Ensures IsMade (resume t r s)
  unfolding resume
  resume-IsMade t (listed rs) s h = take_list-IsMade t rs s h
  resume-IsMade t (created r password) s h = take_room-IsMade t r password s h
  resume-IsMade t done s h = finish-IsMade t s h
  resume-IsMade t (failed f) s h = catch_failure-IsMade t f s h

  abbrev pub Found : String → Rooms N P → ℕ × RoomLiveState N → Type 0
  Found uuid s c = (find_room uuid s.objects s.rooms ≡ some c.0) × ((s.objects c.0).live ≡ some c.1)

  pub captured-Found :
      (uuid : String) (s : Rooms N P) (c : ℕ × RoomLiveState N)
      → captured uuid s ≡ some c
      → Found uuid s c
  unfolding captured
  captured-Found uuid s c =
      Option-split_eq (λ x. x ≡ some c → Found uuid s c) (find_room uuid s.objects s.rooms) none _
        (λ q e. cc)
        (λ o q.
          Option-split_eq (λ x. x ≡ some c → Found uuid s c) (s.objects o).live none _ (λ r e. cc)
            (λ live r e. subst (Found uuid s) (some_inj (o, live) c e) (q, r)))

module _ {N P : Type 0} ⦃n : Number N⦄ where
  perform-IsMade : (a : Action N P) (s : Rooms N P) → IsMade s → IsMade (perform a s)
  unfolding perform load refresh patch_room_playlist create remove kick_client send_playback_command
      dismiss_last_created update_settings add_playlist_entry update_playlist_entry clear_playlist
      remove_playlist_entry set_cursor
  perform-IsMade (patch uuid entries cursor) s h =
      Option-split IsMade (find_room uuid s.objects s.rooms) s _ h
        (λ o e. record { rooms = h.rooms; tasks = h.tasks })
  perform-IsMade (command uuid action pos) s h =
      Option-split_eq IsMade (captured uuid s) _ _
        (λ e. record { rooms = h.rooms; tasks = (tt, h.tasks) })
        (λ c e. record {
          rooms = h.rooms;
          tasks = (
            All-find_room (λ o. o < s.next) uuid s.objects s.rooms c.0 h.rooms
                (captured-Found uuid s c e).0,
            h.tasks,
          );
        })
  perform-IsMade dismiss s h = record { rooms = h.rooms; tasks = h.tasks }
  perform-IsMade _ s h = record { rooms = h.rooms; tasks = (tt, h.tasks) }

  step-IsMade : (s : Rooms N P) (e : Event N P) → IsMade s → IsMade (step s e)
  unfolding step
  step-IsMade s (act a) h = perform-IsMade a s h
  step-IsMade s (replied k r) h =
      Option-split_eq IsMade (get_elem? s.tasks k) s _ (λ e. h)
        (λ t e. Ensures_or IsMade (resume t r (waiting k s)) s h (
          resume-IsMade t r (waiting k s) (record {
            rooms = h.rooms;
            tasks = All-erase_idx (WritesBelow s.next) s.tasks k h.tasks;
          })))

  pub run-IsMade : (s : Rooms N P) (es : List (Event N P)) → IsMade s → IsMade (run s es)
  unfolding run
  run-IsMade s [] h = h
  run-IsMade s (e ∷ es) h = run-IsMade (step s e) es (step-IsMade s e h)
