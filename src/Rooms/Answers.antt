-- ===== src/Rooms/Answers.antt =====
-- What the actions of src/stores/rooms.ts return and show.
use playback_sync.Base.{
  ℕ, zero, suc, ◌+◌, true, false, ◌≡◌, refl, none, some, List, [], ◌∷◌, String, arith, get_elem?,
  erase_idx, Option-split, Ensures, Ensures-map, Ensures_or, Option-split_eq, subst, some_inj,
}
use playback_sync.Number.{Number}
use playback_sync.Rooms.{
  Room, translated, Output, request, show_error, answer, Task, loading_rooms, refreshing,
  creating_room, removing, kicking, sent_playback, Rooms, new_rooms, find_room,
}
use playback_sync.Rooms.Errors.{Failure}
use playback_sync.Rooms.Actions.{
  load, load_resumed, load_failed, replace_rooms, refresh, patch_room_playlist, create,
  create_resumed, create_failed, remove, remove_resumed, remove_failed, kick_client, captured,
  send_playback_command, roll_back, playback_failed, dismiss_last_created, update_settings,
  add_playlist_entry, update_playlist_entry, clear_playlist, remove_playlist_entry, set_cursor,
}
use playback_sync.Rooms.Runs.{
  Action, load_rooms, refresh_rooms, patch, command, dismiss, Reply, listed, created, done, failed,
  Event, act, replied, catch_failure, finish, take_list, take_room, resume, waiting, perform, step,
  run,
}

-- What an action owes its caller: an answer, if it returns a Boolean.
abbrev owes : {N : Type 0} → Task N → ℕ
owes loading_rooms = 0
owes refreshing = 0
owes _ = 1

abbrev pub owed : {N : Type 0} → List (Task N) → ℕ
owed [] = 0
owed (t ∷ ts) = owes t + owed ts

module _ {N : Type 0} where
  owed-erase_idx :
      (ts : List (Task N)) (k : ℕ) (t : Task N)
      → get_elem? ts k ≡ some t
      → owed ts ≡ owes t + owed (erase_idx ts k)
  owed-erase_idx [] k t e = cc
  owed-erase_idx (x ∷ ts) zero t e =
      subst (λ y. owed (x ∷ ts) ≡ owes y + owed ts) (some_inj x t e) refl
  owed-erase_idx (x ∷ ts) (suc k) t e = omega (arith, owed-erase_idx ts k t e)

module _ {N P : Type 0} where
  abbrev asks : Action N P → ℕ
  asks load_rooms = 0
  asks refresh_rooms = 0
  asks (patch uuid entries cursor) = 0
  asks dismiss = 0
  asks _ = 1

  -- The calls of actions that return a Boolean.
  abbrev pub calls : List (Event N P) → ℕ
  calls [] = 0
  calls (act a ∷ es) = asks a + calls es
  calls (replied k r ∷ es) = calls es

  abbrev pub answers : List (Output N P) → ℕ
  answers [] = 0
  answers (answer b ∷ os) = 1 + answers os
  answers (_ ∷ os) = answers os

  -- Newest first: a false answer follows a message of its own, and all other messages are of
  -- a failed load.
  abbrev pub IsPaired : List (Output N P) → Type 0
  IsPaired [] = Unit
  IsPaired (request r ∷ os) = IsPaired os
  IsPaired (answer true ∷ os) = IsPaired os
  IsPaired (answer false ∷ show_error t ∷ os) = IsPaired os
  IsPaired (answer false ∷ os) = ⊥
  IsPaired (show_error t ∷ os) = (t ≡ translated "Could not load rooms.") × IsPaired os

  -- A step that settles a debt of `n`.
  record Settles (n : ℕ) (s u : Rooms N P) : Type 0 where
    pub answers : answers u.out ≡ n + answers s.out
    pub owed : owed u.tasks ≡ owed s.tasks
    pub paired : IsPaired s.out → IsPaired u.out

  catch_failure-Settles :
      (t : Task N) (f : Failure) (s : Rooms N P) → Settles (owes t) s (catch_failure t f s)
  unfolding catch_failure load_failed create_failed remove_failed playback_failed
  catch_failure-Settles loading_rooms f s = record {
    answers = omega arith;
    owed = refl;
    paired = λ h. (refl, h);
  }
  catch_failure-Settles refreshing f s = record {
    answers = omega arith;
    owed = refl;
    paired = λ h. h;
  }
  catch_failure-Settles (sent_playback none) f s =
      unfold roll_back in record { answers = refl; owed = refl; paired = λ h. h }
  catch_failure-Settles (sent_playback (some c)) f s =
      unfold roll_back in record { answers = refl; owed = refl; paired = λ h. h }
  catch_failure-Settles _ f s = record { answers = refl; owed = refl; paired = λ h. h }

  finish-Settles : (t : Task N) (s : Rooms N P) → Ensures (Settles (owes t) s) (finish t s)
  unfolding finish remove_resumed refresh
  finish-Settles loading_rooms s = tt
  finish-Settles refreshing s = tt
  finish-Settles creating_room s = tt
  finish-Settles (removing uuid) s = record { answers = refl; owed = refl; paired = λ h. h }
  finish-Settles kicking s = record { answers = refl; owed = refl; paired = λ h. h }
  finish-Settles _ s = record { answers = refl; owed = omega arith; paired = λ h. h }

  take_list-Settles :
      (t : Task N) (rs : List (Room N)) (s : Rooms N P)
      → Ensures (Settles (owes t) s) (take_list t rs s)
  unfolding take_list load_resumed replace_rooms
  take_list-Settles loading_rooms rs s = record {
    answers = omega arith;
    owed = refl;
    paired = λ h. h;
  }
  take_list-Settles refreshing rs s = record { answers = omega arith; owed = refl; paired = λ h. h }
  take_list-Settles _ rs s = tt

  take_room-Settles :
      (t : Task N) (r : Room N) (password : String) (s : Rooms N P)
      → Ensures (Settles (owes t) s) (take_room t r password s)
  unfolding take_room create_resumed
  take_room-Settles loading_rooms r password s = tt
  take_room-Settles creating_room r password s = record {
    answers = refl;
    owed = refl;
    paired = λ h. h;
  }
  take_room-Settles _ r password s = tt

  resume-Settles :
      (t : Task N) (r : Reply N) (s : Rooms N P) → Ensures (Settles (owes t) s) (resume t r s)
  unfolding resume
  resume-Settles t (listed rs) s = take_list-Settles t rs s
  resume-Settles t (created r password) s = take_room-Settles t r password s
  resume-Settles t done s = finish-Settles t s
  resume-Settles t (failed f) s = catch_failure-Settles t f s

  -- The debts and the answers of a state add up.
  abbrev Sum : ℕ → Rooms N P → Type 0
  Sum n s = (answers s.out + owed s.tasks ≡ n) × IsPaired s.out

  Sum-resume :
      (n k : ℕ) (t : Task N) (r : Reply N) (s : Rooms N P)
      → get_elem? s.tasks k ≡ some t
      → Sum n s
      → Ensures (Sum n) (resume t r (waiting k s))
  Sum-resume n k t r s e (h, p) =
      Ensures-map (resume t r (waiting k s)) (resume-Settles t r (waiting k s)) (λ u v.
        let a = v.answers in
        let b = v.owed in
        let c = owed-erase_idx s.tasks k t e in (omega (arith, a, b, c), v.paired p))

module _ {N P : Type 0} ⦃n : Number N⦄ where
  perform-Sum : (m : ℕ) (a : Action N P) (s : Rooms N P) → Sum m s → Sum (asks a + m) (perform a s)
  unfolding perform load refresh patch_room_playlist create remove kick_client send_playback_command
      dismiss_last_created update_settings add_playlist_entry update_playlist_entry clear_playlist
      remove_playlist_entry set_cursor
  perform-Sum m load_rooms s (h, p) = (omega arith, p)
  perform-Sum m refresh_rooms s (h, p) = (omega arith, p)
  perform-Sum m dismiss s (h, p) = (omega arith, p)
  perform-Sum m (patch uuid entries cursor) s (h, p) =
      Option-split (Sum (0 + m)) (find_room uuid s.objects s.rooms) s _ (omega arith, p)
        (λ o e. (omega arith, p))
  perform-Sum m (command uuid action pos) s (h, p) =
      Option-split (Sum (1 + m)) (captured uuid s) _ _ (omega arith, p) (λ o e. (omega arith, p))
  perform-Sum m _ s (h, p) = (omega arith, p)

  run-Sum :
      (m : ℕ) (s : Rooms N P) (es : List (Event N P)) → Sum m s → Sum (m + calls es) (run s es)
  unfolding run step
  run-Sum m s [] h = (omega (arith, h.0), h.1)
  run-Sum m s (act a ∷ es) h =
      let u = run-Sum (asks a + m) (perform a s) es (perform-Sum m a s h) in
      (omega (arith, u.0), u.1)
  run-Sum m s (replied k r ∷ es) h = run-Sum m (step s (replied k r)) es (
      Option-split_eq (Sum m) (get_elem? s.tasks k) s _ (λ e. h)
        (λ t e. Ensures_or (Sum m) (resume t r (waiting k s)) s h (Sum-resume m k t r s e h)))

  -- In any run of the store, the calls of actions that return a Boolean are answered but for those
  -- that wait for their request, and every false answer follows an error message of its own; no
  -- other message is shown but that of a failed `load`.
  pub run_answered :
      (room : Room N) (es : List (Event N P))
      → (answers (run (new_rooms room) es).out + owed (run (new_rooms room) es).tasks ≡ calls es)
        × IsPaired (run (new_rooms room) es).out
  unfolding new_rooms
  run_answered room es =
      let u = run-Sum 0 (new_rooms room) es (omega arith, tt) in (omega (arith, u.0), u.1)
