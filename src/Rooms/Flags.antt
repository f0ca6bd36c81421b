-- ===== src/Rooms/Flags.antt =====
-- The flags `loading` and `creating` of src/stores/rooms.ts.
use playback_sync.Base.{
  ℕ, zero, suc, Bool, true, false, ◌||◌, ◌≡◌, refl, ap, sym, ◌∙◌, none, some, List, [], ◌∷◌, String,
  any, get_elem?, erase_idx, Ensures, Ensures-map, Ensures_or, Option-split_eq, Option-split,
  some_inj, if◌then◌else◌, Bool-cases, inl, inr, if-true, if-false,
}
use playback_sync.Number.{Number}
use playback_sync.Rooms.{
  Room, Task, loading_rooms, refreshing, creating_room, sent_playback, Rooms, find_room, new_rooms,
}
use playback_sync.Rooms.Errors.{Failure}
use playback_sync.Rooms.Actions.{
  load, load_resumed, load_failed, replace_rooms, refresh, patch_room_playlist, create,
  create_resumed, create_failed, remove, remove_resumed, remove_failed, kick_client, captured,
  send_playback_command, roll_back, playback_failed, dismiss_last_created, update_settings,
  add_playlist_entry, update_playlist_entry, clear_playlist, remove_playlist_entry, set_cursor,
}
use playback_sync.Rooms.Runs.{
  Action, load_rooms, patch, make, command, Reply, listed, created, done, failed, Event, act,
  replied, catch_failure, finish, take_list, take_room, resume, waiting, perform, step, run,
}

any-erase_idx {ℓ} :
    {A : Type ℓ} (p : A → Bool) (xs : List A) (k : ℕ) (a : A)
    → get_elem? xs k ≡ some a
    → p a ≡ false
    → any p (erase_idx xs k) ≡ any p xs
any-erase_idx p [] k a e q = refl
any-erase_idx p (x ∷ xs) zero a e q = sym (ap (λ b. b || any p xs) (ap p (some_inj x a e) ∙ q))
any-erase_idx p (x ∷ xs) (suc k) a e q = ap (λ b. p x || b) (any-erase_idx p xs k a e q)

module _ {N : Type 0} where
  abbrev pub is_loading : Task N → Bool
  is_loading loading_rooms = true
  is_loading _ = false

  abbrev pub is_creating : Task N → Bool
  is_creating creating_room = true
  is_creating _ = false

  left :
      (p : Task N → Bool) (k : ℕ) (t : Task N) (ts us : List (Task N)) (flag flag' : Bool)
      → get_elem? ts k ≡ some t
      → flag' ≡ (if p t then false else flag)
      → any p us ≡ any p (erase_idx ts k)
      → (flag ≡ true → any p ts ≡ true)
      → flag' ≡ true
      → any p us ≡ true
  left p k t ts us flag flag' e f a h q = elim (Bool-cases (p t)) [
    | inl y ↦ cc (sym q ∙ f ∙ if-true false flag y)
    | inr n ↦ a ∙ any-erase_idx p ts k t e n ∙ h (sym (if-false false flag n) ∙ sym f ∙ q)
  ]

module _ {N P : Type 0} where
  -- How a task that is resumed leaves the flags, and what it leaves waiting.
  record Lowers (t : Task N) (s u : Rooms N P) : Type 0 where
    pub loading : u.loading ≡ (if is_loading t then false else s.loading)
    pub creating : u.creating ≡ (if is_creating t then false else s.creating)
    pub loads : any is_loading u.tasks ≡ any is_loading s.tasks
    pub creations : any is_creating u.tasks ≡ any is_creating s.tasks

  catch_failure-Lowers :
      (t : Task N) (f : Failure) (s : Rooms N P) → Lowers t s (catch_failure t f s)
  unfolding catch_failure load_failed create_failed remove_failed playback_failed
  catch_failure-Lowers (sent_playback none) f s =
      unfold roll_back in record { loading = refl; creating = refl; loads = refl; creations = refl }
  catch_failure-Lowers (sent_playback (some c)) f s =
      unfold roll_back in record { loading = refl; creating = refl; loads = refl; creations = refl }
  catch_failure-Lowers _ f s = record {
    loading = refl;
    creating = refl;
    loads = refl;
    creations = refl;
  }

  finish-Lowers : (t : Task N) (s : Rooms N P) → Ensures (Lowers t s) (finish t s)
  unfolding finish remove_resumed refresh
  finish-Lowers loading_rooms s = tt
  finish-Lowers refreshing s = tt
  finish-Lowers creating_room s = tt
  finish-Lowers _ s = record { loading = refl; creating = refl; loads = refl; creations = refl }

  take_list-Lowers :
      (t : Task N) (rs : List (Room N)) (s : Rooms N P) → Ensures (Lowers t s) (take_list t rs s)
  unfolding take_list load_resumed replace_rooms
  take_list-Lowers loading_rooms rs s = record {
    loading = refl;
    creating = refl;
    loads = refl;
    creations = refl;
  }
  take_list-Lowers refreshing rs s = record {
    loading = refl;
    creating = refl;
    loads = refl;
    creations = refl;
  }
  take_list-Lowers _ rs s = tt

  take_room-Lowers :
      (t : Task N) (r : Room N) (password : String) (s : Rooms N P)
      → Ensures (Lowers t s) (take_room t r password s)
  unfolding take_room create_resumed
  take_room-Lowers loading_rooms r password s = tt
  take_room-Lowers creating_room r password s = record {
    loading = refl;
    creating = refl;
    loads = refl;
    creations = refl;
  }
  take_room-Lowers _ r password s = tt

  resume-Lowers : (t : Task N) (r : Reply N) (s : Rooms N P) → Ensures (Lowers t s) (resume t r s)
  unfolding resume
  resume-Lowers t (listed rs) s = take_list-Lowers t rs s
  resume-Lowers t (created r password) s = take_room-Lowers t r password s
  resume-Lowers t done s = finish-Lowers t s
  resume-Lowers t (failed f) s = catch_failure-Lowers t f s

  -- A flag is up only while an action that lowers it waits.
  record IsBusy (s : Rooms N P) : Type 0 where
    pub loading : s.loading ≡ true → any is_loading s.tasks ≡ true
    pub creating : s.creating ≡ true → any is_creating s.tasks ≡ true

  resume-IsBusy :
      (k : ℕ) (t : Task N) (r : Reply N) (s : Rooms N P)
      → get_elem? s.tasks k ≡ some t
      → IsBusy s
      → Ensures IsBusy (resume t r (waiting k s))
  resume-IsBusy k t r s e h =
      Ensures-map (resume t r (waiting k s)) (resume-Lowers t r (waiting k s)) (λ u v. record {
        loading =
            left is_loading k t s.tasks u.tasks s.loading u.loading e v.loading v.loads h.loading;
        creating =
            left is_creating k t s.tasks u.tasks s.creating u.creating e v.creating v.creations
              h.creating;
      })

module _ {N P : Type 0} ⦃n : Number N⦄ where
  perform-IsBusy : (a : Action N P) (s : Rooms N P) → IsBusy s → IsBusy (perform a s)
  unfolding perform load refresh patch_room_playlist create remove kick_client send_playback_command
      dismiss_last_created update_settings add_playlist_entry update_playlist_entry clear_playlist
      remove_playlist_entry set_cursor
  perform-IsBusy load_rooms s h = record { loading = λ q. refl; creating = h.creating }
  perform-IsBusy (patch uuid entries cursor) s h =
      Option-split IsBusy (find_room uuid s.objects s.rooms) s _ h
        (λ o e. record { loading = h.loading; creating = h.creating })
  perform-IsBusy (make payload) s h = record { loading = h.loading; creating = λ q. refl }
  perform-IsBusy (command uuid action pos) s h =
      Option-split IsBusy (captured uuid s) _ _
        (record { loading = h.loading; creating = h.creating })
        (λ o e. record { loading = h.loading; creating = h.creating })
  perform-IsBusy _ s h = record { loading = h.loading; creating = h.creating }

  step-IsBusy : (s : Rooms N P) (e : Event N P) → IsBusy s → IsBusy (step s e)
  unfolding step
  step-IsBusy s (act a) h = perform-IsBusy a s h
  step-IsBusy s (replied k r) h =
      Option-split_eq IsBusy (get_elem? s.tasks k) s _ (λ e. h)
        (λ t e. Ensures_or IsBusy (resume t r (waiting k s)) s h (resume-IsBusy k t r s e h))

  all-IsBusy : (s : Rooms N P) (es : List (Event N P)) → IsBusy s → IsBusy (run s es)
  unfolding run
  all-IsBusy s [] h = h
  all-IsBusy s (e ∷ es) h = all-IsBusy (step s e) es (step-IsBusy s e h)

  -- In any run of the store, `loading` is set only while a `load` waits for its request, and `creating`
  -- only while a `create` does.
  run-IsBusy : (room : Room N) (es : List (Event N P)) → IsBusy (run (new_rooms room) es)
  unfolding new_rooms
  run-IsBusy room es =
      all-IsBusy (new_rooms room) es (record { loading = λ q. cc; creating = λ q. cc })
