-- ===== src/Rooms/Rollback.antt =====
-- What a failed request leaves of the rooms in src/stores/rooms.ts.
use mathlib.Core.Path.{ap₂}
use playback_sync.Base.{
  ℕ, ◌≤◌, Bool, true, false, ◌≡◌, refl, ap, sym, ◌∙◌, subst, Option, none, some, List, ◌∷◌, String,
  map, arith, All, get_elem?, All-get_elem?, All-erase_idx, Option-split_eq, if◌then◌else◌, ◌==◌,
}
use playback_sync.Number.{Number}
use playback_sync.Rooms.{
  RoomLiveState, Room, PlaybackAction, Task, loading_rooms, refreshing, sent_playback, find_room,
  Rooms, refs, allocate, new_rooms,
}
use playback_sync.Rooms.Errors.{Failure}
use playback_sync.Rooms.Actions.{
  load_resumed, load_failed, replace_rooms, create_failed, remove_failed, captured,
  send_playback_command, roll_back, playback_failed,
}
use playback_sync.Rooms.Runs.{
  command, Reply, listed, failed, Event, act, replied, catch_failure, take_list, resume, waiting,
  perform, step, run,
}
use playback_sync.Rooms.Objects.{run-IsMade}
use playback_sync.Rooms.Places.{map-refs, refs-above, map-others, WritesBelow}

module _ {N : Type 0} where
  abbrev pub is_listing : Task N → Bool
  is_listing loading_rooms = true
  is_listing refreshing = true
  is_listing _ = false

module _ {N P : Type 0} where
  -- The rooms that the dashboard lists.
  abbrev pub shown : Rooms N P → List (Room N)
  shown s = map s.objects s.rooms

  -- A failing task writes to what it captured only.
  shown-catch_failure :
      (m : ℕ) (t : Task N) (f : Failure) (s : Rooms N P)
      → WritesBelow m t
      → All (λ o. m ≤ o) s.rooms
      → shown (catch_failure t f s) ≡ shown s
  unfolding catch_failure load_failed create_failed remove_failed playback_failed roll_back
  shown-catch_failure m (sent_playback (some (o, live))) f s w a =
      map-others m o (record (s.objects o) { live = some live }) s.objects s.rooms w a
  shown-catch_failure m (sent_playback none) f s w a = refl
  shown-catch_failure m _ f s w a = refl

  -- The list has just come in.
  record IsListed (rs : List (Room N)) (s v : Rooms N P) : Type 0 where
    pub rooms : v.rooms ≡ refs s.next rs
    pub objects : v.objects ≡ allocate s.next rs s.objects
    pub tasks : v.tasks ≡ s.tasks

  take_list-IsListed :
      (t : Task N) (rs : List (Room N)) (s : Rooms N P)
      → is_listing t ≡ true
      → (v : Rooms N P) × (take_list t rs s ≡ some v) × IsListed rs s v
  unfolding take_list load_resumed replace_rooms
  take_list-IsListed loading_rooms rs s h =
      (load_resumed rs s, refl, record { rooms = refl; objects = refl; tasks = refl })
  take_list-IsListed refreshing rs s h =
      (replace_rooms rs s, refl, record { rooms = refl; objects = refl; tasks = refl })
  take_list-IsListed _ rs s h = cc

  shown-IsListed : (rs : List (Room N)) (s v : Rooms N P) → IsListed rs s v → shown v ≡ rs
  shown-IsListed rs s v l = ap₂ map l.objects l.rooms ∙ map-refs s.next rs s.objects

module _ {N P : Type 0} ⦃n : Number N⦄ where
  step-replied :
      (s : Rooms N P) (k : ℕ) (t : Task N) (r : Reply N)
      → get_elem? s.tasks k ≡ some t
      → step s (replied k r) ≡ elim (resume t r (waiting k s)) [ none ↦ s | some u ↦ u ]
  unfolding step
  step-replied s k t r e =
      ap
        (λ o. elim o [
          | none ↦ s
          | some t ↦ elim (resume t r (waiting k s)) [ none ↦ s | some u ↦ u ]
        ])
        e

  captured_live :
      (s : Rooms N P) (uuid : String) (o : ℕ) (live : RoomLiveState N)
      → find_room uuid s.objects s.rooms ≡ some o
      → (s.objects o).live ≡ some live
      → captured uuid s ≡ some (o, live)
  unfolding captured
  captured_live s uuid o live q r = rw (captured, q, r) refl

  command_task :
      (s : Rooms N P) (uuid : String) (action : PlaybackAction) (pos : Option N) (o : ℕ)
      (live : RoomLiveState N)
      → captured uuid s ≡ some (o, live)
      → get_elem? (step s (act (command uuid action pos))).tasks 0
        ≡ some (sent_playback (some (o, live)))
  unfolding step perform send_playback_command
  command_task s uuid action pos o live c = rw (get_elem?, send_playback_command, c) refl

  -- A playback command on a room with a live state, which then fails, however late and whatever came
  -- between, gives the room the live state that it had at the call, and changes no other field, no other
  -- room and no list. The task that fails is the one that the call left.
  pub failed-command :
      (s : Rooms N P) (uuid : String) (action : PlaybackAction) (pos : Option N)
      (es : List (Event N P)) (k : ℕ) (f : Failure) (o : ℕ) (live : RoomLiveState N)
      → find_room uuid s.objects s.rooms ≡ some o
      → (s.objects o).live ≡ some live
      → get_elem? (run s (act (command uuid action pos) ∷ es)).tasks k
        ≡ get_elem? (step s (act (command uuid action pos))).tasks 0
      → let u = run s (act (command uuid action pos) ∷ es) in
        let v = step u (replied k (failed f)) in
        ((j : ℕ)
          → v.objects j
            ≡ (if j == o then record (u.objects o) { live = some live } else u.objects j))
        × (v.rooms ≡ u.rooms)
  unfolding resume catch_failure playback_failed roll_back
  failed-command s uuid action pos es k f o live found had e =
      let u = run s (act (command uuid action pos) ∷ es) in
      let q : step u (replied k (failed f))
          ≡ catch_failure (sent_playback (some (o, live))) f (waiting k u) =
        step-replied u k (sent_playback (some (o, live))) (failed f)
          (e ∙ command_task s uuid action pos o live (captured_live s uuid o live found had)) in
      (λ j. ap (λ (v : Rooms N P). v.objects j) q, ap (λ (v : Rooms N P). v.rooms) q)

  shown-failed :
      (m k : ℕ) (f : Failure) (v : Rooms N P)
      → All (WritesBelow m) v.tasks
      → All (λ o. m ≤ o) v.rooms
      → shown (step v (replied k (failed f))) ≡ shown v
  unfolding step resume
  shown-failed m k f v w a =
      Option-split_eq (λ x. shown x ≡ shown v) (get_elem? v.tasks k) v _ (λ e. refl)
        (λ t e.
          shown-catch_failure m t f (waiting k v) (All-get_elem? (WritesBelow m) v.tasks k t w e) a)

  -- When the list of rooms arrives for a waiting load or refresh, in any run, the dashboard shows that
  -- list, and no failure that comes next takes anything of it back.
  pub shown-replied :
      (room : Room N) (es : List (Event N P)) (j k : ℕ) (t : Task N) (rs : List (Room N))
      (f : Failure)
      → get_elem? (run (new_rooms room) es).tasks j ≡ some t
      → is_listing t ≡ true
      → let v = step (run (new_rooms room) es) (replied j (listed rs)) in
        (shown v ≡ rs) × (shown (step v (replied k (failed f))) ≡ rs)
  unfolding resume new_rooms
  shown-replied room es j k t rs f e h =
      let u = run (new_rooms room) es in
      let made = run-IsMade (new_rooms room) es (record { rooms = tt; tasks = tt }) in
      let (v, q, l) = take_list-IsListed t rs (waiting j u) h in
      let at : v ≡ step u (replied j (listed rs)) =
        sym (step-replied u j t (listed rs) e ∙ ap (λ o. elim o [ none ↦ u | some w ↦ w ]) q) in
      let here = shown-IsListed rs (waiting j u) v l in
      subst (λ (w : Rooms N P). (shown w ≡ rs) × (shown (step w (replied k (failed f))) ≡ rs)) at
        (
          here,
          shown-failed u.next k f v
                (subst (All (WritesBelow u.next)) (sym l.tasks)
                  (All-erase_idx (WritesBelow u.next) u.tasks j made.tasks))
                (subst (All (λ o. u.next ≤ o)) (sym l.rooms)
                  (refs-above u.next u.next rs (omega arith)))
              ∙ here,
        )
