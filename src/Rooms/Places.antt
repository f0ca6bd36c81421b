-- ===== src/Rooms/Places.antt =====
-- The objects of rooms that the list and the waiting actions of src/stores/rooms.ts refer to.
use text.Mathlib.Text.{◌==◌ as str_eq}
use mathlib.Core.Path.{ap₂}
use playback_sync.Base.{
  ℕ, suc, ◌+◌, ◌≤◌, ◌<◌, Bool, ◌≡◌, refl, sym, ◌∙◌, subst, none, some, List, [], ◌∷◌, String, map,
  arith, All, keep, length, some_inj, if◌then◌else◌, ◌==◌, if-false, if-true, if-split, ==-refl,
  Bool-cases, inl, inr,
}
use playback_sync.Rooms.{
  Room, Task, loading_rooms, refreshing, creating_room, removing, kicking, sent_playback,
  settings_update, entry_added, entry_updated, clearing, entry_removed, cursor_set, refs, allocate,
  find_room,
}

module _ {N : Type 0} where
  allocate-below :
      (n j : ℕ) (rs : List (Room N)) (objects : ℕ → Room N)
      → j < n
      → allocate n rs objects j ≡ objects j
  unfolding allocate
  allocate-below n j [] objects l = refl
  allocate-below n j (r ∷ rs) objects l =
      allocate-below (suc n) j rs _ (omega arith) ∙ if-false r (objects j) (ground arith)

  -- The listed objects are the rooms of the list.
  pub map-refs :
      (n : ℕ) (rs : List (Room N)) (objects : ℕ → Room N)
      → map (allocate n rs objects) (refs n rs) ≡ rs
  unfolding refs allocate
  map-refs n [] objects = refl
  map-refs n (r ∷ rs) objects =
      ap₂ (λ x xs. x ∷ xs)
        (allocate-below (suc n) n rs _ (omega arith) ∙ if-true r (objects n) (==-refl n))
        (map-refs (suc n) rs _)

  pub refs-above : (n m : ℕ) (rs : List (Room N)) → n ≤ m → All (λ o. n ≤ o) (refs m rs)
  unfolding refs
  refs-above n m [] l = tt
  refs-above n m (r ∷ rs) l = (l, refs-above n (suc m) rs (omega arith))

  pub refs-below : (b m : ℕ) (rs : List (Room N)) → m + length rs ≤ b → All (λ o. o < b) (refs m rs)
  unfolding refs
  refs-below b m [] l = tt
  refs-below b m (r ∷ rs) l = (omega arith, refs-below b (suc m) rs (omega arith))

  pub All-find_room :
      (P : ℕ → Type 0) (uuid : String) (objects : ℕ → Room N) (os : List ℕ) (o : ℕ)
      → All P os
      → find_room uuid objects os ≡ some o
      → P o
  unfolding find_room
  All-find_room P uuid objects [] o h e = cc
  All-find_room P uuid objects (x ∷ os) o (h, hs) e =
      elim (Bool-cases (str_eq (objects x).uuid uuid)) [
        | inl y ↦ subst P (some_inj x o (sym (if-true (some x) _ y) ∙ e)) h
        | inr n ↦ All-find_room P uuid objects os o hs (sym (if-false (some x) _ n) ∙ e)
      ]

  -- A write to an object that is not listed does not show.
  pub map-others :
      (n o : ℕ) (r : Room N) (objects : ℕ → Room N) (os : List ℕ)
      → o < n
      → All (λ j. n ≤ j) os
      → map (λ j. if j == o then r else objects j) os ≡ map objects os
  map-others n o r objects [] l h = refl
  map-others n o r objects (j ∷ os) l (h, hs) =
      ap₂ (λ x xs. x ∷ xs) (if-false r (objects j) (ground arith))
        (map-others n o r objects os l hs)

  -- The object that a task writes to if it fails.
  abbrev pub WritesBelow : ℕ → Task N → Type 0
  WritesBelow n (sent_playback (some (o, live))) = o < n
  WritesBelow n _ = Unit

  pub WritesBelow-weaken :
      (n m : ℕ) (ts : List (Task N)) → n ≤ m → All (WritesBelow n) ts → All (WritesBelow m) ts
  WritesBelow-weaken n m [] l h = tt
  WritesBelow-weaken n m (t ∷ ts) l (h, hs) = (later t h, WritesBelow-weaken n m ts l hs)
    where
      later : (t : Task N) → WritesBelow n t → WritesBelow m t
      later loading_rooms h = tt
      later refreshing h = tt
      later creating_room h = tt
      later (removing uuid) h = tt
      later kicking h = tt
      later (sent_playback none) h = tt
      later (sent_playback (some (o, live))) h = omega arith
      later settings_update h = tt
      later entry_added h = tt
      later entry_updated h = tt
      later clearing h = tt
      later entry_removed h = tt
      later cursor_set h = tt

pub lt-weaken : (n m : ℕ) (os : List ℕ) → n ≤ m → All (λ o. o < n) os → All (λ o. o < m) os
lt-weaken n m [] l h = tt
lt-weaken n m (o ∷ os) l (h, hs) = (omega arith, lt-weaken n m os l hs)

pub All-keep : (P : ℕ → Type 0) (p : ℕ → Bool) (os : List ℕ) → All P os → All P (keep p os)
All-keep P p [] h = tt
All-keep P p (o ∷ os) (h, hs) =
    if-split (All P) (p o) _ _ (λ q. (h, All-keep P p os hs)) (λ q. All-keep P p os hs)
