-- ===== src/EventStream/Recent.antt =====
-- The list of src/composables/useEventSource.ts as a window of the log of all that a connection and its
-- resumptions brought.
use playback_sync.Base.{
  ℕ, zero, suc, ◌≤◌, ◌<◌, ◌⊎◌, inl, inr, Bool, true, false, ◌≡◌, refl, ap, sym, ◌∙◌, List, [], ◌∷◌,
  arith, if◌then◌else◌, ltb, ◌==◌, length, any, All, Bool-cases, if-true, if-false, if-split,
  ltb→lt,
}
use playback_sync.EventStream.{EventLogEntry, take, scan, append_event}

length-take-le {ℓ} : {A : Type ℓ} (n : ℕ) (xs : List A) → length (take n xs) ≤ n
length-take-le n [] = omega arith
length-take-le zero (x ∷ xs) = omega arith
length-take-le (suc n) (x ∷ xs) = omega (arith, length-take-le {A = _} n xs)

take_whole {ℓ} : {A : Type ℓ} (n : ℕ) (xs : List A) → length xs ≤ n → take n xs ≡ xs
take_whole n [] h = refl
take_whole zero (x ∷ xs) h = absurd (omega arith)
take_whole (suc n) (x ∷ xs) h = ap (λ r. x ∷ r) (take_whole n xs (omega arith))

take-take-suc {ℓ} : {A : Type ℓ} (n : ℕ) (xs : List A) → take n (take (suc n) xs) ≡ take n xs
take-take-suc n [] = refl
take-take-suc zero (x ∷ xs) = refl
take-take-suc (suc n) (x ∷ xs) = ap (λ r. x ∷ r) (take-take-suc n xs)

take-cons {ℓ} :
    {A : Type ℓ} (n : ℕ) (x : A) (xs : List A) → take n (x ∷ take n xs) ≡ take n (x ∷ xs)
take-cons zero x xs = refl
take-cons (suc n) x xs = ap (λ r. x ∷ r) (take-take-suc n xs)

module _ {D : Type 0} where
  -- The eviction takes the window, whatever the length.
  append_event_new :
      (n : ℕ) (e : EventLogEntry D) (es : List (EventLogEntry D))
      → scan e.id es ≡ false
      → append_event n e es ≡ take n (e ∷ es)
  unfolding append_event
  append_event_new n e es h =
      if-false es _ h
      ∙ if-split (λ r. r ≡ take n (e ∷ es)) (ltb n (length (e ∷ es))) (take n (e ∷ es)) (e ∷ es)
          (λ q. refl) (λ q. sym (take_whole n (e ∷ es) (ground arith)))

  pub append_event-le :
      (n : ℕ) (e : EventLogEntry D) (es : List (EventLogEntry D))
      → length es ≤ n
      → length (append_event n e es) ≤ n
  append_event-le n e es h = elim (Bool-cases (scan e.id es)) [
    | inl old ↦ unfold append_event in rw old h
    | inr new ↦ rw (append_event_new n e es new) (length-take-le n (e ∷ es))
  ]

  -- An id above all of the log, which is newest first and in the order of the ids.
  abbrev pub is_newer : EventLogEntry D → List (EventLogEntry D) → Bool
  is_newer e [] = true
  is_newer e (x ∷ xs) = ltb x.id e.id

  abbrev pub is_held : EventLogEntry D → List (EventLogEntry D) → Bool
  is_held e xs = any (λ x. x.id == e.id) xs

  abbrev pub IsDescending : List (EventLogEntry D) → Type 0
  IsDescending [] = Unit
  IsDescending (x ∷ xs) = All (λ (y : EventLogEntry D). y.id < x.id) xs × IsDescending xs

  scan_newer :
      (e : EventLogEntry D) (xs : List (EventLogEntry D))
      → is_newer e xs ≡ true
      → scan e.id xs ≡ false
  unfolding scan
  scan_newer e [] h = refl
  scan_newer e (x ∷ xs) h = ground arith

  held-lt :
      (e : EventLogEntry D) (n : ℕ) (xs : List (EventLogEntry D))
      → All (λ (y : EventLogEntry D). y.id < n) xs
      → is_held e xs ≡ true
      → e.id < n
  held-lt e n [] b h = cc
  held-lt e n (x ∷ xs) b h = ground (arith, held-lt e n xs b.1)

  scan_held :
      (e : EventLogEntry D) (xs : List (EventLogEntry D))
      → IsDescending xs
      → is_held e xs ≡ true
      → scan e.id xs ≡ true
  unfolding scan
  scan_held e [] d h = h
  scan_held e (x ∷ xs) d h = ground (arith, scan_held e xs d.1, held-lt e x.id xs d.0)

  held_again :
      (e : EventLogEntry D) (xs : List (EventLogEntry D))
      → IsDescending xs
      → is_held e xs ≡ true
      → is_newer e xs ≡ false
  held_again e [] d h = cc
  held_again e (x ∷ xs) d h = ground (arith, held-lt e x.id xs d.0)

  All-weaken :
      (n m : ℕ) (xs : List (EventLogEntry D))
      → n ≤ m
      → All (λ (y : EventLogEntry D). y.id < n) xs
      → All (λ (y : EventLogEntry D). y.id < m) xs
  All-weaken n m [] l a = tt
  All-weaken n m (x ∷ xs) l a = (omega arith, All-weaken n m xs l a.1)

  newer-IsDescending :
      (e : EventLogEntry D) (xs : List (EventLogEntry D))
      → IsDescending xs
      → is_newer e xs ≡ true
      → IsDescending (e ∷ xs)
  newer-IsDescending e [] d h = (tt, d)
  newer-IsDescending e (x ∷ xs) d h =
      ((ltb→lt x.id e.id h, All-weaken x.id e.id xs (ground arith) d.0), d)

  All-take :
      (k n : ℕ) (xs : List (EventLogEntry D))
      → All (λ (y : EventLogEntry D). y.id < k) xs
      → All (λ (y : EventLogEntry D). y.id < k) (take n xs)
  All-take k n [] a = tt
  All-take k zero (x ∷ xs) a = tt
  All-take k (suc n) (x ∷ xs) a = (a.0, All-take k n xs a.1)

  pub take-IsDescending :
      (n : ℕ) (xs : List (EventLogEntry D)) → IsDescending xs → IsDescending (take n xs)
  take-IsDescending n [] d = tt
  take-IsDescending zero (x ∷ xs) d = tt
  take-IsDescending (suc n) (x ∷ xs) d = (All-take x.id n xs d.0, take-IsDescending n xs d.1)

  held-take :
      (e : EventLogEntry D) (n : ℕ) (xs : List (EventLogEntry D))
      → is_held e (take n xs) ≡ true
      → is_held e xs ≡ true
  held-take e n [] h = h
  held-take e zero (x ∷ xs) h = cc
  held-take e (suc n) (x ∷ xs) h = ground (arith, held-take e n xs)

  newer-take :
      (e : EventLogEntry D) (n : ℕ) (xs : List (EventLogEntry D))
      → is_newer e xs ≡ true
      → is_newer e (take n xs) ≡ true
  newer-take e n [] h = h
  newer-take e zero (x ∷ xs) h = refl
  newer-take e (suc n) (x ∷ xs) h = h

  -- The whole log, with no bound.
  abbrev pub note : EventLogEntry D → List (EventLogEntry D) → List (EventLogEntry D)
  note e log = if is_newer e log then e ∷ log else log

  pub note-IsDescending :
      (e : EventLogEntry D) (log : List (EventLogEntry D))
      → IsDescending log
      → IsDescending (note e log)
  note-IsDescending e log d =
      if-split IsDescending (is_newer e log) (e ∷ log) log (newer-IsDescending e log d) (λ q. d)

  -- A new entry is above all of the log, and a repeated one is still in the window.
  abbrev pub IsExpected : ℕ → EventLogEntry D → List (EventLogEntry D) → Type 0
  IsExpected n e log = (is_newer e log ≡ true) ⊎ (is_held e (take n log) ≡ true)

  pub append_event-take :
      (n : ℕ) (e : EventLogEntry D) (log : List (EventLogEntry D))
      → IsDescending log
      → IsExpected n e log
      → append_event n e (take n log) ≡ take n (note e log)
  append_event-take n e log d (inl new) =
      append_event_new n e (take n log) (scan_newer e (take n log) (newer-take e n log new))
      ∙ take-cons n e log
      ∙ ap (take n) (sym (if-true (e ∷ log) log new))
  append_event-take n e log d (inr old) =
      unfold append_event in
      if-true (take n log) _ (scan_held e (take n log) (take-IsDescending n log d) old)
      ∙ ap (take n) (sym (if-false (e ∷ log) log (held_again e log d (held-take e n log old))))
