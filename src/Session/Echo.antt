-- ===== src/Session/Echo.antt =====
-- Echo suppression against the full history of dispatched commands: trimming the bucket of
-- extension/src/background/session.ts never changes an answer.
use playback_sync.Base.{
  ℕ, ◌+◌, ◌≤◌, Bool, true, false, ◌||◌, ◌&&◌, ◌≡◌, refl, some, List, [], ◌∷◌, ◌++◌, leb, any, keep,
  arith, All, ◌∙◌, ap,
}
use playback_sync.Number.{Number}
use playback_sync.Protocol.Frames.{EventKind}
use playback_sync.Messages.{
  AuthoritativeCommand, play, pause, seek, nudge_rate, cursor_change, LocalIntent,
}
use playback_sync.Session.{
  SessionState, RecentCommand, event_kind_eq, suppression_window_ms, create_session,
}
use playback_sync.Session.Windows.{
  map_command_kind, seek_time, in_window, record_command, near, is_echo, should_suppress,
}

any-append {ℓ} :
    {A : Type ℓ} (p : A → Bool) (xs ys : List A) → any p (xs ++ ys) ≡ (any p xs || any p ys)
any-append p [] ys = refl
any-append p (x ∷ xs) ys = ground (arith, any-append p xs ys)

-- Dropping elements that fail a weaker test changes no search.
any-keep {ℓ} :
    {A : Type ℓ} (p q : A → Bool) (xs : List A)
    → ((x : A) → p x ≡ true → q x ≡ true)
    → any p (keep q xs) ≡ any p xs
any-keep p q [] h = refl
any-keep p q (x ∷ xs) h = ground (arith, h x, any-keep p q xs h)

module _ {N : Type 0} ⦃n : Number N⦄ where
  -- Whether an intent is the reflection of a command that was dispatched at `t`.
  abbrev pub reflects : ℕ → LocalIntent N → ℕ → AuthoritativeCommand N → Bool
  reflects now intent t play =
      leb now (t + suppression_window_ms) && event_kind_eq intent.kind EventKind.play
  reflects now intent t pause =
      leb now (t + suppression_window_ms) && event_kind_eq intent.kind EventKind.pause
  reflects now intent t (seek time) =
      leb now (t + suppression_window_ms)
      && (event_kind_eq intent.kind EventKind.seek && near (some time) intent.time)
  reflects now intent t (nudge_rate target_pos) = false
  reflects now intent t (cursor_change page_url) = false

  is_echo-in_window :
      (now t : ℕ) (intent : LocalIntent N) (b : RecentCommand N)
      → t ≤ now
      → is_echo now intent b ≡ true
      → in_window t b ≡ true
  unfolding is_echo
  is_echo-in_window now t intent b h e = ground arith

  -- A new stamp at `t`, and the bucket trimmed at `t`.
  any-stamp :
      (now t : ℕ) (intent : LocalIntent N) (b : RecentCommand N) (bs : List (RecentCommand N))
      → t ≤ now
      → any (is_echo now intent) (keep (in_window t) (bs ++ b ∷ []))
        ≡ (any (is_echo now intent) bs || (is_echo now intent b || false))
  any-stamp now t intent b bs h =
      any-keep (is_echo now intent) (in_window t) (bs ++ b ∷ [])
        (λ c. is_echo-in_window now t intent c h)
      ∙ any-append (is_echo now intent) bs (b ∷ [])

  echo-reflects :
      (now t : ℕ) (intent : LocalIntent N) (cmd : AuthoritativeCommand N) (kind : EventKind)
      → map_command_kind cmd ≡ some kind
      → (is_echo now intent (record { kind = kind; at = t; time = seek_time cmd }) || false)
        ≡ reflects now intent t cmd
  unfolding map_command_kind is_echo
  echo-reflects now t intent play kind e = ground arith
  echo-reflects now t intent _ kind e = ground arith

  should_suppress-record_command :
      (now t : ℕ) (s : SessionState N) (intent : LocalIntent N) (cmd : AuthoritativeCommand N)
      → t ≤ now
      → should_suppress now (record_command t s cmd) intent
        ≡ (should_suppress now s intent || reflects now intent t cmd)
  unfolding should_suppress record_command
  should_suppress-record_command now t s intent play h =
      any-stamp now t intent _ s.recent_commands h
      ∙ ap (λ b. any (is_echo now intent) s.recent_commands || b)
          (echo-reflects now t intent play EventKind.play refl)
  should_suppress-record_command now t s intent pause h =
      any-stamp now t intent _ s.recent_commands h
      ∙ ap (λ b. any (is_echo now intent) s.recent_commands || b)
          (echo-reflects now t intent pause EventKind.pause refl)
  should_suppress-record_command now t s intent (seek time) h =
      any-stamp now t intent _ s.recent_commands h
      ∙ ap (λ b. any (is_echo now intent) s.recent_commands || b)
          (echo-reflects now t intent (seek time) EventKind.seek refl)
  should_suppress-record_command now t s intent (nudge_rate x) h = ground arith
  should_suppress-record_command now t s intent (cursor_change u) h = ground arith

  -- The commands dispatched to a tab, oldest first, with the time of each.
  pub record_all : SessionState N → List (ℕ × AuthoritativeCommand N) → SessionState N
  record_all s [] = s
  record_all s ((t, cmd) ∷ h) = record_all (record_command t s cmd) h

  any-history :
      (now : ℕ) (s : SessionState N) (intent : LocalIntent N)
      (h : List (ℕ × AuthoritativeCommand N))
      → All (λ e. e.0 ≤ now) h
      → should_suppress now (record_all s h) intent
        ≡ (should_suppress now s intent || any (λ e. reflects now intent e.0 e.1) h)
  unfolding record_all
  any-history now s intent [] b = ground arith
  any-history now s intent ((t, cmd) ∷ h) (b, bs) = ground (
    arith,
    any-history now (record_command t s cmd) intent h bs,
    should_suppress-record_command now t s intent cmd b,
  )

  should_suppress-create_session :
      (now : ℕ) (intent : LocalIntent N) → should_suppress now create_session intent ≡ false
  unfolding should_suppress create_session
  should_suppress-create_session now intent = refl

  -- An intent is suppressed exactly when it reflects one of all the commands ever dispatched to the
  -- tab: a play or pause of its kind at most 600 ms old, or a seek at most 600 ms old whose target
  -- is within one second of the intent's position. No command was dispatched after `now`.
  pub should_suppress-record_all :
      (now : ℕ) (intent : LocalIntent N) (h : List (ℕ × AuthoritativeCommand N))
      → All (λ e. e.0 ≤ now) h
      → should_suppress now (record_all create_session h) intent
        ≡ any (λ e. reflects now intent e.0 e.1) h
  should_suppress-record_all now intent h b =
      any-history now create_session intent h b
      ∙ ap (λ c. c || any (λ e. reflects now intent e.0 e.1) h)
          (should_suppress-create_session now intent)
