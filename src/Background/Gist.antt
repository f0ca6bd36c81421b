-- ===== src/Background/Gist.antt =====
-- The convergence flags of a tab's session and its two fallback timers, and which parts of
-- extension/entrypoints/background.ts leave them alone.
use playback_sync.Base.{
  if◌then◌else◌, ℕ, Bool, true, false, ◌≡◌, refl, ap, ◌∙◌, Option, none, some, List, [], ◌∷◌, ◌==◌,
  ==_iff, Option-split,
}
use playback_sync.Messages.{AuthoritativeCommand, play}
use playback_sync.Session.{SessionState}
use playback_sync.Session.Windows.{record_command}
use playback_sync.Tabs.{get_tab}
use playback_sync.Messages.{LocalIntent}
use playback_sync.Background.{Output, ws_event, Tab, assign, mutate}
use playback_sync.Background.Dispatch.{send_command, dispatch_command, dispatch_all}

pub record Flags : Type 0 where
  pub awaiting : Bool
  pub converged : Bool
  pub ever : Bool

pub record Gist : Type 0 where
  pub session : Option Flags
  pub reload : Bool
  pub request : Bool

module _ {N : Type 0} where
  abbrev pub flags : SessionState N → Flags
  flags s = record {
    awaiting = s.awaiting_reload;
    converged = s.converged;
    ever = s.ever_converged;
  }

  abbrev pub flags_at : Option ℕ → (ℕ → SessionState N) → Option Flags
  flags_at none objects = none
  flags_at (some id) objects = some (flags (objects id))

  abbrev pub gist : Tab N → Gist
  gist t = record {
    session = flags_at t.session t.objects;
    reload = t.reload_timer;
    request = t.request_timer;
  }

  -- The intents that the tab has sent to its room.
  abbrev pub sent : List (Output N) → List (LocalIntent N)
  sent [] = []
  sent (ws_event i ∷ os) = i ∷ sent os
  sent (_ ∷ os) = sent os

  -- The tab on the right has the gist of the one on the left, and has sent no more intents.
  pub record Same (t u : Tab N) : Type 0 where
    pub same : gist u ≡ gist t
    pub quiet : sent u.out ≡ sent t.out

  pub still : {t u : Tab N} → gist u ≡ gist t → sent u.out ≡ sent t.out → Same t u
  still e q = record { same = e; quiet = q }

  pub record HasGist (t u : Tab N) : Type 0 where
    pub gists : gist u ≡ gist t

  infixl 30 ◌⨾◌
  pub ◌⨾◌ : {t u v : Tab N} → Same t u → Same u v → Same t v
  p ⨾ q = record { same = q.same ∙ p.same; quiet = q.quiet ∙ p.quiet }

  flags-if :
      (b : Bool) (s u : SessionState N)
      → (b ≡ true → flags s ≡ flags u)
      → flags (if b then s else u) ≡ flags u
  flags-if true s u e = e refl
  flags-if false s u e = refl

  -- A write to an object that keeps its flags.
  flags_at-assign :
      (session : Option ℕ) (objects : ℕ → SessionState N) (id : ℕ) (s : SessionState N)
      → flags s ≡ flags (objects id)
      → flags_at session (λ j. if id == j then s else objects j) ≡ flags_at session objects
  flags_at-assign none objects id s e = refl
  flags_at-assign (some j) objects id s e =
      ap some (
        flags-if (id == j) s (objects j) (λ q. e ∙ ap (λ k. flags (objects k)) ((==_iff id j).0 q)))

  pub assign-Same :
      (id : ℕ) (s : SessionState N) (t : Tab N)
      → flags s ≡ flags (t.objects id)
      → Same t (assign id s t)
  assign-Same id s t e =
      still
        (ap (λ f. record { session = f; reload = t.reload_timer; request = t.request_timer })
          (flags_at-assign t.session t.objects id s e))
        refl

  flags-record_command :
      (now : ℕ) (s : SessionState N) (c : AuthoritativeCommand N)
      → flags (record_command now s c) ≡ flags s
  unfolding record_command
  flags-record_command now s play = refl
  flags-record_command now s c = refl

  send_command-Same : (c : AuthoritativeCommand N) (t : Tab N) → Same t (send_command c t)
  unfolding send_command
  send_command-Same c t =
      Option-split (Same t) (get_tab t.id t.cache) t _ (still refl refl)
        (λ entry e. still refl refl)

  pub dispatch_command-Same :
      (now : ℕ) (c : AuthoritativeCommand N) (t : Tab N) → Same t (dispatch_command now c t)
  unfolding dispatch_command
  dispatch_command-Same now c t = Option-split (Same t) t.session t _ (still refl refl) (λ id e.
      assign-Same id _ t (flags-record_command now (t.objects id) c)
      ⨾ send_command-Same c (mutate id (λ s. record_command now s c) t))

  pub dispatch_all-Same :
      (now : ℕ) (cs : List (AuthoritativeCommand N)) (t : Tab N) → Same t (dispatch_all now cs t)
  unfolding dispatch_all
  dispatch_all-Same now [] t = still refl refl
  dispatch_all-Same now (c ∷ cs) t =
      dispatch_command-Same now c t ⨾ dispatch_all-Same now cs (dispatch_command now c t)

  session-send_command :
      (c : AuthoritativeCommand N) (t : Tab N) → (send_command c t).session ≡ t.session
  unfolding send_command
  session-send_command c t =
      Option-split (λ u. u.session ≡ t.session) (get_tab t.id t.cache) t _ refl (λ entry e. refl)

  session-dispatch_command :
      (now : ℕ) (c : AuthoritativeCommand N) (t : Tab N)
      → (dispatch_command now c t).session ≡ t.session
  unfolding dispatch_command
  session-dispatch_command now c t =
      Option-split (λ u. u.session ≡ t.session) t.session t _ refl
        (λ id e. session-send_command c (mutate id (λ s. record_command now s c) t))

  pub session-dispatch_all :
      (now : ℕ) (cs : List (AuthoritativeCommand N)) (t : Tab N)
      → (dispatch_all now cs t).session ≡ t.session
  unfolding dispatch_all
  session-dispatch_all now [] t = refl
  session-dispatch_all now (c ∷ cs) t =
      session-dispatch_all now cs (dispatch_command now c t) ∙ session-dispatch_command now c t
