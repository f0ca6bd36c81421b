-- ===== src/Media/Restored.antt =====
-- The end of a nudge of the playback rate in extension/src/adapters/media/runtime.ts.
use playback_sync.Base.{
  ℕ, Bool, true, false, not, ◌≡◌, inl, inr, refl, ◌∙◌, sym, ap, subst, Option, none, some, List,
  arith, if-split, Option-split_eq, if◌then◌else◌, ◌==◌, ==-refl,
}
use playback_sync.Number.{Number}
use playback_sync.Messages.{AuthoritativeCommand, VideoState, play, pause, seek}
use playback_sync.Media.{
  Media, RuntimeState, idle, active, failed, destroy, emit, new_media, evaluate, hand, cancel_nudge,
  nudge_due, deliver_to, deliver_command, teardown, set_room_active, on_in_frame_source_change,
  stop_status_polling,
}
use playback_sync.Media.Runs.{Event, room, command, source_change, nudge_timer, step, run}
use playback_sync.Media.Gates.{is_active, is_gated}
use playback_sync.Media.Outside.{gated-run}
use playback_sync.Media.Rates.{current, rate_of}
use playback_sync.Media.Nudges.{IsFair, run-IsFair}

-- What ends a nudge: its timer, a command that competes with it, the end of the room, and a new
-- source of the video.
pub data EndsNudge {N : Type 0} : Event N → Type 0 where
  by_timer : EndsNudge nudge_timer
  by_play : (s : Option (VideoState N)) (throws : Bool) → EndsNudge (command play s throws)
  by_pause : (s : Option (VideoState N)) (throws : Bool) → EndsNudge (command pause s throws)
  by_seek :
      (t : N) (s : Option (VideoState N)) (throws : Bool) → EndsNudge (command (seek t) s throws)
  by_leaving : EndsNudge (room false)
  by_source : EndsNudge (source_change true)

some_inj : (b a : ℕ) → some b ≡ some a → b ≡ a
some_inj b a q = cc

at_active {ℓ κ} :
    {B : Type ℓ} (P : B → Type κ) (s : RuntimeState) (a : ℕ) (h : Option ℕ) (d : B)
    (f : ℕ → Option ℕ → B)
    → s ≡ active a h
    → P (f a h)
    → P (elim s [ idle ↦ d | active b g ↦ f b g | failed r ↦ d ])
at_active P s a h d f e x =
    subst (λ s. P (elim s [ idle ↦ d | active b g ↦ f b g | failed r ↦ d ])) (sym e) x

gated-new : (N : Type 0) → is_gated (new_media {N = N}) ≡ true
unfolding new_media
gated-new N = refl

module _ {N : Type 0} ⦃n : Number N⦄ where
  one_if : (b a : ℕ) → b ≡ a → (x : N) → (if b == a then n.lit 1 else x) ≡ n.lit 1
  one_if b a q x = ground arith

  new-IsFair : IsFair (new_media {N = N})
  unfolding new_media
  new-IsFair = record {
    unseen = λ b q. refl;
    begun = λ b q. cc;
    waiting = λ b q. refl;
    untouched = λ b q. refl;
    driving = λ b q. cc;
    nudged = λ b q. inl refl;
  }

  rate_of-cancel_nudge :
      (a : ℕ) (m : Media N)
      → current m.state ≡ some a
      → IsFair m
      → rate_of a (cancel_nudge a m).out ≡ n.lit 1
  unfolding cancel_nudge
  rate_of-cancel_nudge a m e r =
      Option-split_eq (λ (u : Media N). rate_of a u.out ≡ n.lit 1) m.nudge_timer m _
        (λ q. elim (r.nudged a e) [ inl p ↦ p | inr p ↦ cc ]) (λ b q. rw (==-refl a) refl)

  rate_of-nudge_due :
      (a : ℕ) (m : Media N)
      → current m.state ≡ some a
      → IsFair m
      → rate_of a (nudge_due m).out ≡ n.lit 1
  unfolding nudge_due
  rate_of-nudge_due a m e r =
      Option-split_eq (λ (u : Media N). rate_of a u.out ≡ n.lit 1) m.nudge_timer m _
        (λ q. elim (r.nudged a e) [ inl p ↦ p | inr p ↦ cc ])
        (λ b q. elim (r.nudged a e) [
          | inl p ↦ if-split (λ z. z ≡ n.lit 1) (b == a) _ _ (λ s. refl) (λ s. p)
          | inr p ↦ one_if b a (some_inj b a (sym q ∙ p)) _
        ])

  rate_of-hand :
      (a : ℕ) (h : Option ℕ) (c : AuthoritativeCommand N) (m : Media N)
      → rate_of a (hand h c m).out ≡ rate_of a m.out
  unfolding hand
  rate_of-hand a none c m = refl
  rate_of-hand a (some b) c m = refl

  rate_of-evaluate :
      (matches : Bool) (a : ℕ) (m : Media N) → rate_of a (evaluate matches m).out ≡ rate_of a m.out
  unfolding evaluate
  rate_of-evaluate matches a m =
      if-split (λ (u : Media N). rate_of a u.out ≡ rate_of a m.out) (not m.room_active) m _
        (λ q. refl)
        (λ q.
          if-split (λ (u : Media N). rate_of a u.out ≡ rate_of a m.out) matches _ _ (λ s. refl)
            (λ s. refl))

  rate_of-teardown :
      (a : ℕ) (h : Option ℕ) (m : Media N)
      → m.state ≡ active a h
      → IsFair m
      → rate_of a (teardown m).out ≡ n.lit 1
  unfolding teardown stop_status_polling
  rate_of-teardown a h m e r =
      at_active (λ (u : Media N). rate_of a u.out ≡ n.lit 1) m.state a h
        (record m { polling = none })
        (λ b g. emit (destroy b) (cancel_nudge b (record m { polling = none }))) e
        (rate_of-cancel_nudge a (record m { polling = none }) (ap current e) r)

  module _ (matches : Bool) where
    rate_of-deliver_to :
        (a : ℕ) (h : Option ℕ) (c : AuthoritativeCommand N) (m : Media N)
        → current m.state ≡ some a
        → IsFair m
        → rate_of a (hand h c (cancel_nudge a m)).out ≡ n.lit 1
    rate_of-deliver_to a h c m e r =
        rate_of-hand a h c (cancel_nudge a m) ∙ rate_of-cancel_nudge a m e r

    in_room : (m : Media N) → is_gated m ≡ true → is_active m.state ≡ true → m.room_active ≡ true
    in_room m g q = ground arith

    rate_of-step :
        (a : ℕ) (h : Option ℕ) (m : Media N) (e : Event N)
        → EndsNudge e
        → m.state ≡ active a h
        → is_gated m ≡ true
        → IsFair m
        → rate_of a (step matches m e).out ≡ n.lit 1
    unfolding step set_room_active on_in_frame_source_change deliver_command deliver_to
    rate_of-step a h m _ by_timer e g r = rate_of-nudge_due a m (ap current e) r
    rate_of-step a h m _ (by_play s throws) e g r =
        at_active (λ (u : Media N). rate_of a u.out ≡ n.lit 1) m.state a h m
          (λ b k. deliver_to b k play s throws m) e (rate_of-deliver_to a h play m (ap current e) r)
    rate_of-step a h m _ (by_pause s throws) e g r =
        at_active (λ (u : Media N). rate_of a u.out ≡ n.lit 1) m.state a h m
          (λ b k. deliver_to b k pause s throws m) e
          (rate_of-deliver_to a h pause m (ap current e) r)
    rate_of-step a h m _ (by_seek t s throws) e g r =
        at_active (λ (u : Media N). rate_of a u.out ≡ n.lit 1) m.state a h m
          (λ b k. deliver_to b k (seek t) s throws m) e
          (rate_of-deliver_to a h (seek t) m (ap current e) r)
    rate_of-step a h m _ by_leaving e g r =
        if-split (λ (u : Media N). rate_of a u.out ≡ n.lit 1) (not m.room_active) m _
          (λ q. cc (ap not (in_room m g (ap is_active e))))
          (λ q. rate_of-teardown a h (record m { room_active = false }) e r)
    rate_of-step a h m _ by_source e g r =
        at_active (λ (u : Media N). rate_of a u.out ≡ n.lit 1) m.state a h m
          (λ b k. evaluate matches (teardown m)) e
          (rate_of-evaluate matches a (teardown m) ∙ rate_of-teardown a h m e r)

    -- A nudge never outlives what ends it: whatever the runtime has seen, the active adapter is at
    -- rate 1 after the nudge timer's callback, a play, a pause or a seek, the end of the room, and a
    -- new source of its video. The nudge before it may have been cut short by another one.
    pub run_restored :
        (es : List (Event N)) (e : Event N) (a : ℕ) (h : Option ℕ)
        → EndsNudge e
        → (run matches new_media es).state ≡ active a h
        → rate_of a (step matches (run matches new_media es) e).out ≡ n.lit 1
    run_restored es e a h w q =
        rate_of-step a h (run matches new_media es) e w q
          (gated-run matches new_media es (gated-new N))
          (run-IsFair matches new_media es new-IsFair)
