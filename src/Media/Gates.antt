-- ===== src/Media/Gates.antt =====
-- The handlers of extension/src/adapters/media/runtime.ts that keep the gate of the commands: the room, the
-- state and the polling.
use playback_sync.Base.{
  ℕ, Bool, true, false, not, ◌≡◌, refl, ◌∙◌, Option, none, some, List, [], ◌∷◌, arith, Option-split,
  ◌||◌, ◌&&◌,
}
use playback_sync.Messages.{AuthoritativeCommand, VideoState}
use playback_sync.Media.{
  Media, RuntimeState, idle, active, failed, Output, handle, send_status, send_media_hello,
  start_nudge, settle, adopt, sampled, poll_due, evaluate, init_resolved, on_command, hand,
}

abbrev pub is_active : RuntimeState → Bool
is_active (active a handler) = true
is_active _ = false

abbrev pub is_none : Option ℕ → Bool
is_none none = true
is_none (some a) = false

is_active-adopt : (a : ℕ) (s : RuntimeState) → is_active (adopt a s) ≡ is_active s
is_active-adopt a idle = refl
is_active-adopt a (active b f) = refl
is_active-adopt a (failed r) = refl

pub or_true : (a : Bool) → (a || true) ≡ true
or_true a = ground arith

pub none_of : (o : Option ℕ) → is_none o ≡ true → o ≡ none
none_of none h = refl
none_of (some a) h = cc

-- About the elimination of the runtime's state where only an active one matters.
pub by_state {ℓ κ} :
    {B : Type ℓ} (P : B → Type κ) (s : RuntimeState) (d : B) (f : ℕ → Option ℕ → B)
    → P d
    → ((a : ℕ) (h : Option ℕ) → s ≡ active a h → P (f a h))
    → P (elim s [ idle ↦ d | active a h ↦ f a h | failed r ↦ d ])
by_state P idle d f x k = x
by_state P (active a h) d f x k = k a h refl
by_state P (failed r) d f x k = x

module _ {N : Type 0} where
  -- No adapter is active and no state is sampled, unless the tab is in a room.
  abbrev pub is_gated : Media N → Bool
  is_gated m = m.room_active || (not (is_active m.state) && is_none m.polling)

  -- The outputs that drive a video, or tell the background about one.
  abbrev pub driven : List (Output N) → List (Output N)
  driven [] = []
  driven (handle a c ∷ os) = handle a c ∷ driven os
  driven (start_nudge d ∷ os) = start_nudge d ∷ driven os
  driven (send_status s ∷ os) = send_status s ∷ driven os
  driven (send_media_hello a ∷ os) = send_media_hello a ∷ driven os
  driven (_ ∷ os) = driven os

  pub gated-evaluate :
      (matches : Bool) (m : Media N) → is_gated m ≡ true → is_gated (evaluate matches m) ≡ true
  unfolding evaluate
  gated-evaluate matches m h = ground arith

  pub gated-init_resolved :
      (a : ℕ) (m : Media N) → is_gated m ≡ true → is_gated (init_resolved a (settle a m)) ≡ true
  unfolding init_resolved
  gated-init_resolved a m h = ground arith

  pub gated-on_command :
      (a : ℕ) (m : Media N) → is_gated m ≡ true → is_gated (on_command a m) ≡ true
  unfolding on_command
  gated-on_command a m h = rw (is_active-adopt a m.state) h

  -- What the gate is about.
  pub record Keeps (m u : Media N) : Type 0 where
    pub room_active : u.room_active ≡ m.room_active
    pub state : u.state ≡ m.state
    pub polling : u.polling ≡ m.polling

  pub Keeps-gated : {m u : Media N} → Keeps m u → is_gated m ≡ true → is_gated u ≡ true
  Keeps-gated k h = rw (k.room_active, k.state, k.polling) h

  pub followed : {m u v : Media N} → Keeps m u → Keeps u v → Keeps m v
  followed k l = record {
    room_active = l.room_active ∙ k.room_active;
    state = l.state ∙ k.state;
    polling = l.polling ∙ k.polling;
  }

  pub hand-Keeps : (a : Option ℕ) (c : AuthoritativeCommand N) (m : Media N) → Keeps m (hand a c m)
  unfolding hand
  hand-Keeps none c m = record { room_active = refl; state = refl; polling = refl }
  hand-Keeps (some a) c m = record { room_active = refl; state = refl; polling = refl }

  sampled-Keeps : (s : Option (VideoState N)) (m : Media N) → Keeps m (sampled s m)
  sampled-Keeps none m = record { room_active = refl; state = refl; polling = refl }
  sampled-Keeps (some s) m = record { room_active = refl; state = refl; polling = refl }

  pub poll_due-Keeps : (s : Option (VideoState N)) (m : Media N) → Keeps m (poll_due s m)
  unfolding poll_due
  poll_due-Keeps s m =
      Option-split (Keeps m) m.polling m (λ a. sampled s m)
        (record { room_active = refl; state = refl; polling = refl }) (λ a e. sampled-Keeps s m)
