-- ===== src/Media/Rates.antt =====
-- The playback rates that the media runtime leaves on its adapters:
-- extension/src/adapters/media/runtime.ts.
use playback_sync.Base.{
  ℕ, ◌+◌, ◌≤◌, ◌<◌, Bool, true, false, ◌≡◌, ◌≢◌, ◌⊎◌, inl, inr, refl, ◌∙◌, sym, ap, subst, Option,
  none, some, List, [], ◌∷◌, arith, if-split, if◌then◌else◌, ◌==◌, ==-refl,
}
use playback_sync.Number.{Number}
use playback_sync.Media.{
  RuntimeState, idle, active, failed, Output, set_playback_rate, send_media_hello, adopt,
}

abbrev pub current : RuntimeState → Option ℕ
current (active a handler) = some a
current _ = none

pub current-adopt : (a : ℕ) (s : RuntimeState) → current (adopt a s) ≡ current s
current-adopt a idle = refl
current-adopt a (active b h) = refl
current-adopt a (failed r) = refl

equal : (a b : ℕ) → (a == b) ≡ true → a ≡ b
equal a b t = ground arith

module _ {N : Type 0} where
  -- Whether the adapter has ever been active.
  abbrev pub greeted : ℕ → List (Output N) → Bool
  greeted b [] = false
  greeted b (send_media_hello a ∷ os) = if a == b then true else greeted b os
  greeted b (_ ∷ os) = greeted b os

module _ {N : Type 0} ⦃n : Number N⦄ where
  -- The playback rate that the adapter was last given, 1 at first.
  abbrev pub rate_of : ℕ → List (Output N) → N
  rate_of b [] = n.lit 1
  rate_of b (set_playback_rate a r ∷ os) = if a == b then r else rate_of b os
  rate_of b (_ ∷ os) = rate_of b os

  -- On adapters that have been active, their rates, those whose `init` has not settled, the number of
  -- activations, the active adapter and that of the nudge timer: only an adapter that has been active
  -- is off its rate, and the active one only while the timer runs for it.
  pub record IsRated (seen : ℕ → Bool) (rate : ℕ → N) (inits : ℕ → Bool) (fresh : ℕ)
      (now timer : Option ℕ) : Type 0 where
    pub unseen : (b : ℕ) → fresh ≤ b → seen b ≡ false
    pub begun : (b : ℕ) → inits b ≡ true → b < fresh
    pub waiting : (b : ℕ) → inits b ≡ true → seen b ≡ false
    pub untouched : (b : ℕ) → seen b ≡ false → rate b ≡ n.lit 1
    pub driving : (b : ℕ) → now ≡ some b → seen b ≡ true
    pub nudged : (b : ℕ) → now ≡ some b → (rate b ≡ n.lit 1) ⊎ (timer ≡ some b)

  module _ {seen : ℕ → Bool} {rate : ℕ → N} {inits : ℕ → Bool} {fresh : ℕ} {now timer : Option ℕ}
      (r : IsRated seen rate inits fresh now timer) where
    pub rested : IsRated seen rate inits fresh none timer
    rested = record {
      unseen = r.unseen;
      begun = r.begun;
      waiting = r.waiting;
      untouched = r.untouched;
      driving = λ b e. cc;
      nudged = λ b e. cc;
    }

    pub settled :
        (a : ℕ) → IsRated seen rate (λ j. if a == j then false else inits j) fresh now timer
    settled a = record {
      unseen = r.unseen;
      begun = λ b e. r.begun b (narrow a b e);
      waiting = λ b e. r.waiting b (narrow a b e);
      untouched = r.untouched;
      driving = r.driving;
      nudged = r.nudged;
    }
      where
        narrow : (a b : ℕ) → (if a == b then false else inits b) ≡ true → inits b ≡ true
        narrow a b e = ground arith

    pub started :
        IsRated seen rate (λ j. if fresh == j then true else inits j) (fresh + 1) now timer
    started = record {
      unseen = λ b q. r.unseen b (omega arith);
      begun = λ b e. ground (arith, r.begun b);
      waiting = λ b e. ground (arith, r.waiting b, r.unseen b);
      untouched = r.untouched;
      driving = r.driving;
      nudged = r.nudged;
    }

    -- The rate of an adapter is set to 1, and the timer is cleared.
    pub restored :
        (a : ℕ)
        → ((b : ℕ) → now ≡ some b → (a ≡ b) ⊎ (rate b ≡ n.lit 1))
        → IsRated seen (λ b. if a == b then n.lit 1 else rate b) inits fresh now none
    restored a k = record {
      unseen = r.unseen;
      begun = r.begun;
      waiting = r.waiting;
      untouched = λ b e. set_one a b (r.untouched b e);
      driving = r.driving;
      nudged = λ b e. inl (elim (k b e) [ inl q ↦ ground arith | inr q ↦ set_one a b q ]);
    }
      where
        set_one : (a b : ℕ) → rate b ≡ n.lit 1 → (if a == b then n.lit 1 else rate b) ≡ n.lit 1
        set_one a b e = ground arith

    -- The active adapter is nudged, and the timer runs for it.
    pub slowed :
        (a : ℕ) (x : N)
        → now ≡ some a
        → IsRated seen (λ b. if a == b then x else rate b) inits fresh now (some a)
    slowed a x e = record {
      unseen = r.unseen;
      begun = r.begun;
      waiting = r.waiting;
      untouched = λ b q. apart a x b (r.driving a e) q;
      driving = r.driving;
      nudged = λ b q. inr (sym e ∙ q);
    }
      where
        apart :
            (a : ℕ) (x : N) (b : ℕ)
            → seen a ≡ true
            → seen b ≡ false
            → (if a == b then x else rate b) ≡ n.lit 1
        apart a x b e q =
            if-split (λ z. z ≡ n.lit 1) (a == b) x (rate b) (λ t. cc (ap seen (equal a b t), e, q))
              (λ f. r.untouched b q)

    -- An adapter whose `init` has just resolved becomes active.
    pub activated :
        (a : ℕ)
        → inits a ≡ true
        → IsRated
            (λ b. if a == b then true else seen b)
            rate
            (λ j. if a == j then false else inits j)
            fresh
            (some a)
            timer
    activated a e = record {
      unseen = λ b q. unlike a b (λ z. ground (arith, r.begun a e)) (r.unseen b q);
      begun = λ b q. (settled a).begun b q;
      waiting = λ b q. ground (arith, r.waiting b);
      untouched = λ b q. ground (arith, r.untouched b);
      driving = λ b q. subst (λ z. (if z then true else seen b) ≡ true) (sym (same b q)) refl;
      nudged =
          λ b q. inl (r.untouched b (subst (λ z. seen z ≡ false) (some_inj b q) (r.waiting a e)));
    }
      where
        some_inj : (b : ℕ) → some a ≡ some b → a ≡ b
        some_inj b q = cc

        same : (b : ℕ) → some a ≡ some b → (a == b) ≡ true
        same b q = subst (λ z. (a == z) ≡ true) (some_inj b q) (==-refl a)

        unlike : (a b : ℕ) → a ≢ b → seen b ≡ false → (if a == b then true else seen b) ≡ false
        unlike a b e q = ground arith
