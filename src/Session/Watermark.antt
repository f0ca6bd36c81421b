-- ===== src/Session/Watermark.antt =====
-- The event-id watermark that JOIN sends: `lastEventId` of extension/src/background/session.ts.
use playback_sync.Base.{List, [], ◌∷◌, All}
use playback_sync.Number.{Number, IsIeee, ◌≼◌}
use playback_sync.Protocol.Frames.{StateFrame, CursorChangeFrame}
use playback_sync.Session.{SessionState}
use playback_sync.Session.Folds.{apply_state, apply_cursor_change}
use playback_sync.Protocol.Valid.{IsFin}

pub data Broadcast (N : Type 0) : Type 0 where
  state : StateFrame N → Broadcast N
  cursor : CursorChangeFrame N → Broadcast N

abbrev pub id_of : {N : Type 0} → Broadcast N → N
id_of (state f) = f.event_id
id_of (cursor f) = f.event_id

module _ {N : Type 0} ⦃n : Number N⦄ where
  unfoldable pub fold : SessionState N → Broadcast N → SessionState N
  unfolding apply_state apply_cursor_change
  fold s (state f) = (apply_state s f).0
  fold s (cursor f) = (apply_cursor_change s f).0

  unfoldable pub fold_all : SessionState N → List (Broadcast N) → SessionState N
  fold_all s [] = s
  fold_all s (b ∷ bs) = fold_all (fold s b) bs

  module _ (laws : IsIeee N) where
    open laws use {le_refl, le_trans, maximum_finite, le-maximum_left, le-maximum_right}

    fold_bounds :
        (s : SessionState N) (b : Broadcast N)
        → IsFin s.last_event_id
        → IsFin (id_of b)
        → IsFin (fold s b).last_event_id
          × (s.last_event_id ≼ (fold s b).last_event_id)
          × (id_of b ≼ (fold s b).last_event_id)
    unfolding fold
    fold_bounds s (state f) p q =
        (maximum_finite _ _ p q, le-maximum_left _ _ p q, le-maximum_right _ _ p q)
    fold_bounds s (cursor f) p q =
        (maximum_finite _ _ p q, le-maximum_left _ _ p q, le-maximum_right _ _ p q)

    fold_all_grows :
        (s : SessionState N) (bs : List (Broadcast N))
        → IsFin s.last_event_id
        → All (λ b. IsFin (id_of b)) bs
        → s.last_event_id ≼ (fold_all s bs).last_event_id
    unfolding fold_all
    fold_all_grows s [] p q = le_refl _ p
    fold_all_grows s (b ∷ bs) p (q, qs) =
        let (p', up, _) = fold_bounds s b p q in
        le_trans _ _ _ up (fold_all_grows (fold s b) bs p' qs)

    fold_all_covers :
        (s : SessionState N) (bs : List (Broadcast N))
        → IsFin s.last_event_id
        → All (λ b. IsFin (id_of b)) bs
        → All (λ b. id_of b ≼ (fold_all s bs).last_event_id) bs
    unfolding fold_all
    fold_all_covers s [] p q = tt
    fold_all_covers s (b ∷ bs) p (q, qs) =
        let (p', _, above) = fold_bounds s b p q in
        (
          le_trans _ _ _ above (fold_all_grows (fold s b) bs p' qs),
          fold_all_covers (fold s b) bs p' qs,
        )

    -- After any STATE and CURSOR_CHANGE frames in any order, the watermark is no less than it was
    -- and no less than the event id of any of the frames, all ids being finite.
    pub fold_all_watermark :
        (s : SessionState N) (bs : List (Broadcast N))
        → IsFin s.last_event_id
        → All (λ b. IsFin (id_of b)) bs
        → (s.last_event_id ≼ (fold_all s bs).last_event_id)
          × All (λ b. id_of b ≼ (fold_all s bs).last_event_id) bs
    fold_all_watermark s bs p q = (fold_all_grows s bs p q, fold_all_covers s bs p q)
