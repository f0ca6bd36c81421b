-- ===== src/Session/Pending.antt =====
-- The cursor change in flight: `pendingCursorTarget` and `effectiveCursorVideoId` of
-- extension/src/background/session.ts.
use text.Mathlib.TextEquality.{eq_iff}
use playback_sync.Base.{◌≡◌, ◌≢◌, refl, none, some, List, [], ◌∷◌, String, All, arith}
use playback_sync.Number.{Number}
use playback_sync.Protocol.Frames.{CursorChangeFrame}
use playback_sync.Session.{SessionState, set_pending_cursor_target, effective_cursor_video_id}
use playback_sync.Session.Folds.{apply_cursor_change}

module _ {N : Type 0} ⦃n : Number N⦄ where
  unfoldable pub fold_changes : SessionState N → List (CursorChangeFrame N) → SessionState N
  fold_changes s [] = s
  fold_changes s (f ∷ fs) = fold_changes (apply_cursor_change s f).0 fs

  apply_cursor_change_other :
      (s : SessionState N) (f : CursorChangeFrame N) (v : String)
      → s.pending_cursor_target ≡ some v
      → f.cursor.video_id ≢ v
      → (apply_cursor_change s f).0.pending_cursor_target ≡ some v
  unfolding apply_cursor_change
  apply_cursor_change_other s f v e h = ground (arith, eq_iff f.cursor.video_id v)

  others :
      (s : SessionState N) (fs : List (CursorChangeFrame N)) (v : String)
      → s.pending_cursor_target ≡ some v
      → All (λ f. f.cursor.video_id ≢ v) fs
      → (fold_changes s fs).pending_cursor_target ≡ some v
  unfolding fold_changes
  others s [] v e h = e
  others s (f ∷ fs) v e (h, hs) =
      others (apply_cursor_change s f).0 fs v (apply_cursor_change_other s f v e h) hs

  -- A forwarded target stays the effective cursor through the broadcasts of any other videos.
  effective-fold_changes :
      (s : SessionState N) (fs : List (CursorChangeFrame N)) (v : String)
      → All (λ f. f.cursor.video_id ≢ v) fs
      → effective_cursor_video_id (fold_changes (set_pending_cursor_target v s) fs) ≡ some v
  unfolding effective_cursor_video_id
  effective-fold_changes s fs v h = ground (
    arith,
    others (set_pending_cursor_target v s) fs v (unfold set_pending_cursor_target in refl) h,
  )

  -- The broadcast of the forwarded target ends the wait: nothing is in flight afterwards, and the
  -- effective cursor is that video, now as the confirmed cursor.
  apply_cursor_change_confirms :
      (s : SessionState N) (f : CursorChangeFrame N)
      → s.pending_cursor_target ≡ some f.cursor.video_id
      → ((apply_cursor_change s f).0.pending_cursor_target ≡ none)
        × ((apply_cursor_change s f).0.cursor ≡ some f.cursor)
        × (effective_cursor_video_id (apply_cursor_change s f).0 ≡ some f.cursor.video_id)
  unfolding apply_cursor_change effective_cursor_video_id
  apply_cursor_change_confirms s f e = ground (arith, eq_iff f.cursor.video_id f.cursor.video_id)
