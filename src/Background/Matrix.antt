-- ===== src/Background/Matrix.antt =====
-- The behaviour matrix in the comment of `routeGuardedNav` of extension/entrypoints/background.ts, as a
-- table, and the handler held against it.
use text.Mathlib.Text.{◌==◌ as str_eq}
use text.Mathlib.TextEquality.{eq_iff}
use playback_sync.Base.{
  ℕ, Bool, true, false, ◌≡◌, refl, ap, Option, none, some, List, [], ◌∷◌, String, arith, any, find,
  if-false, if-true, ◌&&◌,
}
use playback_sync.Protocol.Frames.{VideoRefWithMeta, PlaylistEntry}
use playback_sync.Session.{Mode, single, freeform, default}
use playback_sync.Urls.{Url, video_id_for_url}
use playback_sync.Background.{Tab, Context}
use playback_sync.Ws.Senders.{is_freeform}
use playback_sync.Background.Guard.{
  is_entry_of, is_single, ref_of_entry, forward_cursor_change, pull_tab_back, recheck,
}
use playback_sync.Background.Navigation.{
  on_effective_cursor, object_of, find_entry, in_playlist, freeform_target, route_anchored,
  route_move, route_resumed,
}

-- Left alone, forwarded to the room, returned by a click, or checked for a hard reload.
pub data Verdict : Type 0 where
  leaves : Verdict
  forwards : String → Verdict
  returns : Verdict
  checks : Verdict

-- By the mode, the video of the live URL and whether it is in the playlist.
abbrev pub verdict : Mode → Option String → Bool → Verdict
verdict freeform none listed = leaves
verdict freeform (some video) listed = forwards video
verdict default (some video) true = forwards video
verdict single (some video) true = returns
verdict default _ _ = checks
verdict single _ _ = checks

pub both : (a b : Bool) → (a && b) ≡ true → b ≡ true
both a b q = ground arith

module _ {N : Type 0} where
  -- A change to the video was forwarded.
  pub record IsForwarded (ctx : Context) (video : String) (t u : Tab N) : Type 0 where
    pub target : VideoRefWithMeta N
    pub of_video : target.video_id ≡ video
    pub forwarded : u ≡ forward_cursor_change ctx.session target t

  abbrev pub Outcome : ℕ → Context → Verdict → Tab N → Tab N → Type 0
  Outcome now ctx leaves t u = u ≡ t
  Outcome now ctx (forwards video) t u = IsForwarded ctx video t u
  Outcome now ctx returns t u = u ≡ pull_tab_back now ctx.session t
  Outcome now ctx checks t u = u ≡ recheck t

  any-find :
      (p : PlaylistEntry N → Bool) (es : List (PlaylistEntry N))
      → find p es ≡ none
      → any p es ≡ false
  any-find p [] h = refl
  any-find p (x ∷ xs) h = ground (arith, any-find p xs)

  pub find_entailed :
      (p : PlaylistEntry N → Bool) (es : List (PlaylistEntry N)) (e : PlaylistEntry N)
      → find p es ≡ some e
      → (p e ≡ true) × (any p es ≡ true)
  find_entailed p [] e h = cc
  find_entailed p (x ∷ xs) e h = ground (arith, find_entailed p xs e)

  module _ (now : ℕ) (ctx : Context) (t : Tab N) where
    abbrev listed : String → Bool
    listed video = any (is_entry_of ctx.cursor.provider_id video) (object_of ctx t).playlist

    -- The anchored modes, by the entry that was found.
    default-Outcome :
        (video : String) (entry : Option (PlaylistEntry N))
        → (object_of ctx t).mode ≡ default
        → find_entry ctx.cursor.provider_id video (object_of ctx t) ≡ entry
        → Outcome now ctx
            (verdict default (some video) (listed video))
            t
            (route_anchored now ctx entry t)
    unfolding route_anchored
    default-Outcome video none e h =
        rw (any-find (is_entry_of ctx.cursor.provider_id video) (object_of ctx t).playlist h) refl
    default-Outcome video (some entry) e h =
        let found =
          find_entailed (is_entry_of ctx.cursor.provider_id video) (object_of ctx t).playlist entry
            h in
        rw found.1 (record {
          target = ref_of_entry entry;
          of_video = (eq_iff entry.video_id video).0 (both _ _ found.0);
          forwarded = if-false _ _ (ap is_single e);
        })

    single-Outcome :
        (video : String) (entry : Option (PlaylistEntry N))
        → (object_of ctx t).mode ≡ single
        → find_entry ctx.cursor.provider_id video (object_of ctx t) ≡ entry
        → Outcome now ctx
            (verdict single (some video) (listed video))
            t
            (route_anchored now ctx entry t)
    unfolding route_anchored
    single-Outcome video none e h =
        rw (any-find (is_entry_of ctx.cursor.provider_id video) (object_of ctx t).playlist h) refl
    single-Outcome video (some entry) e h =
        let found =
          find_entailed (is_entry_of ctx.cursor.provider_id video) (object_of ctx t).playlist entry
            h in
        rw found.1 (if-true _ _ (ap is_single e))

    module _ (parse : String → Option Url) (live : String) where
      route_move-Outcome :
          (video : Option String) (m : Mode)
          → (object_of ctx t).mode ≡ m
          → Outcome now ctx
              (verdict m video (in_playlist ctx video (object_of ctx t)))
              t
              (route_move parse now ctx live video t)
      unfolding route_move freeform_target
      route_move-Outcome none freeform e = if-true _ _ (ap is_freeform e)
      route_move-Outcome none default e = unfold route_anchored in if-false _ _ (ap is_freeform e)
      route_move-Outcome none single e = unfold route_anchored in if-false _ _ (ap is_freeform e)
      route_move-Outcome (some video) freeform e = record {
        target = freeform_target parse ctx video live;
        of_video = refl;
        forwarded = if-true _ _ (ap is_freeform e);
      }
      route_move-Outcome (some video) default e =
          rw (ap is_freeform e) (
            default-Outcome video (find_entry ctx.cursor.provider_id video (object_of ctx t)) e
              refl)
      route_move-Outcome (some video) single e =
          rw (ap is_freeform e) (
            single-Outcome video (find_entry ctx.cursor.provider_id video (object_of ctx t)) e refl)

      -- A navigation off the effective cursor is answered as the table says, with exactly one of: no
      -- action, a forwarded change to the video of the live URL, a click back to the cursor, or a
      -- check for a hard reload. The live URL is not empty.
      pub route_resumed-verdict :
          str_eq live "" ≡ false
          → on_effective_cursor (video_id_for_url parse ctx.adapter_id live) (object_of ctx t)
            ≡ false
          → Outcome now ctx
              (verdict
                (object_of ctx t).mode
                (video_id_for_url parse ctx.adapter_id live)
                (in_playlist ctx (video_id_for_url parse ctx.adapter_id live) (object_of ctx t)))
              t
              (route_resumed parse now ctx (some live) t)
      unfolding route_resumed
      route_resumed-verdict h e =
          rw (h, e)
            (route_move-Outcome (video_id_for_url parse ctx.adapter_id live) (object_of ctx t).mode
              refl)
