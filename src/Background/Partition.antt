-- ===== src/Background/Partition.antt =====
-- The behaviour matrix of a guarded navigation, `routeGuardedNav` of
-- extension/entrypoints/background.ts: which moves a room hears of, and which tabs are pulled back.
use text.Mathlib.Text.{◌==◌ as str_eq}
use text.Mathlib.TextEquality.{eq_iff}
use playback_sync.Base.{
  ℕ, Bool, true, false, ◌≡◌, ◌≢◌, refl, sym, ap, ◌∙◌, Option, none, some, List, [], ◌∷◌, String,
  ◌⊎◌, inl, inr, arith, any, if-split, Option-split, ◌||◌, ==-refl,
}
use playback_sync.Protocol.Frames.{VideoRefWithMeta, PlaylistEntry}
use playback_sync.Messages.{AuthoritativeCommand, cursor_change}
use playback_sync.Session.{Mode, single, freeform, default}
use playback_sync.Urls.{Url, video_id_for_url}
use playback_sync.Ws.Senders.{is_freeform}
use playback_sync.Tabs.{get_tab}
use playback_sync.Session.Windows.{record_command}
use playback_sync.Background.{mutate, Tab, Output, Context, message, command, ws_cursor_request}
use playback_sync.Background.Dispatch.{send_command, dispatch_command}
use playback_sync.Background.Guard.{
  is_single, is_entry_of, ref_of_entry, forward_cursor_change, pull_tab_back, recheck,
  guard_context,
}
use playback_sync.Background.Matrix.{both, find_entailed}
use playback_sync.Background.Navigation.{
  on_effective_cursor, object_of, find_entry, freeform_target, route_anchored, route_move,
  route_resumed,
}

-- The modes exclude one another.
not_freeform : {P : Type 0} (m : Mode) → is_freeform m ≡ false → m ≡ freeform → P
not_freeform default e h = cc
not_freeform single e h = cc
not_freeform freeform e h = cc

not_single : {P : Type 0} (m : Mode) → is_single m ≡ false → m ≡ single → P
not_single default e h = cc
not_single single e h = cc
not_single freeform e h = cc

only_freeform : {P : Type 0} (m m' : Mode) → is_freeform m ≡ true → m ≡ m' → m' ≢ freeform → P
only_freeform default m' e h k = cc
only_freeform single m' e h k = cc
only_freeform freeform m' e h k = absurd (k (sym h))

neither : (a b : Bool) → (a || b) ≡ false → b ≡ false
neither a b q = ground arith

module _ {N : Type 0} where
  -- The cursor changes that the tab has asked its room for.
  abbrev pub requests : List (Output N) → List (VideoRefWithMeta N)
  requests [] = []
  requests (ws_cursor_request v ∷ os) = v ∷ requests os
  requests (_ ∷ os) = requests os

  -- The commands that the tab's frames were sent.
  abbrev pub commands : List (Output N) → List (AuthoritativeCommand N)
  commands [] = []
  commands (message f (command c) ∷ os) = c ∷ commands os
  commands (_ ∷ os) = commands os

  -- The move that the room is asked for, if any: to the video of the live URL, which is not the
  -- effective cursor, and in default mode one of the playlist's.
  pub record IsMove (parse : String → Option Url) (ctx : Context) (live : String) (t u : Tab N)
      : Type 0 where
    pub target : VideoRefWithMeta N
    pub requested : requests u.out ≡ target ∷ requests t.out
    pub resolved : video_id_for_url parse ctx.adapter_id live ≡ some target.video_id
    pub moved : on_effective_cursor (some target.video_id) (object_of ctx t) ≡ false
    pub listed :
        (object_of ctx t).mode ≡ default
        → any (is_entry_of ctx.cursor.provider_id target.video_id) (object_of ctx t).playlist ≡ true
    pub pending : (object_of ctx u).pending_cursor_target ≡ some target.video_id

  pub record IsRouted (parse : String → Option Url) (ctx : Context) (live : String) (t u : Tab N)
      : Type 0 where
    pub locked : (object_of ctx t).mode ≡ single → requests u.out ≡ requests t.out
    pub uncoerced :
        (object_of ctx t).mode ≡ freeform → (u.tasks ≡ t.tasks) × (commands u.out ≡ commands t.out)
    pub forwards : (requests u.out ≡ requests t.out) ⊎ IsMove parse ctx live t u

  requests-send_command :
      (c : AuthoritativeCommand N) (t : Tab N) → requests (send_command c t).out ≡ requests t.out
  unfolding send_command
  requests-send_command c t =
      Option-split (λ (u : Tab N). requests u.out ≡ requests t.out) (get_tab t.id t.cache) t _ refl
        (λ entry e. refl)

  requests-dispatch_command :
      (now : ℕ) (c : AuthoritativeCommand N) (t : Tab N)
      → requests (dispatch_command now c t).out ≡ requests t.out
  unfolding dispatch_command
  requests-dispatch_command now c t =
      Option-split (λ (u : Tab N). requests u.out ≡ requests t.out) t.session t _ refl
        (λ id e. requests-send_command c (mutate id (λ s. record_command now s c) t))

  requests-pull_tab_back :
      (now id : ℕ) (t : Tab N) → requests (pull_tab_back now id t).out ≡ requests t.out
  unfolding pull_tab_back
  requests-pull_tab_back now id t =
      Option-split (λ (u : Tab N). requests u.out ≡ requests t.out) (t.objects id).cursor t _ refl
        (λ c e. requests-dispatch_command now (cursor_change c.page_url) t)

  requests-recheck : (t : Tab N) → requests (recheck t).out ≡ requests t.out
  unfolding recheck
  requests-recheck t =
      Option-split (λ (u : Tab N). requests u.out ≡ requests t.out) (guard_context false t) t _ refl
        (λ c e. refl)

  module _ (parse : String → Option Url) (ctx : Context) (live : String) (t : Tab N) where
    -- A branch that asks for nothing, outside freeform mode.
    unasked-IsRouted :
        (u : Tab N)
        → is_freeform (object_of ctx t).mode ≡ false
        → requests u.out ≡ requests t.out
        → IsRouted parse ctx live t u
    unasked-IsRouted u f e = record {
      locked = λ h. e;
      uncoerced = λ h. not_freeform (object_of ctx t).mode f h;
      forwards = inl e;
    }

    pending_after :
        (target : VideoRefWithMeta N)
        → (object_of ctx (forward_cursor_change ctx.session target t)).pending_cursor_target
          ≡ some target.video_id
    unfolding forward_cursor_change
    pending_after target = rw (==-refl ctx.session) refl

    -- A forwarded change of a mode that is not locked.
    forward-IsRouted :
        (target : VideoRefWithMeta N)
        → ((object_of ctx t).mode ≢ single)
        → video_id_for_url parse ctx.adapter_id live ≡ some target.video_id
        → on_effective_cursor (some target.video_id) (object_of ctx t) ≡ false
        → ((object_of ctx t).mode ≡ default
            → any (is_entry_of ctx.cursor.provider_id target.video_id) (object_of ctx t).playlist
              ≡ true)
        → IsRouted parse ctx live t (forward_cursor_change ctx.session target t)
    forward-IsRouted target k r m l = record {
      locked = λ h. absurd (k h);
      uncoerced = λ h. unfold forward_cursor_change in (refl, refl);
      forwards = inr (record {
        target = target;
        requested = unfold forward_cursor_change in refl;
        resolved = r;
        moved = m;
        listed = l;
        pending = pending_after target;
      });
    }

    same_id :
        (video : String) (e : PlaylistEntry N)
        → is_entry_of ctx.cursor.provider_id video e ≡ true
        → e.video_id ≡ video
    same_id video e h = (eq_iff e.video_id video).0 (both _ _ h)

    route_anchored-IsRouted :
        (now : ℕ) (video : String) (entry : Option (PlaylistEntry N))
        → is_freeform (object_of ctx t).mode ≡ false
        → find_entry ctx.cursor.provider_id video (object_of ctx t) ≡ entry
        → video_id_for_url parse ctx.adapter_id live ≡ some video
        → on_effective_cursor (some video) (object_of ctx t) ≡ false
        → IsRouted parse ctx live t (route_anchored now ctx entry t)
    unfolding route_anchored
    route_anchored-IsRouted now video none f h r m =
        unasked-IsRouted (recheck t) f (requests-recheck t)
    route_anchored-IsRouted now video (some entry) f h r m =
        let found =
          find_entailed (is_entry_of ctx.cursor.provider_id video) (object_of ctx t).playlist entry
            h in
        let same = same_id video entry found.0 in
        if-split (IsRouted parse ctx live t) (is_single (object_of ctx t).mode) _ _
          (λ q.
            unasked-IsRouted (pull_tab_back now ctx.session t) f
              (requests-pull_tab_back now ctx.session t))
          (λ q.
            forward-IsRouted (ref_of_entry entry) (λ k. not_single (object_of ctx t).mode q k)
              (r ∙ ap some (sym same))
              (ap (λ v. on_effective_cursor (some v) (object_of ctx t)) same ∙ m)
              (λ k.
                ap (λ v. any (is_entry_of ctx.cursor.provider_id v) (object_of ctx t).playlist) same
                ∙ found.1))

    route_move-IsRouted :
        (now : ℕ) (video : Option String)
        → video_id_for_url parse ctx.adapter_id live ≡ video
        → on_effective_cursor video (object_of ctx t) ≡ false
        → IsRouted parse ctx live t (route_move parse now ctx live video t)
    unfolding route_move
    route_move-IsRouted now none r m =
        if-split (IsRouted parse ctx live t) (is_freeform (object_of ctx t).mode) _ _
          (λ q. record { locked = λ h. refl; uncoerced = λ h. (refl, refl); forwards = inl refl })
          (λ q. unfold route_anchored in unasked-IsRouted (recheck t) q (requests-recheck t))
    route_move-IsRouted now (some video) r m =
        if-split (IsRouted parse ctx live t) (is_freeform (object_of ctx t).mode) _ _
          (λ q.
            forward-IsRouted (freeform_target parse ctx video live)
              (λ k. only_freeform (object_of ctx t).mode single q k (λ z. cc))
              (unfold freeform_target in r) (unfold freeform_target in m)
              (λ k. only_freeform (object_of ctx t).mode default q k (λ z. cc)))
          (λ q. route_anchored-IsRouted now video _ q refl r m)

    -- What becomes of a navigation whose live URL is known: a locked room hears of no move, a freeform
    -- tab is not pulled back, and any move that the room is asked for is one to the video of the URL,
    -- off the effective cursor, in default mode to an entry of the playlist under the cursor's
    -- provider; it is the pending target afterwards.
    pub route_resumed-IsRouted :
        (now : ℕ) → IsRouted parse ctx live t (route_resumed parse now ctx (some live) t)
    unfolding route_resumed
    route_resumed-IsRouted now =
        let video = video_id_for_url parse ctx.adapter_id live in
        if-split (IsRouted parse ctx live t)
          (str_eq live "" || on_effective_cursor video (object_of ctx t)) _ _
          (λ q. record { locked = λ h. refl; uncoerced = λ h. (refl, refl); forwards = inl refl })
          (λ q.
            route_move-IsRouted now video refl
              (neither (str_eq live "") (on_effective_cursor video (object_of ctx t)) q))
