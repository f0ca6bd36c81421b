-- ===== src/Background/Navigation.antt =====
-- What a navigation of a guarded tab leads to: `handleTabNavigation`, `routeGuardedNav`, and the
-- suspended halves of `reconcileCursorToRoom` and `recheckAndPullBack`, in
-- extension/entrypoints/background.ts. `parse` is the browser's URL constructor; `live` is the URL
-- that `browser.tabs.get` finds, `none` where the call rejects or the tab has no URL.
use text.Mathlib.Text.{◌==◌ as str_eq}
use playback_sync.Base.{
  ℕ, Bool, true, false, not, ◌||◌, Option, none, some, String, if◌then◌else◌, any, find, or_else,
}
use playback_sync.Protocol.Frames.{PlaylistEntry, VideoRefWithMeta}
use playback_sync.Session.{SessionState, effective_cursor_video_id}
use playback_sync.Session.Ops.{begin_guard_reload}
use playback_sync.Urls.{Url, video_id_for_url, navigable_url_for_cursor}
use playback_sync.Ws.Senders.{is_freeform}
use playback_sync.Background.{Context, routing, Tab, update, emit, suspend, mutate}
use playback_sync.Background.Guard.{
  is_single, same_video, is_room_video, is_entry_of, ref_of_entry, guard_context, pull_tab_back,
  is_steerable, forward_cursor_change, recheck,
}

-- The cursor's address with its episode rebuilt, or as it stands.
unfoldable pub pull_back_target : (String → Option Url) → Context → String
unfolding navigable_url_for_cursor
pull_back_target parse ctx =
    or_else (navigable_url_for_cursor parse ctx.adapter_id ctx.cursor.video_id ctx.cursor.page_url)
      ctx.cursor.page_url

module _ {N : Type 0} where
  abbrev pub on_effective_cursor : Option String → SessionState N → Bool
  on_effective_cursor video s = same_video video (effective_cursor_video_id s)

  -- A tab as it stands before the await, which the handlers below resume.
  abbrev pub object_of : Context → Tab N → SessionState N
  object_of ctx t = t.objects ctx.session

  abbrev pub find_entry : String → String → SessionState N → Option (PlaylistEntry N)
  find_entry provider video s = find (is_entry_of provider video) s.playlist

  abbrev pub in_playlist : Context → Option String → SessionState N → Bool
  in_playlist ctx none s = false
  in_playlist ctx (some video) s = any (is_entry_of ctx.cursor.provider_id video) s.playlist

  -- `routeGuardedNav` up to its await, as the debounce timer's callback.
  unfoldable pub nav_due : Tab N → Tab N
  unfolding guard_context
  nav_due t =
      let t' = record t { nav_timer = false } in
      elim (guard_context true t') [
        | none ↦ t'
        | some ctx ↦ if is_steerable (object_of ctx t') then suspend (routing ctx) t' else t'
      ]

  -- Off the effective cursor, in default or single mode, at an entry of the playlist or at none.
  unfoldable pub route_anchored : ℕ → Context → Option (PlaylistEntry N) → Tab N → Tab N
  unfolding pull_tab_back forward_cursor_change recheck
  route_anchored now ctx none t = recheck t
  route_anchored now ctx (some entry) t =
      if is_single (object_of ctx t).mode
      then pull_tab_back now ctx.session t
      else forward_cursor_change ctx.session (ref_of_entry entry) t

module _ {N : Type 0} (parse : String → Option Url) where
  unfoldable pub handle_tab_navigation : String → Tab N → Tab N
  unfolding guard_context effective_cursor_video_id video_id_for_url
  handle_tab_navigation url t = elim (guard_context true t) [
    | none ↦ t
    | some ctx ↦
        let s = object_of ctx t in
        if not (is_steerable s) || on_effective_cursor (video_id_for_url parse ctx.adapter_id url) s
        then t
        else record t { nav_timer = true }
  ]

  -- The target that a freeform tab forwards: never the tab's own URL if a clean one can be built.
  unfoldable pub freeform_target : Context → String → String → VideoRefWithMeta N
  unfolding navigable_url_for_cursor
  freeform_target ctx video live = record {
    provider_id = ctx.cursor.provider_id;
    video_id = video;
    page_url = or_else (navigable_url_for_cursor parse ctx.adapter_id video live) live;
    label = none;
    episode_number = none;
    season_number = none;
  }

  -- Off the effective cursor, with the video that the live URL resolves to.
  unfoldable pub route_move : ℕ → Context → String → Option String → Tab N → Tab N
  unfolding route_anchored freeform_target
  route_move now ctx live none t =
      if is_freeform (object_of ctx t).mode then t else route_anchored now ctx none t
  route_move now ctx live (some video) t =
      if is_freeform (object_of ctx t).mode
      then forward_cursor_change ctx.session (freeform_target ctx video live) t
      else route_anchored now ctx (find_entry ctx.cursor.provider_id video (object_of ctx t)) t

  -- `routeGuardedNav` behind its await.
  unfoldable pub route_resumed : ℕ → Context → Option String → Tab N → Tab N
  unfolding route_move effective_cursor_video_id video_id_for_url
  route_resumed now ctx none t = t
  route_resumed now ctx (some live) t =
      let video = video_id_for_url parse ctx.adapter_id live in
      if str_eq live "" || on_effective_cursor video (object_of ctx t)
      then t
      else route_move now ctx live video t

  unfoldable pub is_room_url : SessionState N → String → String → Bool
  unfolding is_room_video video_id_for_url
  is_room_url s url adapter_id = is_room_video s (video_id_for_url parse adapter_id url)

  -- `recheckAndPullBack` behind its await.
  unfoldable pub recheck_resumed : Context → Option String → Tab N → Tab N
  unfolding is_room_url pull_back_target begin_guard_reload
  recheck_resumed ctx none t = t
  recheck_resumed ctx (some live) t =
      if str_eq live "" || is_room_url (object_of ctx t) live ctx.adapter_id
      then t
      else emit (update (pull_back_target parse ctx))
          (record (mutate ctx.session begin_guard_reload t) { reload_timer = true })

  -- `reconcileCursorToRoom` behind its await: `cursor` is the one read before it.
  unfoldable pub reconcile_resumed : ℕ → Context → Option String → Tab N → Tab N
  unfolding pull_tab_back recheck video_id_for_url
  reconcile_resumed now ctx none t = t
  reconcile_resumed now ctx (some live) t =
      let video = video_id_for_url parse ctx.adapter_id live in
      if str_eq live "" || same_video video (some ctx.cursor.video_id)
      then t
      else if in_playlist ctx video (object_of ctx t)
      then pull_tab_back now ctx.session t
      else recheck t
