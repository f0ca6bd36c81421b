-- ===== src/Background/Settled.antt =====
-- The page that the navigation guard of extension/entrypoints/background.ts returns a tab to, read
-- back by the guard.
use text.Mathlib.Text.{◌==◌ as str_eq}
use text.Mathlib.TextPositions.{eq_refl}
use playback_sync.Base.{
  ℕ, Bool, true, false, ◌≡◌, refl, Option, none, some, String, arith, if-true, ◌||◌,
}
use playback_sync.Session.{SessionState, effective_cursor_video_id, cursor_video_id}
use playback_sync.Urls.{
  Url, is_host, exec_path, make_video_id, video_id_for_url, navigable_url_for_cursor,
}
use playback_sync.Urls.Return.{written_address, written_path, video_id-navigable_url}
use playback_sync.Background.{Tab, Context}
use playback_sync.Background.Guard.{is_room_video}
use playback_sync.Background.Navigation.{
  object_of, on_effective_cursor, pull_back_target, is_room_url, recheck_resumed, route_resumed,
}

or_true : (a b : Bool) → b ≡ true → (a || b) ≡ true
or_true a b h = ground arith

-- The cursor of a miruro room: its page address parses to a watch page, its id is the show's with a
-- nonempty episode, and the browser reads the address that `makeWatchUrl` builds as it was written.
pub record IsWatched (parse : String → Option Url) (ctx : Context) : Type 0 where
  pub show : String
  pub slug : Option String
  pub ep : String
  pub page : Url
  pub landed : Url
  pub of_adapter : ctx.adapter_id ≡ "miruro"
  pub of_show : ctx.cursor.video_id ≡ make_video_id show ep
  pub parsed : parse ctx.cursor.page_url ≡ some page
  pub hosted : is_host page.hostname ≡ true
  pub matched : exec_path page.pathname ≡ some (show, slug)
  pub episode : str_eq ep "" ≡ false
  pub read_back : parse (written_address page.origin (written_path show slug) ep) ≡ some landed
  pub same_host : landed.hostname ≡ page.hostname
  pub same_path : landed.pathname ≡ written_path show slug
  pub same_ep : landed.ep ≡ some ep

target_id :
    (parse : String → Option Url) (ctx : Context)
    → IsWatched parse ctx
    → video_id_for_url parse ctx.adapter_id (pull_back_target parse ctx) ≡ some ctx.cursor.video_id
unfolding pull_back_target
target_id parse ctx w =
    let r =
      video_id-navigable_url parse ctx.cursor.page_url w.show w.ep w.slug w.page w.landed w.parsed
        w.hosted w.matched w.episode w.read_back w.same_host w.same_path w.same_ep in
    let at : navigable_url_for_cursor parse ctx.adapter_id ctx.cursor.video_id ctx.cursor.page_url
        ≡ some r.0 =
      rw (w.of_adapter, w.of_show) r.1 in
    rw at (rw (w.of_adapter, w.of_show) r.2)

module _ {N : Type 0} where
  room_video :
      (s : SessionState N) (v : String)
      → cursor_video_id s.cursor ≡ some v
      → is_room_video s (some v) ≡ true
  unfolding is_room_video
  room_video s v e = rw e (rw (eq_refl v) refl)

  effective_room :
      (s : SessionState N) (v : String)
      → cursor_video_id s.cursor ≡ some v
      → s.pending_cursor_target ≡ none
      → on_effective_cursor (some v) s ≡ true
  unfolding effective_cursor_video_id
  effective_room s v e h = rw (h, e) (eq_refl v)

  -- The check for a reload does nothing to a tab that stands where the guard returned it to.
  recheck-settled :
      (parse : String → Option Url) (ctx : Context) (t : Tab N)
      → IsWatched parse ctx
      → cursor_video_id (object_of ctx t).cursor ≡ some ctx.cursor.video_id
      → recheck_resumed parse ctx (some (pull_back_target parse ctx)) t ≡ t
  unfolding recheck_resumed is_room_url
  recheck-settled parse ctx t w e =
      let target = pull_back_target parse ctx in
      if-true t _ (
        or_true (str_eq target "") (is_room_url parse (object_of ctx t) target ctx.adapter_id)
          (rw (target_id parse ctx w) (room_video (object_of ctx t) ctx.cursor.video_id e)))

  -- The guard does not steer a miruro tab again that stands on the address to which it returned the tab:
  -- neither the routing of a navigation nor the check for a reload does anything. This holds while no
  -- forwarded change is pending, the cursor of the session is still that of the context, and the context
  -- satisfies `IsWatched`: its page address is read as a watch page of a miruro host, its video is a nonempty
  -- episode of that page's show, and the address that is written of them is read back as it was written.
  pub pull_back_target-settled :
      (parse : String → Option Url) (ctx : Context) (now : ℕ) (t : Tab N)
      → IsWatched parse ctx
      → cursor_video_id (object_of ctx t).cursor ≡ some ctx.cursor.video_id
      → (object_of ctx t).pending_cursor_target ≡ none
      → (route_resumed parse now ctx (some (pull_back_target parse ctx)) t ≡ t)
        × (recheck_resumed parse ctx (some (pull_back_target parse ctx)) t ≡ t)
  unfolding route_resumed
  pull_back_target-settled parse ctx now t w e h =
      let target = pull_back_target parse ctx in
      let video = video_id_for_url parse ctx.adapter_id target in
      (
        if-true t _ (
            or_true (str_eq target "") (on_effective_cursor video (object_of ctx t)) (
              rw (target_id parse ctx w)
                (effective_room (object_of ctx t) ctx.cursor.video_id e h))),
        recheck-settled parse ctx t w e,
      )
