-- ===== src/Urls/Return.antt =====
-- The address that the navigation guard returns a tab to, read back by the guard: `makeWatchUrl` and
-- `navigableUrlForCursor` against `videoIdForUrl` of extension/src/adapters/miruro/url.ts.
use Prim.Native.String.{◌++◌}
use text.Mathlib.Text.{◌==◌ as str_eq}
use text.Mathlib.TextLemmas.{append_assoc, append-nil, cons-append, nil-append}
use mathlib.Core.Path.{ap₂}
use playback_sync.Base.{
  true, false, ◌≡◌, refl, sym, ap, ◌∙◌, Option, none, some, String, arith, Bool-cases, Ensures,
  subst, inl, inr, if-true, if-false,
}
use playback_sync.Urls.{
  Url, is_host, slug_part, slug_tail, show_part, exec_path, make_video_id, watch_path,
  make_watch_url, miruro_navigable_url, video_id_for_url, navigable_url_for_cursor, id_of_parts,
  navigable_parts, episode_url,
}
use playback_sync.Urls.Paths.{
  span, strip, strip-append, no_slash, no_slash-span, span-append, span-no_slash,
}

-- A show id and a slug as a path holds them: not empty, and with no slash.
abbrev IsSegment : String → Type 0
IsSegment s = (str_eq s "" ≡ false) × (no_slash s ≡ true)

abbrev AreSegments : String → Option String → Type 0
AreSegments show none = IsSegment show
AreSegments show (some slug) = IsSegment show × IsSegment slug

-- A slash alone ends a path, and a slash with a segment is a slug.
span_slash : (s : String) → span ("/" ++ s) ≡ ("", "/" ++ s)
unfolding span
span_slash s =
    ap span (cons-append "/" "" s)
    ∙ ap {B = String × String} (λ t. ("", t)) (sym (cons-append "/" "" s))

show_part-slug :
    (show slug : String)
    → IsSegment show
    → IsSegment slug
    → show_part (some (show ++ ("/" ++ slug))) ≡ some (show, some slug)
unfolding show_part
show_part-slug show slug (e, h) (e', h') =
    let at_slash : span (show ++ ("/" ++ slug)) ≡ (show, "/" ++ slug) =
      span-append show ("/" ++ slug) h
      ∙ ap (λ q. (show ++ q.0, q.1)) (span_slash slug)
      ∙ ap (λ t. (t, "/" ++ slug)) (append-nil show) in
    rw at_slash (
      rw e (
        rw (cons-append "/" "" slug)
          (rw (nil-append slug) (rw (span-no_slash slug h') (rw e' refl)))))

pub exec_path-watch_path :
    (show : String) (slug : Option String)
    → AreSegments show slug
    → exec_path (watch_path show slug) ≡ some (show, slug)
unfolding exec_path watch_path
exec_path-watch_path show none (e, h) =
    ap show_part (strip-append "/watch/" show)
    ∙ unfold show_part in rw (span-no_slash show h) (rw e refl)
exec_path-watch_path show (some slug) ((e, h), (e', h')) = rw e' (
    ap show_part (strip-append "/watch/" (show ++ ("/" ++ slug)))
    ∙ show_part-slug show slug (e, h) (e', h'))

-- What the path's match returns are segments.
slug_tail-AreSegments :
    (show slug tail : String)
    → IsSegment show
    → no_slash slug ≡ true
    → Ensures (λ m. AreSegments m.0 m.1) (slug_tail show (slug, tail))
unfolding slug_tail
slug_tail-AreSegments show slug tail s h = ground arith

slug_part-AreSegments :
    (show tail : String) → IsSegment show → Ensures (λ m. AreSegments m.0 m.1) (slug_part show tail)
unfolding slug_part
slug_part-AreSegments show String.[] s = s
slug_part-AreSegments show (String.◌∷◌ c rest) s =
    slug_tail-AreSegments show (span rest).0 (span rest).1 s (no_slash-span rest)

show_part-AreSegments : (o : Option String) → Ensures (λ m. AreSegments m.0 m.1) (show_part o)
unfolding show_part
show_part-AreSegments none = tt
show_part-AreSegments (some rest) = elim (Bool-cases (str_eq (span rest).0 "")) [
  | inl e ↦ rw e tt
  | inr e ↦ rw e (slug_part-AreSegments (span rest).0 (span rest).1 (e, no_slash-span rest))
]

pub exec_path-AreSegments :
    (path show : String) (slug : Option String)
    → exec_path path ≡ some (show, slug)
    → AreSegments show slug
unfolding exec_path
exec_path-AreSegments path show slug e =
    subst (λ o. Ensures (λ m. AreSegments m.0 m.1) o) e
      (show_part-AreSegments (strip "/watch/" path))

-- The address built for a video id is that of its episode.
navigable_parts-make_video_id :
    (origin show ep : String) (slug : Option String)
    → str_eq ep "" ≡ false
    → navigable_parts origin (make_video_id show ep) (some (show, slug))
      ≡ some (make_watch_url origin show ep slug)
unfolding navigable_parts make_video_id
navigable_parts-make_video_id origin show ep slug e =
    ap (episode_url origin show slug) (
      ap (strip (show ++ "-ep")) (sym (append_assoc show "-ep" ep))
      ∙ strip-append (show ++ "-ep") ep)
    ∙ unfold episode_url in if-false none (some (make_watch_url origin show ep slug)) e

navigable_url-page :
    (parse : String → Option Url) (video page_url : String) (page : Url)
    → parse page_url ≡ some page
    → is_host page.hostname ≡ true
    → navigable_url_for_cursor parse "miruro" video page_url
      ≡ navigable_parts page.origin video (exec_path page.pathname)
unfolding navigable_url_for_cursor
navigable_url-page parse video page_url page p h = rw (p, miruro_navigable_url) (if-true _ none h)

pub video_id-landed :
    (parse : String → Option Url) (text : String) (url : Url)
    → parse text ≡ some url
    → is_host url.hostname ≡ true
    → video_id_for_url parse "miruro" text ≡ id_of_parts (exec_path url.pathname) url.ep
unfolding video_id_for_url
video_id-landed parse text url p h = rw (p, video_id_for_url) (if-true _ none h)

pub id_of_parts-some :
    (show ep : String) (slug : Option String)
    → str_eq ep "" ≡ false
    → id_of_parts (some (show, slug)) (some ep) ≡ some (make_video_id show ep)
unfolding id_of_parts
id_of_parts-some show ep slug e = if-false none (some (make_video_id show ep)) e

-- The path and the address of a watch page, as miruro writes them.
abbrev pub written_path : String → Option String → String
written_path show none = "/watch/" ++ show
written_path show (some slug) = "/watch/" ++ (show ++ ("/" ++ slug))

abbrev pub written_address : String → String → String → String
written_address origin path ep = origin ++ (path ++ ("?ep=" ++ ep))

watch_path-written_path :
    (show : String) (slug : Option String)
    → AreSegments show slug
    → watch_path show slug ≡ written_path show slug
unfolding watch_path
watch_path-written_path show none s = refl
watch_path-written_path show (some slug) (s, (e, h)) = rw e refl

make_watch_url-written_address :
    (origin show ep : String) (slug : Option String)
    → AreSegments show slug
    → make_watch_url origin show ep slug ≡ written_address origin (written_path show slug) ep
unfolding make_watch_url
make_watch_url-written_address origin show ep slug s =
    ap (λ path. written_address origin path ep) (watch_path-written_path show slug s)

-- A tab that the guard returns to the cursor lands on an address that resolves to the cursor again.
-- `page` is the parsed page address of the cursor, a watch page of a miruro host, and the video id
-- is its show's with a nonempty episode. The browser reads the address origin, path and `?ep=` with the
-- episode as a page of the same host with this path and this episode; the path is `/watch/`, the show and,
-- if the page has one, a slash and the slug.
pub video_id-navigable_url :
    (parse : String → Option Url) (page_url show ep : String) (slug : Option String)
    (page landed : Url)
    → parse page_url ≡ some page
    → is_host page.hostname ≡ true
    → exec_path page.pathname ≡ some (show, slug)
    → str_eq ep "" ≡ false
    → parse (written_address page.origin (written_path show slug) ep) ≡ some landed
    → landed.hostname ≡ page.hostname
    → landed.pathname ≡ written_path show slug
    → landed.ep ≡ some ep
    → (target : String) × (navigable_url_for_cursor parse "miruro" (make_video_id show ep) page_url
        ≡ some target)
      × (video_id_for_url parse "miruro" target ≡ some (make_video_id show ep))
video_id-navigable_url parse page_url show ep slug page landed p h m e q lh lp le =
    let s = exec_path-AreSegments page.pathname show slug m in
    let text = make_watch_url-written_address page.origin show ep slug s in
    (
      make_watch_url page.origin show ep slug,
      navigable_url-page parse (make_video_id show ep) page_url page p h
          ∙ ap (navigable_parts page.origin (make_video_id show ep)) m
          ∙ navigable_parts-make_video_id page.origin show ep slug e,
      video_id-landed parse _ landed (ap parse text ∙ q) (ap is_host lh ∙ h)
          ∙ ap₂ id_of_parts
              (ap exec_path (lp ∙ sym (watch_path-written_path show slug s))
                ∙ exec_path-watch_path show slug s)
              le
          ∙ id_of_parts-some show ep slug e,
    )
