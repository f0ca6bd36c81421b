-- ===== src/Urls.antt =====
-- The pure URL helpers of the page adapters: extension/src/adapters/miruro/url.ts and the matchers by
-- adapter id of extension/src/adapters/url-matchers.ts. The browser's `new URL(text)` is a parameter,
-- `none` where it throws.
pub mod Paths
pub mod Return
use Prim.Native.String.{◌++◌ as append}
use text.Mathlib.Text.{◌==◌ as str_eq}
use playback_sync.Base.{
  Bool, true, false, Option, none, some, List, [], ◌∷◌, String, if◌then◌else◌, any, ◌||◌,
}
use playback_sync.Urls.Paths.{span, strip}

-- The parts of a `URL` that the sources read; `ep` is `searchParams.get('ep')`.
pub record Url : Type 0 where
  pub origin : String
  pub hostname : String
  pub pathname : String
  pub ep : Option String

-- The texts that `HOST_RE` matches: the four domains, with or without `www.`.
abbrev pub hosts : List String
hosts =
    "miruro.tv" ∷ "miruro.to" ∷ "miruro.bz" ∷ "miruro.ru" ∷ "www.miruro.tv" ∷ "www.miruro.to"
    ∷ "www.miruro.bz" ∷ "www.miruro.ru" ∷ []

unfoldable pub is_host : String → Bool
is_host name = any (str_eq name) hosts

-- `PATH_RE` behind its first group: the end, a slash, or a slug with a slash or none behind it.
unfoldable pub slug_tail : String → String × String → Option (String × Option String)
slug_tail show (slug, tail) =
    if str_eq slug ""
    then (if str_eq tail "" then some (show, none) else none)
    else if str_eq tail "" || str_eq tail "/"
    then some (show, some slug)
    else none

unfoldable pub slug_part : String → String → Option (String × Option String)
unfolding slug_tail
slug_part show String.[] = some (show, none)
slug_part show (String.◌∷◌ c rest) = slug_tail show (span rest)

unfoldable pub show_part : Option String → Option (String × Option String)
unfolding slug_part
show_part none = none
show_part (some rest) =
    let (show, tail) = span rest in if str_eq show "" then none else slug_part show tail

-- `PATH_RE.exec(pathname)`: the show id, and the slug if there is one.
unfoldable pub exec_path : String → Option (String × Option String)
unfolding show_part
exec_path path = show_part (strip "/watch/" path)

unfoldable pub make_video_id : String → String → String
make_video_id show ep = append show (append "-ep" ep)

-- The path of `makeWatchUrl`. An empty slug counts as none.
unfoldable pub watch_path : String → Option String → String
watch_path show none = append "/watch/" show
watch_path show (some slug) =
    if str_eq slug ""
    then append "/watch/" show
    else append "/watch/" (append show (append "/" slug))

unfoldable pub make_watch_url : String → String → String → Option String → String
unfolding watch_path
make_watch_url origin show ep slug =
    append origin (append (watch_path show slug) (append "?ep=" ep))

-- `videoIdForUrl` behind the match of the path.
unfoldable pub id_of_parts : Option (String × Option String) → Option String → Option String
unfolding make_video_id
id_of_parts none ep = none
id_of_parts (some m) none = none
id_of_parts (some (show, slug)) (some ep) =
    if str_eq ep "" then none else some (make_video_id show ep)

unfoldable pub miruro_video_id : Url → Option String
unfolding is_host exec_path id_of_parts
miruro_video_id url =
    if is_host url.hostname then id_of_parts (exec_path url.pathname) url.ep else none

-- `navigableUrlForCursor` behind the match of the path: the episode is what follows the show id and
-- `-ep` in the video id.
unfoldable pub episode_url : String → String → Option String → Option String → Option String
unfolding make_watch_url
episode_url origin show slug none = none
episode_url origin show slug (some ep) =
    if str_eq ep "" then none else some (make_watch_url origin show ep slug)

unfoldable pub navigable_parts : String → String → Option (String × Option String) → Option String
unfolding make_video_id episode_url
navigable_parts origin video_id none = none
navigable_parts origin video_id (some (show, slug)) =
    episode_url origin show slug (strip (make_video_id show "") video_id)

module _ (parse : String → Option Url) where
  unfoldable pub miruro_navigable_url : String → String → Option String
  unfolding is_host exec_path navigable_parts
  miruro_navigable_url video_id page_url = elim (parse page_url) [
    | none ↦ none
    | some url ↦
        if is_host url.hostname
        then navigable_parts url.origin video_id (exec_path url.pathname)
        else none
  ]

  -- `videoIdForUrl(adapterId, new URL(text))`, with the `catch` of its callers. The registry has one
  -- adapter.
  unfoldable pub video_id_for_url : String → String → Option String
  unfolding miruro_video_id
  video_id_for_url adapter_id text = elim (parse text) [
    | none ↦ none
    | some url ↦ if str_eq adapter_id "miruro" then miruro_video_id url else none
  ]

  unfoldable pub navigable_url_for_cursor : String → String → String → Option String
  unfolding miruro_navigable_url
  navigable_url_for_cursor adapter_id video_id page_url =
      if str_eq adapter_id "miruro" then miruro_navigable_url video_id page_url else none
