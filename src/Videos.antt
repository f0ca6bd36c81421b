-- ===== src/Videos.antt =====
-- What the dashboard makes of a pasted address: src/util/parseVideoUrl.ts and src/util/suggestMode.ts. The
-- browser's `new URL(text)` is the parameter `parse`, `none` where it throws; `trim` and `lower` are
-- those of JavaScript texts.
pub mod Parts
pub mod Keys
use text.Mathlib.Text.{◌==◌ as str_eq}
use playback_sync.Base.{
  Bool, true, false, not, ◌||◌, ◌&&◌, Option, none, some, List, [], ◌∷◌, ◌++◌, String,
  if◌then◌else◌, any, or_else,
}
use playback_sync.Urls.Paths.{span}
use playback_sync.Videos.Parts.{
  drop_www, drop_slashes, segments, last, first_segment, is_digits, watch_id, ends_with, lines_of,
}

-- The parts of a `URL` that are read: `v` is `searchParams.get('v')`.
pub record PageUrl : Type 0 where
  pub protocol : String
  pub hostname : String
  pub pathname : String
  pub v : Option String
  pub has_list : Bool

pub record ParsedVideo : Type 0 where
  pub provider_id : String
  pub video_id : String
  pub page_url : String

pub data ModeSuggestion : Type 0 where
  suggest_default : ModeSuggestion
  suggest_freeform : ModeSuggestion

abbrev pub one_of : List String → String → Bool
one_of texts host = any (str_eq host) texts

abbrev pub youtube_hosts : List String
youtube_hosts = "youtube.com" ∷ "m.youtube.com" ∷ "music.youtube.com" ∷ []

abbrev pub vimeo_hosts : List String
vimeo_hosts = "vimeo.com" ∷ "player.vimeo.com" ∷ []

-- A value that is truthy.
abbrev pub non_empty : Option String → Option String
non_empty none = none
non_empty (some t) = if str_eq t "" then none else some t

-- The provider's id, if the host is of the provider and the address has one.
abbrev pub when : Bool → Option String → Option String
when true id = id
when false id = none

unfoldable pub youtube_id : String → PageUrl → Option String
youtube_id host url = when (one_of youtube_hosts host) (non_empty url.v)

unfoldable pub short_id : String → PageUrl → Option String
unfolding first_segment
short_id host url = when (str_eq host "youtu.be") (non_empty (some (first_segment url.pathname)))

unfoldable pub numeric : Option String → Option String
unfolding is_digits
numeric none = none
numeric (some t) = if is_digits t then some t else none

unfoldable pub vimeo_id : String → PageUrl → Option String
unfolding numeric segments last
vimeo_id host url = when (one_of vimeo_hosts host) (numeric (last (segments url.pathname)))

unfoldable pub crunchyroll_id : String → PageUrl → Option String
unfolding watch_id ends_with
crunchyroll_id host url = when (ends_with "crunchyroll.com" host) (watch_id url.pathname)

abbrev pub video : String → String → String → ParsedVideo
video page_url provider_id video_id = record {
  provider_id = provider_id;
  video_id = video_id;
  page_url = page_url;
}

-- The first provider that has an id, and the last segment of the path at the end.
unfoldable pub video_of : String → String → PageUrl → ParsedVideo
video_of page_url host url = elim (youtube_id host url) [
  | some id ↦ video page_url "youtube" id
  | none ↦ elim (short_id host url) [
    | some id ↦ video page_url "youtube" id
    | none ↦ elim (vimeo_id host url) [
      | some id ↦ video page_url "vimeo" id
      | none ↦ elim (crunchyroll_id host url) [
        | some id ↦ video page_url "crunchyroll" id
        | none ↦ video page_url "generic" (or_else (last (segments url.pathname)) host)
      ]
    ]
  ]
]

abbrev pub is_web : String → Bool
is_web protocol = str_eq protocol "http:" || str_eq protocol "https:"

unfoldable pub host_of : (String → String) → PageUrl → String
unfolding drop_www
host_of lower url = drop_www (lower url.hostname)

unfoldable pub suggestion : String → PageUrl → Option ModeSuggestion
unfolding ends_with
suggestion host url =
    if one_of youtube_hosts host || str_eq host "youtu.be"
    then some (if url.has_list then suggest_default else suggest_freeform)
    else if one_of vimeo_hosts host
    then some suggest_freeform
    else if one_of ("miruro.tv" ∷ "miruro.to" ∷ "miruro.bz" ∷ "miruro.ru" ∷ []) host
    then some suggest_default
    else if str_eq host "crunchyroll.com" || ends_with ".crunchyroll.com" host
    then some suggest_default
    else none

module _ (parse : String → Option PageUrl) (trim lower : String → String) where
  unfoldable pub parse_video_url : String → Option ParsedVideo
  parse_video_url raw =
      let text = trim raw in
      if str_eq text "" then none else elim (parse text) [
        | none ↦ none
        | some url ↦
            if is_web url.protocol then some (video_of text (host_of lower url) url) else none
      ]

  -- The loop of `parseVideoUrlList` over the lines, with the two arrays that it fills.
  unfoldable pub parse_lines :
      List String → List ParsedVideo × List String → List ParsedVideo × List String
  parse_lines [] out = out
  parse_lines (line ∷ lines) (entries, invalid) =
      let text = trim line in
      parse_lines lines (
        if str_eq text "" then (entries, invalid) else elim (parse_video_url text) [
          | none ↦ (entries, invalid ++ text ∷ [])
          | some video ↦ (entries ++ video ∷ [], invalid)
        ])

  unfoldable pub parse_video_url_list : String → List ParsedVideo × List String
  unfolding parse_lines lines_of
  parse_video_url_list raw = parse_lines (lines_of raw) ([], [])

  unfoldable pub suggest_mode : String → Option ModeSuggestion
  unfolding drop_www suggestion
  suggest_mode raw =
      let text = trim raw in
      if str_eq text "" then none else elim (parse text) [
        | none ↦ none
        | some url ↦ if is_web url.protocol then suggestion (host_of lower url) url else none
      ]
