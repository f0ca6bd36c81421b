-- ===== src/Videos/Keys.antt =====
-- The entries of a pasted list and the keys of videos, src/util/parseVideoUrl.ts.
use Prim.Native.Char.{code}
use Prim.Native.String.{◌++◌ as ◌++ₜ◌}
use text.Mathlib.Text.{◌==◌ as str_eq}
use text.Mathlib.TextLemmas.{cons-append, nil-append}
use mathlib.Core.List.{append_assoc, append-nil}
use playback_sync.Base.{
  gathered, added, ◌≡◌, refl, ap, ◌∙◌, true, false, not, Option, none, some, List, [], ◌∷◌, ◌++◌,
  String, if-true, ◌==◌, map, keep, Bool-cases, inl, inr,
}
use playback_sync.Urls.Paths.{span-no_slash, no_slash}
use playback_sync.Videos.Parts.{drop_www, lines_of, drop_slashes, first_segment}
use playback_sync.Videos.{
  PageUrl, ParsedVideo, parse_video_url, parse_lines, parse_video_url_list, host_of, youtube_id,
  short_id, video_of, is_web, one_of, youtube_hosts, video,
}

-- The texts that give nothing, in order.
abbrev refused {ℓ κ} : {A : Type ℓ} {B : Type κ} → (A → Option B) → List A → List A
refused f [] = []
refused f (x ∷ xs) = elim (f x) [ none ↦ x ∷ refused f xs | some b ↦ refused f xs ]

-- The lines that are not blank, trimmed.
abbrev texts_of : (String → String) → List String → List String
texts_of trim lines = keep (λ t. not (str_eq t "")) (map trim lines)

-- The names of YouTube's hosts, and of that of its short addresses.
pub data YoutubeName : String → Type 0 where
  plain : YoutubeName "youtube.com"
  www : YoutubeName "www.youtube.com"
  mobile : YoutubeName "m.youtube.com"
  www_mobile : YoutubeName "www.m.youtube.com"
  music : YoutubeName "music.youtube.com"
  www_music : YoutubeName "www.music.youtube.com"

pub data ShortName : String → Type 0 where
  short : ShortName "youtu.be"
  www_short : ShortName "www.youtu.be"

listed_host : (name : String) → YoutubeName name → one_of youtube_hosts (drop_www name) ≡ true
unfolding drop_www
listed_host _ plain = refl
listed_host _ www = refl
listed_host _ mobile = refl
listed_host _ www_mobile = refl
listed_host _ music = refl
listed_host _ www_music = refl

short_host : (name : String) → ShortName name → drop_www name ≡ "youtu.be"
unfolding drop_www
short_host _ short = refl
short_host _ www_short = refl

-- A page of a watch address with this id, at this host.
abbrev IsWatchPage : String → String → PageUrl → Type 0
IsWatchPage id host url = one_of youtube_hosts host ≡ true × url.v ≡ some id

-- The page of the short address with this id.
abbrev IsShortPage : String → String → PageUrl → Type 0
IsShortPage id host url = host ≡ "youtu.be" × url.pathname ≡ "/" ++ₜ id × no_slash id ≡ true

youtube_id-watch :
    (id host : String) (url : PageUrl)
    → str_eq id "" ≡ false
    → IsWatchPage id host url
    → youtube_id host url ≡ some id
unfolding youtube_id
youtube_id-watch id host url named (h, v) = rw h (rw v (rw named refl))

drop_slashes-no_slash : (id : String) → no_slash id ≡ true → drop_slashes id ≡ id
unfolding drop_slashes no_slash
drop_slashes-no_slash String.[] h = refl
drop_slashes-no_slash (String.◌∷◌ c s) h = elim (Bool-cases (code c == b'/')) [
  | inl e ↦ cc (if-true false (no_slash s) e)
  | inr e ↦ rw e refl
]

first_segment-short : (id : String) → no_slash id ≡ true → first_segment ("/" ++ₜ id) ≡ id
unfolding first_segment drop_slashes
first_segment-short id h =
    rw cons-append (rw nil-append (rw (drop_slashes-no_slash id h) (rw (span-no_slash id h) refl)))

video_of_watch :
    (id host text : String) (url : PageUrl)
    → str_eq id "" ≡ false
    → IsWatchPage id host url
    → video_of text host url ≡ video text "youtube" id
unfolding video_of
video_of_watch id host text url named page =
    rw (video_of, youtube_id-watch id host url named page) refl

short_id-short :
    (id host : String) (url : PageUrl)
    → str_eq id "" ≡ false
    → IsShortPage id host url
    → short_id host url ≡ some id
unfolding short_id
short_id-short id host url named (host_is, path, whole) =
    rw host_is (rw path (rw (first_segment-short id whole) (rw named refl)))

no_youtube_id : (host : String) (url : PageUrl) → host ≡ "youtu.be" → youtube_id host url ≡ none
unfolding youtube_id
no_youtube_id host url e = rw e refl

video_of_short :
    (id host text : String) (url : PageUrl)
    → str_eq id "" ≡ false
    → IsShortPage id host url
    → video_of text host url ≡ video text "youtube" id
unfolding video_of
video_of_short id host text url named page =
    rw (video_of, no_youtube_id host url page.0, short_id-short id host url named page) refl

module _ (parse : String → Option PageUrl) (trim lower : String → String) where
  -- One more text in front, by what it gives.
  parse_lines_onto :
      (o : Option ParsedVideo) (t : String) (lines : List String) (entries found : List ParsedVideo)
      (invalid left : List String)
      → ((es : List ParsedVideo) (is : List String)
          → parse_lines parse trim lower lines (es, is) ≡ (es ++ found, is ++ left))
      → parse_lines parse trim lower lines (elim o [
        | none ↦ (entries, invalid ++ t ∷ [])
        | some parsed ↦ (entries ++ parsed ∷ [], invalid)
      ])
        ≡ (entries ++ added o found, invalid ++ elim o [ none ↦ t ∷ left | some parsed ↦ left ])
  parse_lines_onto none t lines entries found invalid left h =
      h entries (invalid ++ t ∷ []) ∙ rw (append_assoc invalid (t ∷ []) left) refl
  parse_lines_onto (some parsed) t lines entries found invalid left h =
      h (entries ++ parsed ∷ []) invalid ∙ rw (append_assoc entries (parsed ∷ []) found) refl

  parse_lines-gathered :
      (lines : List String) (entries : List ParsedVideo) (invalid : List String)
      → parse_lines parse trim lower lines (entries, invalid) ≡ (
        entries ++ gathered (parse_video_url parse trim lower) (texts_of trim lines),
        invalid ++ refused (parse_video_url parse trim lower) (texts_of trim lines),
      )
  unfolding parse_lines
  parse_lines-gathered [] entries invalid = simp (append-nil)
  parse_lines-gathered (line ∷ lines) entries invalid = elim (Bool-cases (str_eq (trim line) "")) [
    | inl e ↦ rw e (parse_lines-gathered lines entries invalid)
    | inr e ↦ rw e (
        parse_lines_onto (parse_video_url parse trim lower (trim line)) (trim line) lines entries _
          invalid _ (parse_lines-gathered lines))
  ]

  -- The entries of a pasted list are the videos of its lines that are not blank, trimmed, in order, and
  -- its invalid lines are the trimmed lines that give no video, in order.
  parse_video_url_list-gathered :
      (raw : String)
      → parse_video_url_list parse trim lower raw ≡ (
        gathered (parse_video_url parse trim lower) (texts_of trim (lines_of raw)),
        refused (parse_video_url parse trim lower) (texts_of trim (lines_of raw)),
      )
  unfolding parse_video_url_list
  parse_video_url_list-gathered raw = parse_lines-gathered (lines_of raw) [] []

  -- What `parseVideoUrl` goes by: a text that is not blank and the http or https URL that it parses to.
  abbrev pub IsPage : String → PageUrl → Type 0
  IsPage raw url =
      str_eq (trim raw) "" ≡ false × parse (trim raw) ≡ some url × is_web url.protocol ≡ true

  parse_video_url-video_of :
      (raw : String) (url : PageUrl)
      → IsPage raw url
      → parse_video_url parse trim lower raw ≡ some (video_of (trim raw) (host_of lower url) url)
  unfolding parse_video_url
  parse_video_url-video_of raw url (filled, parsed, web) = rw filled (rw parsed (rw web refl))

  -- The address of a YouTube video at any of its six hosts, with its id in `v`, and the short address of the
  -- same id, which is not empty and has no slash, both give YouTube's entry of that id. Both are http or
  -- https addresses, and the names of the hosts are in lower case once `lower` is applied.
  pub parse_video_url_same_key :
      (id watch short_text : String) (watch_page short_page : PageUrl)
      → str_eq id "" ≡ false
      → IsPage watch watch_page
      → YoutubeName (lower watch_page.hostname)
      → watch_page.v ≡ some id
      → IsPage short_text short_page
      → ShortName (lower short_page.hostname)
      → short_page.pathname ≡ "/" ++ₜ id
      → no_slash id ≡ true
      → parse_video_url parse trim lower watch ≡ some (video (trim watch) "youtube" id)
        × parse_video_url parse trim lower short_text ≡ some (video (trim short_text) "youtube" id)
  unfolding host_of
  parse_video_url_same_key id watch short_text watch_page short_page named w host v s brief path
        whole =
      (
        parse_video_url-video_of watch watch_page w
            ∙ ap some (
                video_of_watch id _ (trim watch) watch_page named
                  (listed_host (lower watch_page.hostname) host, v)),
        parse_video_url-video_of short_text short_page s
            ∙ ap some (
                video_of_short id _ (trim short_text) short_page named
                  (short_host (lower short_page.hostname) brief, path, whole)),
      )
