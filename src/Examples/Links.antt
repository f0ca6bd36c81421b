-- ===== src/Examples/Links.antt =====
-- Addresses pasted into the playlist editor of the dashboard.
use text.Mathlib.Text.{◌==◌ as str_eq}
use playback_sync.Base.{true, ◌≡◌, refl, false, Option, none, some, [], ◌∷◌, String, if◌then◌else◌}
use playback_sync.Urls.Paths.{no_slash}
use playback_sync.Videos.{
  PageUrl, suggest_freeform, video, parse_video_url, parse_video_url_list, suggest_mode, video_of,
  youtube_id, short_id, vimeo_id, crunchyroll_id, host_of, suggestion,
}
use playback_sync.Videos.Keys.{parse_video_url_same_key, www, short}

abbrev page : String → String → Option String → PageUrl
page hostname pathname v = record {
  protocol = "https:";
  hostname = hostname;
  pathname = pathname;
  v = v;
  has_list = false;
}

abbrev watch_page : PageUrl
watch_page = page "www.youtube.com" "/watch" (some "abc")

abbrev short_page : PageUrl
short_page = page "youtu.be" "/abc" none

abbrev series_page : PageUrl
series_page = page "www.notcrunchyroll.com" "/watch/G1/pilot" none

abbrev parse_url : String → Option PageUrl
parse_url t =
    if str_eq t "https://www.youtube.com/watch?v=abc"
    then some watch_page
    else if str_eq t "https://youtu.be/abc"
    then some short_page
    else if str_eq t "https://www.notcrunchyroll.com/watch/G1/pilot"
    then some series_page
    else none

abbrev trimmed : String → String
trimmed t = if str_eq t " " then "" else t

abbrev lowered : String → String
lowered t = t

abbrev pasted : String
pasted = "https://youtu.be/abc\r\n \nhttps"

-- One line gives an entry, one is blank and one is invalid.
pasted_list :
    parse_video_url_list parse_url trimmed lowered pasted
    ≡ (video "https://youtu.be/abc" "youtube" "abc" ∷ [], "https" ∷ [])
unfolding parse_video_url_list parse_video_url video_of youtube_id short_id vimeo_id crunchyroll_id
    host_of suggest_mode suggestion
pasted_list = refl

-- Another site whose name ends like Crunchyroll's.
series_entry :
    parse_video_url parse_url trimmed lowered "https://www.notcrunchyroll.com/watch/G1/pilot"
    ≡ some (video "https://www.notcrunchyroll.com/watch/G1/pilot" "crunchyroll" "G1")
unfolding parse_video_url_list parse_video_url video_of youtube_id short_id vimeo_id crunchyroll_id
    host_of suggest_mode suggestion
series_entry = refl

-- No mode is suggested for it.
series_mode :
    suggest_mode parse_url trimmed lowered "https://www.notcrunchyroll.com/watch/G1/pilot" ≡ none
unfolding parse_video_url_list parse_video_url video_of youtube_id short_id vimeo_id crunchyroll_id
    host_of suggest_mode suggestion
series_mode = refl

watch_mode :
    suggest_mode parse_url trimmed lowered "https://www.youtube.com/watch?v=abc"
    ≡ some suggest_freeform
unfolding parse_video_url_list parse_video_url video_of youtube_id short_id vimeo_id crunchyroll_id
    host_of suggest_mode suggestion
watch_mode = refl

whole_id : no_slash "abc" ≡ true
unfolding no_slash
whole_id = refl

parse_video_url_same_key_example :
    parse_video_url parse_url trimmed lowered "https://www.youtube.com/watch?v=abc"
      ≡ some (video "https://www.youtube.com/watch?v=abc" "youtube" "abc")
    × parse_video_url parse_url trimmed lowered "https://youtu.be/abc"
      ≡ some (video "https://youtu.be/abc" "youtube" "abc")
parse_video_url_same_key_example =
    parse_video_url_same_key parse_url trimmed lowered "abc" "https://www.youtube.com/watch?v=abc"
      "https://youtu.be/abc" watch_page short_page refl (refl, refl, refl) www refl
      (refl, refl, refl) short refl whole_id
