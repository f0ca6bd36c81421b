-- ===== src/Examples/Episodes.antt =====
-- The episode list of a show on miruro.
use playback_sync.Base.{
  ◌>>=◌, Bool, true, false, ◌≡◌, refl, none, some, List, [], ◌∷◌, String, All, Ensures,
  if◌then◌else◌, ◌==◌, ==-refl,
}
use playback_sync.Number.Fixed.{Fixed, fixed_number, ℤ}
use playback_sync.Urls.{Url, is_host, exec_path, make_watch_url, watch_path}
use playback_sync.Urls.Paths.{span, strip}
use playback_sync.Miruro.{click, collect_episode_entries, scrape_resumed, click_episode}
use playback_sync.Miruro.Titles.{extract_episode_number, parse_int}
use playback_sync.Miruro.Catalog.{IsWritten, IsReadBack, scrape_resumed-IsReadBack}
use playback_sync.Miruro.Clicks.{IsCarriedOut, collect_episode_entries-IsCarriedOut}
use playback_sync.Miruro.Entries.{IsDistinct}
use playback_sync.Examples.{milli}
use playback_sync.Examples.Guard.{demo_parse, show_page}

abbrev show_number : Fixed → String
show_number none = "NaN"
show_number (some (ℤ.pos n)) = if n == 2000 then "2" else if n == 3000 then "3" else "?"
show_number (some (ℤ.negsuc n)) = "?"

abbrev same : Fixed → Fixed → Bool
same (some (ℤ.pos m)) (some (ℤ.pos n)) = m == n
same (some (ℤ.negsuc m)) (some (ℤ.negsuc n)) = m == n
same _ _ = false

abbrev trim : String → String
trim t = t

-- The third button repeats a number, and the last is no episode.
abbrev titles : List String
titles = "EP 2: Frost" ∷ "ep 3 Kanan" ∷ "EP 3: again" ∷ "Trailer" ∷ []

-- A half episode counts as its whole number.
half_episode : extract_episode_number {N = Fixed} "EP 12.5: recap" ≡ some (milli 12000)
unfolding extract_episode_number ◌>>=◌
half_episode = refl

-- A cursor on it clicks that number.
half_click :
    click_episode same "https://www.miruro.to/watch/20/frieren?ep=12.5"
      (milli 12000)
      0
      ("EP 12: Frost" ∷ [])
    ≡ click 0
unfolding click_episode extract_episode_number ◌>>=◌
half_click = refl

half_parsed : parse_int {N = Fixed} "12.5" ≡ some (milli 12000)
unfolding parse_int
half_parsed = refl

abbrev page_two : Url
page_two = record {
  origin = show_page.origin;
  hostname = "www.miruro.to";
  pathname = "/watch/20/frieren";
  ep = some "2";
}

abbrev page_three : Url
page_three = record {
  origin = show_page.origin;
  hostname = "www.miruro.to";
  pathname = "/watch/20/frieren";
  ep = some "3";
}

on_host : is_host show_page.hostname ≡ true
unfolding is_host
on_host = refl

on_path : exec_path show_page.pathname ≡ some ("20", some "frieren")
unfolding exec_path strip span
on_path = refl

titles-IsWritten :
    All
      (λ t.
        Ensures
          (IsWritten show_number demo_parse show_page "20" (some "frieren"))
          (extract_episode_number t))
      titles
unfolding extract_episode_number ◌>>=◌ parse_int make_watch_url watch_path
titles-IsWritten = (
  (refl, refl, (page_two, refl, refl, refl, refl)),
  (
    (refl, refl, (page_three, refl, refl, refl, refl)),
    ((refl, refl, (page_three, refl, refl, refl, refl)), (tt, tt)),
  ),
)

scrape_resumed-IsReadBack_example :
    Ensures
      (λ es. All (IsReadBack demo_parse) es × IsDistinct es)
      (scrape_resumed show_number trim false show_page (some titles))
scrape_resumed-IsReadBack_example =
    scrape_resumed-IsReadBack show_number trim demo_parse show_page "20" (some "frieren") titles
      false on_host on_path titles-IsWritten

same_refl : (x : Fixed) → fixed_number.is_finite x ≡ true → same x x ≡ true
same_refl none h = cc
same_refl (some (ℤ.pos m)) h = ==-refl m
same_refl (some (ℤ.negsuc m)) h = ==-refl m

collect_episode_entries-IsCarriedOut_example :
    All
      (IsCarriedOut show_number trim demo_parse same "https://www.miruro.to/watch/20/frieren"
        show_page titles)
      (collect_episode_entries show_number trim titles show_page.origin "20" (some "frieren"))
collect_episode_entries-IsCarriedOut_example =
    collect_episode_entries-IsCarriedOut show_number trim demo_parse same
      "https://www.miruro.to/watch/20/frieren" show_page "20" (some "frieren") titles same_refl
      on_path titles-IsWritten
