-- ===== src/Examples/Site.antt =====
-- A page frame: an adapter that activates and scrapes, and one that an older one overtakes.
use playback_sync.Base.{◌+◌, ◌≤◌, true, ◌≡◌, refl, Option, none, some, List, [], ◌∷◌, String}
use playback_sync.Protocol.Frames.{VideoRefWithMeta}
use playback_sync.Number.Fixed.{Fixed}
use playback_sync.Page.{Candidate, Page, active, is_active, new_page}
use playback_sync.Page.Runs.{
  Event, room, moved, location_change, resolved, registered, scraped, step, run,
}
use playback_sync.Page.Catalog.{one, reports, run_reported}

abbrev site : String → Option Candidate
site href = some (record { adapter_id = "miruro"; guard_navigation = true; scrapes_catalog = true })

abbrev visit : List (Event Fixed)
visit = room true ∷ registered 0 ∷ resolved 0 ∷ []

abbrev visited : Page Fixed
visited = run site (new_page "https://example.org/watch/1") visit

run_reported_example :
    (reports 0 visited.out ≤ 1)
    × (is_active 0 visited.state ≡ true → reports 0 visited.out + one (visited.scrapes 0) ≡ 1)
    × ((result : Option (List (VideoRefWithMeta Fixed)))
        → is_active 0 visited.state ≡ true
        → reports 0 (step site visited (scraped 0 result)).out ≡ 1)
run_reported_example = run_reported 0 site "https://example.org/watch/1" visit

scraping : (is_active 0 visited.state ≡ true) × (visited.scrapes 0 ≡ true)
unfolding run step new_page
scraping = (refl, refl)

-- The address changes while the first adapter is initialised. It still activates, takes the handler
-- of the second, and the second is left with none.
abbrev overlapped : List (Event Fixed)
overlapped =
    room true
    ∷ moved "https://example.org/watch/2"
    ∷ location_change
    ∷ registered 1
    ∷ resolved 0
    ∷ resolved 1
    ∷ []

lost_handler :
    (run site (new_page {N = Fixed} "https://example.org/watch/1") overlapped).state ≡ active 1 none
unfolding run step new_page
lost_handler = refl
