-- ===== src/Miruro/Catalog.antt =====
-- What the catalogue that extension/src/adapters/miruro/index.ts scrapes is good for: the background reads
-- its addresses back as its videos, and the adapter finds its episodes again.
use text.Mathlib.Text.{◌==◌ as str_eq}
use mathlib.Core.Path.{ap₂}
use playback_sync.Base.{
  Bool, true, false, ◌≡◌, sym, ap, ◌∙◌, subst, Option, none, some, List, [], ◌∷◌, String, All,
  if-split, if-true, Ensures,
}
use playback_sync.Number.{Number}
use playback_sync.Protocol.Frames.{VideoRefWithMeta}
use playback_sync.Urls.{
  Url, is_host, make_video_id, make_watch_url, watch_path, exec_path, id_of_parts, miruro_video_id,
  video_id_for_url,
}
use playback_sync.Urls.Return.{
  video_id-landed, id_of_parts-some, exec_path-watch_path, exec_path-AreSegments,
}
use playback_sync.Miruro.Titles.{extract_episode_number, parse_int}
use playback_sync.Miruro.{scrape_resumed, nonempty, entry_of, can_handle_page, resolve_identity}
use playback_sync.Miruro.Identity.{id_of, resolve_identity-read}
use playback_sync.Miruro.Entries.{IsEntry, IsDistinct, collect_episode_entries-IsEntry}

miruro_video_id-host :
    (url : Url)
    → is_host url.hostname ≡ true
    → miruro_video_id url ≡ id_of_parts (exec_path url.pathname) url.ep
unfolding miruro_video_id
miruro_video_id-host url h = if-true _ none h

nonempty-Ensures : {A : Type 0} (P : List A → Type 0) (xs : List A) → P xs → Ensures P (nonempty xs)
nonempty-Ensures P [] h = tt
nonempty-Ensures P (x ∷ xs) h = h

module _ {N : Type 0} ⦃n : Number N⦄ (show_number : N → String) (parse : String → Option Url) where
  -- The number is written so that it is read back, by `parseInt` and, in a watch address of the page's
  -- show, by the browser.
  abbrev pub IsWritten : Url → String → Option String → N → Type 0
  IsWritten page show slug x =
      (parse_int (show_number x) ≡ some x)
      × (str_eq (show_number x) "" ≡ false)
      × ((landed : Url) × (parse (make_watch_url page.origin show (show_number x) slug)
            ≡ some landed)
          × (landed.hostname ≡ page.hostname)
          × (landed.pathname ≡ watch_path show slug)
          × (landed.ep ≡ some (show_number x)))

module _ {N : Type 0} (parse : String → Option Url) where
  -- The guard of the background reads the address of the entry as its video, and where the address leads
  -- the adapter reports that video.
  abbrev pub IsReadBack : VideoRefWithMeta N → Type 0
  IsReadBack e =
      (video_id_for_url parse "miruro" e.page_url ≡ some e.video_id)
      × ((landed : Url) × (parse e.page_url ≡ some landed)
          × (can_handle_page landed ≡ true)
          × (id_of (resolve_identity landed) ≡ some e.video_id))

module _ {N : Type 0} ⦃n : Number N⦄ (show_number : N → String) (trim : String → String)
    (parse : String → Option Url) where
  entry_of-IsReadBack :
      (page : Url) (show title : String) (slug : Option String) (x : N)
      → is_host page.hostname ≡ true
      → exec_path page.pathname ≡ some (show, slug)
      → IsWritten show_number parse page show slug x
      → IsReadBack parse (entry_of show_number trim page.origin show slug title x)
  entry_of-IsReadBack page show title slug x host path w =
      let (_, named, (landed, parsed, same_host, same_path, same_ep)) = w in
      let on_host : is_host landed.hostname ≡ true = ap is_host same_host ∙ host in
      let read =
        ap₂ id_of_parts
          (ap exec_path same_path
            ∙ exec_path-watch_path show slug (exec_path-AreSegments page.pathname show slug path))
          same_ep
        ∙ id_of_parts-some show (show_number x) slug named in
      let (handled, reported) =
        resolve_identity-read landed (make_video_id show (show_number x))
          (miruro_video_id-host landed on_host ∙ read) in
      (video_id-landed parse _ landed parsed on_host ∙ read, (landed, parsed, handled, reported))

  IsEntry-IsReadBack :
      (page : Url) (show : String) (slug : Option String) (es : List (VideoRefWithMeta N))
      → is_host page.hostname ≡ true
      → exec_path page.pathname ≡ some (show, slug)
      → All
          (IsEntry show_number trim page.origin show slug
            (IsWritten show_number parse page show slug))
          es
      → All (IsReadBack parse) es
  IsEntry-IsReadBack page show slug [] host path h = tt
  IsEntry-IsReadBack page show slug (e ∷ es) host path (h, hs) = (
    subst (IsReadBack parse) (sym h.made)
        (entry_of-IsReadBack page show h.title slug h.episode host path h.offered),
    IsEntry-IsReadBack page show slug es host path hs,
  )

  -- Every entry of a catalogue that the adapter scrapes has an address that the guard reads as the video
  -- of the entry, and where it leads the adapter reports that video; no two entries have one video id. The
  -- page is a watch page of a miruro host, and the numbers in the titles are written so that they are read
  -- back.
  pub scrape_resumed-IsReadBack :
      (page : Url) (show : String) (slug : Option String) (titles : List String) (aborted : Bool)
      → is_host page.hostname ≡ true
      → exec_path page.pathname ≡ some (show, slug)
      → All
          (λ t. Ensures (IsWritten show_number parse page show slug) (extract_episode_number t))
          titles
      → Ensures
          (λ es. All (IsReadBack parse) es × IsDistinct es)
          (scrape_resumed show_number trim aborted page (some titles))
  unfolding scrape_resumed
  scrape_resumed-IsReadBack page show slug titles aborted host path written =
      let good =
        collect_episode_entries-IsEntry show_number trim page.origin show slug
          (IsWritten show_number parse page show slug) titles written in
      rw (Ensures, path)
        (if-split (Ensures (λ es. All (IsReadBack parse) es × IsDistinct es)) aborted none _
          (λ a. tt)
          (λ a.
            nonempty-Ensures (λ es. All (IsReadBack parse) es × IsDistinct es) _
              (IsEntry-IsReadBack page show slug _ host path good.0, good.1)))
