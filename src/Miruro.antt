-- ===== src/Miruro.antt =====
-- The page adapter of miruro, extension/src/adapters/miruro/index.ts: the identity of a page, the catalogue
-- that it scrapes and the cursor changes that it carries out. The document is what its queries return: the
-- titles of the episode buttons, or nothing where there is no list. `show_number` is the text of a number
-- in a template, `same` its `===`, and `trim` that of JavaScript.
pub mod Titles
pub mod Entries
pub mod Catalog
pub mod Clicks
pub mod Identity
use Prim.Native.String.{◌++◌ as ◌++ₜ◌}
use text.Mathlib.Text.{◌==◌ as str_eq}
use playback_sync.Base.{
  ℕ, ◌+◌, Bool, true, false, not, ◌||◌, Option, none, some, List, [], ◌∷◌, ◌++◌, String,
  if◌then◌else◌, any,
}
use playback_sync.Number.{Number}
use playback_sync.Protocol.Frames.{VideoRefWithMeta}
use playback_sync.Messages.{ContentIdentity}
use playback_sync.Urls.{Url, is_host, exec_path, make_video_id, make_watch_url}
use playback_sync.Miruro.Titles.{extract_episode_number, parse_int}

-- An id that is there and not empty.
abbrev pub show_of : Option (String × Option String) → Option String
show_of none = none
show_of (some (show, slug)) = some show

unfoldable pub can_handle_page : Url → Bool
unfolding is_host exec_path
can_handle_page url =
    if not (is_host url.hostname)
    then false
    else elim (exec_path url.pathname) [ none ↦ false | some _ ↦ true ]

abbrev pub path_of : String → String → String
path_of show ep = "/watch/" ++ₜ (show ++ₜ ("?ep=" ++ₜ ep))

unfoldable pub identity_of : Option String → Option String → Option ContentIdentity
unfolding make_video_id
identity_of none ep = none
identity_of (some show) none = none
identity_of (some show) (some ep) =
    if str_eq ep ""
    then none
    else some (record {
      provider_id = "miruro";
      video_id = make_video_id show ep;
      normalized_url = path_of show ep;
    })

-- `url` is `location`.
unfoldable pub resolve_identity : Url → Option ContentIdentity
unfolding identity_of exec_path
resolve_identity url = identity_of (show_of (exec_path url.pathname)) url.ep

-- What the adapter does to the page: nothing, a full navigation, or a click on a button of the list.
pub data Move : Type 0 where
  stay : Move
  navigate : String → Move
  click : ℕ → Move

abbrev pub nonempty {ℓ} : {A : Type ℓ} → List A → Option (List A)
nonempty [] = none
nonempty (x ∷ xs) = some (x ∷ xs)

abbrev pub is_seen : String → List String → Bool
is_seen key seen = any (str_eq key) seen

abbrev pub same_show : Option String → String → Bool
same_show none show = false
same_show (some here) show = str_eq here show

module _ {N : Type 0} ⦃n : Number N⦄ (same : N → N → Bool) where
  abbrev pub has_number : N → Option N → Bool
  has_number target none = false
  has_number target (some x) = same x target

  -- The loop over the buttons from the `i`-th on.
  unfoldable pub click_episode : String → N → ℕ → List String → Move
  click_episode page_url target i [] = navigate page_url
  click_episode page_url target i (title ∷ titles) =
      let rest = click_episode page_url target (i + 1) titles in
      if has_number target (extract_episode_number title) then click i else rest

  abbrev pub find_episode : String → Option (List String) → Option N → Move
  find_episode page_url buttons none = navigate page_url
  find_episode page_url none (some target) = navigate page_url
  find_episode page_url (some titles) (some target) =
      if n.is_finite target then click_episode page_url target 0 titles else navigate page_url

  -- Behind the parse of the target, with its show and its episode.
  unfoldable pub change_in_show :
      String → Option String → Option (List String) → Option String → Option String → Move
  change_in_show page_url here buttons none ep = navigate page_url
  change_in_show page_url here buttons (some show) none = navigate page_url
  change_in_show page_url here buttons (some show) (some ep) =
      if str_eq ep "" || not (same_show here show)
      then navigate page_url
      else find_episode page_url buttons (parse_int ep)

  -- `href` and `here` are `location`, and `buttons` the titles in the list, if there is one.
  unfoldable pub apply_cursor_change :
      (String → Option Url) → String → Url → Option (List String) → String → Move
  apply_cursor_change parse href here buttons page_url =
      if str_eq href page_url then stay else elim (parse page_url) [
        | none ↦ stay
        | some target ↦
            change_in_show page_url (show_of (exec_path here.pathname)) buttons
              (show_of (exec_path target.pathname)) target.ep
      ]

module _ {N : Type 0} ⦃n : Number N⦄ (show_number : N → String) (trim : String → String) where
  abbrev pub label_of : String → Option String
  label_of title = let t = trim title in if str_eq t "" then none else some t

  abbrev pub entry_of : String → String → Option String → String → N → VideoRefWithMeta N
  entry_of origin show slug title ep = record {
    provider_id = "miruro";
    video_id = make_video_id show (show_number ep);
    page_url = make_watch_url origin show (show_number ep) slug;
    label = label_of title;
    episode_number = some ep;
    season_number = none;
  }

  -- The loop of `collectEpisodeEntries`, with the keys seen and the entries so far.
  unfoldable pub collect_from :
      String
      → String
      → Option String
      → List String
      → List String
      → List (VideoRefWithMeta N)
      → List (VideoRefWithMeta N)
  collect_from origin show slug [] seen entries = entries
  collect_from origin show slug (title ∷ titles) seen entries =
      elim (extract_episode_number title) [
        | none ↦ collect_from origin show slug titles seen entries
        | some ep ↦
            let key = make_video_id show (show_number ep) in
            if is_seen key seen
            then collect_from origin show slug titles seen entries
            else collect_from origin show slug titles (key ∷ seen)
                (entries ++ entry_of origin show slug title ep ∷ [])
      ]

  unfoldable pub collect_episode_entries :
      List String → String → String → Option String → List (VideoRefWithMeta N)
  collect_episode_entries titles origin show slug = collect_from origin show slug titles [] []

  -- `scrapeCatalog` behind its await, with the page's address at its start.
  unfoldable pub scrape_resumed :
      Bool → Url → Option (List String) → Option (List (VideoRefWithMeta N))
  scrape_resumed aborted url buttons = elim (exec_path url.pathname) [
    | none ↦ none
    | some (show, slug) ↦ elim buttons [
      | none ↦ none
      | some titles ↦
          if aborted then none else nonempty (collect_episode_entries titles url.origin show slug)
    ]
  ]
