-- ===== src/Miruro/Clicks.antt =====
-- A cursor change to an entry of the catalogue, as extension/src/adapters/miruro/index.ts carries it out.
use text.Mathlib.Text.{◌==◌ as str_eq}
use text.Mathlib.TextEquality.{eq_iff}
use text.Mathlib.TextPositions.{eq_refl}
use playback_sync.Base.{
  ℕ, suc, ◌+◌, Bool, true, false, ◌≡◌, refl, sym, ap, ◌∙◌, subst, Option, none, some, List, [], ◌∷◌,
  String, arith, All, any, get_elem?, if-true, if-false, inl, inr, Bool-cases, ◌⊎◌, Ensures,
}
use playback_sync.Number.{Number}
use playback_sync.Protocol.Frames.{VideoRefWithMeta}
use playback_sync.Urls.{Url, make_watch_url, exec_path}
use playback_sync.Urls.Return.{exec_path-watch_path, exec_path-AreSegments}
use playback_sync.Miruro.Titles.{extract_episode_number}
use playback_sync.Miruro.{
  Move, stay, click, collect_episode_entries, has_number, click_episode, change_in_show,
  apply_cursor_change,
}
use playback_sync.Miruro.Catalog.{IsWritten}
use playback_sync.Miruro.Entries.{IsEntry, collect_episode_entries-IsEntry, extract-finite}

module _ {N : Type 0} ⦃n : Number N⦄ (same : N → N → Bool) where
  -- The move is a click on a button of the list that has the number.
  abbrev pub IsClickOn : List String → N → Move → Type 0
  IsClickOn titles x m =
      (i : ℕ) × (title : String) × (m ≡ click i)
      × (get_elem? titles i ≡ some title)
      × (has_number same x (extract_episode_number title) ≡ true)

  click_episode-finds :
      (page_url : String) (x : N) (i : ℕ) (titles : List String)
      → any (λ t. has_number same x (extract_episode_number t)) titles ≡ true
      → (j : ℕ) × (title : String) × (click_episode same page_url x i titles ≡ click (i + j))
        × (get_elem? titles j ≡ some title)
        × (has_number same x (extract_episode_number title) ≡ true)
  unfolding click_episode
  click_episode-finds page_url x i [] h = cc
  click_episode-finds page_url x i (title ∷ titles) h =
      elim (Bool-cases (has_number same x (extract_episode_number title))) [
        | inl e ↦ (0, title, if-true _ _ e ∙ ap click (omega arith), refl, e)
        | inr e ↦
            let (j, other, moved, found, numbered) =
              click_episode-finds page_url x (i + 1) titles (ground arith) in
            (suc j, other, if-false _ _ e ∙ moved ∙ ap click (omega arith), found, numbered)
      ]

  click_episode-IsClickOn :
      (page_url : String) (x : N) (titles : List String)
      → any (λ t. has_number same x (extract_episode_number t)) titles ≡ true
      → IsClickOn titles x (click_episode same page_url x 0 titles)
  click_episode-IsClickOn page_url x titles h =
      let (j, title, moved, found, numbered) = click_episode-finds page_url x 0 titles h in
      (j, title, moved ∙ ap click (omega arith), found, numbered)

  -- The titles have a button with the number.
  abbrev IsOffered : List String → N → Type 0
  IsOffered titles x = any (λ t. has_number same x (extract_episode_number t)) titles ≡ true

  module _ (self : (x : N) → n.is_finite x ≡ true → same x x ≡ true) where
    IsOffered-here :
        (o : Option N) (title : String) (titles all : List String)
        → extract_episode_number title ≡ o
        → Ensures (λ x. n.is_finite x ≡ true) o
        → ((x : N) → IsOffered (title ∷ titles) x → IsOffered all x)
        → Ensures (IsOffered all) o
    IsOffered-here none title titles all e h up = tt
    IsOffered-here (some x) title titles all e h up =
        up x (rw (ap (has_number same x) e ∙ self x h) refl)

    IsOffered-from :
        (all titles : List String)
        → ((x : N) → IsOffered titles x → IsOffered all x)
        → All (λ t. Ensures (IsOffered all) (extract_episode_number t)) titles
    IsOffered-from all [] up = tt
    IsOffered-from all (title ∷ titles) up = (
      IsOffered-here (extract_episode_number title) title titles all refl (extract-finite N title)
          up,
      IsOffered-from all titles (λ x h. up x (ground arith)),
    )

module _ {N : Type 0} ⦃n : Number N⦄ (show_number : N → String) (trim : String → String)
    (parse : String → Option Url) (same : N → N → Bool) where
  -- The number is finite and written so that it is read back, and some button has it.
  abbrev IsChosen : Url → String → Option String → List String → N → Type 0
  IsChosen page show slug titles x =
      (n.is_finite x ≡ true)
      × IsOffered same titles x
      × IsWritten show_number parse page show slug x

  chosen :
      (page : Url) (show : String) (slug : Option String) (all titles : List String)
      → All (λ t. Ensures (IsOffered same all) (extract_episode_number t)) titles
      → All
          (λ t. Ensures (IsWritten show_number parse page show slug) (extract_episode_number t))
          titles
      → All (λ t. Ensures (IsChosen page show slug all) (extract_episode_number t)) titles
  chosen page show slug all [] h k = tt
  chosen page show slug all (title ∷ titles) (h, hs) (k, ks) = (
    both (extract_episode_number title) (extract-finite N title) h k,
    chosen page show slug all titles hs ks,
  )
    where
      both :
          (o : Option N)
          → Ensures (λ x. n.is_finite x ≡ true) o
          → Ensures (IsOffered same all) o
          → Ensures (IsWritten show_number parse page show slug) o
          → Ensures (IsChosen page show slug all) o
      both none f a b = tt
      both (some x) f a b = (f, a, b)

  -- The page is there already, or a button with the number of the entry is clicked.
  abbrev pub IsCarriedOut : String → Url → List String → VideoRefWithMeta N → Type 0
  IsCarriedOut href page titles e =
      let m = apply_cursor_change same parse href page (some titles) e.page_url in
      ((href ≡ e.page_url) × (m ≡ stay)) ⊎ Ensures (λ x. IsClickOn same titles x m) e.episode_number

  apply_cursor_change-click :
      (href : String) (page : Url) (show : String) (slug : Option String) (titles : List String)
      (x : N)
      → exec_path page.pathname ≡ some (show, slug)
      → IsChosen page show slug titles x
      → let u = make_watch_url page.origin show (show_number x) slug in
        str_eq href u ≡ false
        → apply_cursor_change same parse href page (some titles) u ≡ click_episode same u x 0 titles
  unfolding apply_cursor_change change_in_show
  apply_cursor_change-click href page show slug titles x path (f, a, b) away =
      let (number, named, (landed, parsed, same_host, same_path, same_ep)) = b in
      let landing : exec_path landed.pathname ≡ some (show, slug) =
        ap exec_path same_path
        ∙ exec_path-watch_path show slug (exec_path-AreSegments page.pathname show slug path) in
      rw (away, parsed, path, landing, same_ep, named, eq_refl show, number, f) refl

  IsEntry-IsCarriedOut :
      (href : String) (page : Url) (show : String) (slug : Option String) (titles : List String)
      (e : VideoRefWithMeta N)
      → exec_path page.pathname ≡ some (show, slug)
      → IsEntry show_number trim page.origin show slug (IsChosen page show slug titles) e
      → IsCarriedOut href page titles e
  unfolding apply_cursor_change
  IsEntry-IsCarriedOut href page show slug titles e path h =
      subst (IsCarriedOut href page titles) (sym h.made) (elim (Bool-cases (str_eq href u)) [
        | inl q ↦ inl ((eq_iff href u).0 q, if-true stay _ q)
        | inr q ↦ inr (
            subst (IsClickOn same titles h.episode)
              (sym
                (apply_cursor_change-click href page show slug titles h.episode path h.offered q))
              (click_episode-IsClickOn same u h.episode titles h.offered.1))
      ])
    where
      u : String
      u = make_watch_url page.origin show (show_number h.episode) slug

  All-IsCarriedOut :
      (href : String) (page : Url) (show : String) (slug : Option String) (titles : List String)
      (es : List (VideoRefWithMeta N))
      → exec_path page.pathname ≡ some (show, slug)
      → All (IsEntry show_number trim page.origin show slug (IsChosen page show slug titles)) es
      → All (IsCarriedOut href page titles) es
  All-IsCarriedOut href page show slug titles [] path h = tt
  All-IsCarriedOut href page show slug titles (e ∷ es) path (h, hs) = (
    IsEntry-IsCarriedOut href page show slug titles e path h,
    All-IsCarriedOut href page show slug titles es path hs,
  )

  -- A cursor change to any entry of the catalogue of a page clicks a button of the list that has the number
  -- of the entry, or does nothing, as the page has the address of the entry already; it never navigates away.
  -- The numbers in the titles are written so that they are read back, and a finite number is `===` itself.
  pub collect_episode_entries-IsCarriedOut :
      (href : String) (page : Url) (show : String) (slug : Option String) (titles : List String)
      → ((x : N) → n.is_finite x ≡ true → same x x ≡ true)
      → exec_path page.pathname ≡ some (show, slug)
      → All
          (λ t. Ensures (IsWritten show_number parse page show slug) (extract_episode_number t))
          titles
      → All
          (IsCarriedOut href page titles)
          (collect_episode_entries show_number trim titles page.origin show slug)
  collect_episode_entries-IsCarriedOut href page show slug titles self path written =
      All-IsCarriedOut href page show slug titles _ path
        (collect_episode_entries-IsEntry show_number trim page.origin show slug
          (IsChosen page show slug titles) titles
          (chosen page show slug titles titles (IsOffered-from same self titles titles (λ x h. h))
            written)).0
