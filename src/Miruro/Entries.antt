-- ===== src/Miruro/Entries.antt =====
-- The loop over the episode list of extension/src/adapters/miruro/index.ts.
use text.Mathlib.Text.{◌==◌ as str_eq}
use text.Mathlib.TextPositions.{eq_refl}
use playback_sync.Base.{
  Bool, true, false, ◌≡◌, refl, sym, ap, ◌∙◌, subst, Option, none, List, [], ◌∷◌, ◌++◌, String,
  arith, All, All-append, any, if-split, ◌≢◌, Ensures, Option-split_eq,
}
use playback_sync.Number.{Number}
use playback_sync.Protocol.Frames.{VideoRefWithMeta}
use playback_sync.Urls.{make_video_id}
use playback_sync.Miruro.Titles.{extract_episode_number, captured}
use playback_sync.Miruro.{collect_from, collect_episode_entries, entry_of, is_seen}

any_or : {A : Type 0} (p : A → Bool) (x : A) (xs : List A) → any p xs ≡ true → any p (x ∷ xs) ≡ true
any_or p x xs h = ground arith

-- No two videos have one id.
abbrev pub IsDistinct : {N : Type 0} → List (VideoRefWithMeta N) → Type 0
IsDistinct [] = Unit
IsDistinct (e ∷ es) = All (λ f. e.video_id ≢ f.video_id) es × IsDistinct es

IsDistinct-append :
    {N : Type 0} (es : List (VideoRefWithMeta N)) (f : VideoRefWithMeta N)
    → IsDistinct es
    → All (λ e. e.video_id ≢ f.video_id) es
    → IsDistinct (es ++ f ∷ [])
IsDistinct-append [] f h k = (tt, tt)
IsDistinct-append (e ∷ es) f (h, hs) (k, ks) =
    (All-append (λ g. e.video_id ≢ g.video_id) es (f ∷ []) h (k, tt), IsDistinct-append es f hs ks)

-- The ids are among the keys seen.
abbrev AreSeen : {N : Type 0} → List String → List (VideoRefWithMeta N) → Type 0
AreSeen seen es = All (λ e. any (str_eq e.video_id) seen ≡ true) es

AreSeen-cons :
    {N : Type 0} (key : String) (seen : List String) (es : List (VideoRefWithMeta N))
    → AreSeen seen es
    → AreSeen (key ∷ seen) es
AreSeen-cons key seen [] h = tt
AreSeen-cons key seen (e ∷ es) (h, hs) =
    (any_or (str_eq e.video_id) key seen h, AreSeen-cons key seen es hs)

AreSeen-apart :
    {N : Type 0} (key : String) (seen : List String) (es : List (VideoRefWithMeta N))
    → any (str_eq key) seen ≡ false
    → AreSeen seen es
    → All (λ e. e.video_id ≢ key) es
AreSeen-apart key seen [] new h = tt
AreSeen-apart key seen (e ∷ es) new (h, hs) =
    ((λ q. cc (sym h ∙ ap (λ k. any (str_eq k) seen) q ∙ new)), AreSeen-apart key seen es new hs)

pub extract-finite :
    (N : Type 0) ⦃n : Number N⦄ (title : String)
    → Ensures (λ x. n.is_finite x ≡ true) (extract_episode_number {N = N} title)
unfolding extract_episode_number
extract-finite N ⦃n⦄ title =
    Option-split_eq (Ensures (λ x. n.is_finite x ≡ true)) (captured title) none _ (λ e. tt)
      (λ v e.
        if-split (Ensures (λ x. n.is_finite x ≡ true)) (n.is_finite (n.lit v)) _ _ (λ q. q)
          (λ q. tt))

module _ {N : Type 0} ⦃n : Number N⦄ (show_number : N → String) (trim : String → String)
    (origin show : String) (slug : Option String) (P : N → Type 0) where
  -- The entry of a title, for a number of which `P` holds.
  pub record IsEntry (e : VideoRefWithMeta N) : Type 0 where
    pub title : String
    pub episode : N
    pub offered : P episode
    pub made : e ≡ entry_of show_number trim origin show slug title episode

  -- What the loop keeps to.
  record IsKept (seen : List String) (es : List (VideoRefWithMeta N)) : Type 0 where
    entries : All IsEntry es
    distinct : IsDistinct es
    seen_all : AreSeen seen es

  collect_from-IsKept :
      (titles : List String) (seen : List String) (es : List (VideoRefWithMeta N))
      → All (λ t. Ensures P (extract_episode_number t)) titles
      → IsKept seen es
      → All IsEntry (collect_from show_number trim origin show slug titles seen es)
        × IsDistinct (collect_from show_number trim origin show slug titles seen es)
  unfolding collect_from
  collect_from-IsKept [] seen es h k = (k.entries, k.distinct)
  collect_from-IsKept (title ∷ titles) seen es (h, hs) k =
      Option-split_eq (λ l. All IsEntry l × IsDistinct l) (extract_episode_number title)
        (collect_from show_number trim origin show slug titles seen es) _
        (λ e. collect_from-IsKept titles seen es hs k)
        (λ ep e.
          let key = make_video_id show (show_number ep) in
          let entry = entry_of show_number trim origin show slug title ep in
          if-split (λ l. All IsEntry l × IsDistinct l) (is_seen key seen)
            (collect_from show_number trim origin show slug titles seen es) _
            (λ q. collect_from-IsKept titles seen es hs k)
            (λ q. collect_from-IsKept titles (key ∷ seen) (es ++ entry ∷ []) hs (record {
              entries = All-append IsEntry es (entry ∷ []) k.entries (
                record {
                  title = title;
                  episode = ep;
                  offered = subst (Ensures P) e h;
                  made = refl;
                },
                tt,
              );
              distinct =
                  IsDistinct-append es entry k.distinct (AreSeen-apart key seen es q k.seen_all);
              seen_all =
                  All-append (λ f. any (str_eq f.video_id) (key ∷ seen) ≡ true) es (entry ∷ [])
                    (AreSeen-cons key seen es k.seen_all) (rw (eq_refl key) refl, tt);
            })))

  pub collect_episode_entries-IsEntry :
      (titles : List String)
      → All (λ t. Ensures P (extract_episode_number t)) titles
      → All IsEntry (collect_episode_entries show_number trim titles origin show slug)
        × IsDistinct (collect_episode_entries show_number trim titles origin show slug)
  unfolding collect_episode_entries
  collect_episode_entries-IsEntry titles h =
      collect_from-IsKept titles [] [] h (record { entries = tt; distinct = tt; seen_all = tt })
