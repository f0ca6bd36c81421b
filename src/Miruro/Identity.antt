-- ===== src/Miruro/Identity.antt =====
-- The identity that extension/src/adapters/miruro/index.ts reports, and the one that the navigation guard of
-- the background reads off the same address.
use playback_sync.Base.{
  Bool, true, false, not, arith, ◌≡◌, refl, ◌∙◌, Option, none, some, String, if◌then◌else◌,
}
use playback_sync.Messages.{ContentIdentity}
use playback_sync.Urls.{Url, is_host, exec_path, id_of_parts, miruro_video_id}
use playback_sync.Miruro.{can_handle_page, identity_of, resolve_identity, show_of}

abbrev pub id_of : Option ContentIdentity → Option String
id_of none = none
id_of (some i) = some i.video_id

id_of-identity_of :
    (parts : Option (String × Option String)) (ep : Option String)
    → id_of (identity_of (show_of parts) ep) ≡ id_of_parts parts ep
unfolding identity_of id_of_parts
id_of-identity_of none ep = refl
id_of-identity_of (some (show, slug)) none = refl
id_of-identity_of (some (show, slug)) (some ep) = ground arith

handled :
    (on_host : Bool) (parts : Option (String × Option String)) (ep : Option String)
    → (if (if not on_host then false else elim parts [ none ↦ false | some _ ↦ true ])
        then id_of (identity_of (show_of parts) ep)
        else none)
      ≡ (if on_host then id_of_parts parts ep else none)
handled false parts ep = refl
handled true none ep = unfold id_of_parts in refl
handled true (some m) ep = id_of-identity_of (some m) ep

-- An address that the adapter handles has the identity, if any, that the guard reads off it, and one that
-- it does not handle has none for the guard either.
id_of-resolve_identity :
    (url : Url)
    → (if can_handle_page url then id_of (resolve_identity url) else none) ≡ miruro_video_id url
unfolding can_handle_page resolve_identity miruro_video_id
id_of-resolve_identity url = handled (is_host url.hostname) (exec_path url.pathname) url.ep

-- What the guard reads is what the adapter reports there.
pub resolve_identity-read :
    (url : Url) (v : String)
    → miruro_video_id url ≡ some v
    → (can_handle_page url ≡ true) × (id_of (resolve_identity url) ≡ some v)
resolve_identity-read url v e =
    split (can_handle_page url) (id_of (resolve_identity url)) (id_of-resolve_identity url ∙ e)
  where
    split :
        (b : Bool) (o : Option String)
        → (if b then o else none) ≡ some v
        → (b ≡ true) × (o ≡ some v)
    split true o q = (refl, q)
    split false o q = cc
