-- ===== src/Examples/Slots.antt =====
-- A tab whose credentials are wiped while the id that the server assigned to it is being written.
use text.Mathlib.Text.{◌==◌ as str_eq}
use playback_sync.Base.{
  ℕ, Option, String, if◌then◌else◌, true, none, NumMap, ◌≡◌, refl, some, List, [], ◌∷◌,
}
use playback_sync.Number.Fixed.{Fixed}
use playback_sync.Protocol.Json.{Json, null}
use playback_sync.Ws.{Creds}
use playback_sync.Storage.{
  Event, saved, cleared, assigned, written, slot_value, load_creds, load_all_creds, step, after,
}
use playback_sync.Storage.Saved.{WasSaved}
use playback_sync.Storage.Wipe.{BootEvent, did, woke, resumed, boot}
use playback_sync.Storage.Fresh.{operations, load_creds-boot}

-- Newest first.
abbrev overtaken : List Event
overtaken = written 0 ∷ cleared 7 ∷ assigned 7 "c1" ∷ saved 7 "wss://example.org/room" "secret" ∷ []

abbrev revived : Creds
revived = record {
  sync_url = "wss://example.org/room";
  sync_password = "secret";
  client_id = some "c1";
}

-- The write that was overtaken brings the wiped credentials back.
loads_revived : load_creds 7 (after {N = Fixed} overtaken).slots ≡ some revived
unfolding after step
loads_revived = refl

-- Another key of the extension is passed over, and so is a slot that is no object.
abbrev seven : String → Option ℕ
seven text = if str_eq text "7" then some 7 else if str_eq text "8" then some 8 else none

loads_all :
    load_all_creds {N = Fixed} seven (
      ("debug", slot_value revived)
      ∷ ("pbsync.tab.7", slot_value revived)
      ∷ ("pbsync.tab.8", null)
      ∷ [])
    ≡ (7, revived) ∷ []
unfolding load_all_creds slot_value
loads_all = refl

abbrev fresh_creds : Creds
fresh_creds = record {
  sync_url = "wss://example.org/room";
  sync_password = "secret";
  client_id = none;
}

-- What an earlier session left for tabs 7 and 8.
abbrev leftover : NumMap (Json Fixed)
leftover = (7, slot_value revived) ∷ (8, slot_value revived) ∷ []

-- The wipe, to its end, and then a tab that joins; newest first.
abbrev joined_after : List BootEvent
joined_after =
    did (saved 7 "wss://example.org/room" "secret")
    ∷ resumed
    ∷ resumed
    ∷ resumed
    ∷ resumed
    ∷ woke
    ∷ []

joined_booted : (boot leftover joined_after).booted ≡ true
unfolding boot
joined_booted = refl

joined_creds : load_creds 7 (boot leftover joined_after).storage.slots ≡ some fresh_creds
unfolding boot load_creds step
joined_creds = refl

load_creds-boot_example : WasSaved 7 fresh_creds (operations joined_after)
load_creds-boot_example =
    load_creds-boot Fixed leftover joined_after 7 fresh_creds tt joined_booted joined_creds

-- Between the awaits of the wipe a leftover slot is still there.
loads_leftover : load_creds 8 (boot leftover (resumed ∷ woke ∷ [])).storage.slots ≡ some revived
unfolding boot load_creds slot_value
loads_leftover = refl

-- Credentials that are saved for a tab whose leftover slot was listed are removed with it.
abbrev joined_between : List BootEvent
joined_between =
    resumed
    ∷ resumed
    ∷ did (saved 7 "wss://example.org/room" "secret")
    ∷ resumed
    ∷ resumed
    ∷ woke
    ∷ []

loses_joined : load_creds 7 (boot leftover joined_between).storage.slots ≡ none
unfolding boot load_creds step
loses_joined = refl
