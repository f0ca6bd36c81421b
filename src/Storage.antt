-- ===== src/Storage.antt =====
-- The credentials that the background stores for each tab: extension/src/background/storage.ts. The
-- key of a slot is its tab, as `keyFor` gives each tab a key of its own. `saveClientId` awaits its
-- read, so it is split there: what it read waits in `pending`, and other operations come between.
pub mod Saved
pub mod Wipe
pub mod Progress
pub mod Fresh
use playback_sync.Base.{
  get_elem?, erase_idx, ℕ, zero, suc, Option, none, some, List, [], ◌∷◌, String, NumMap, lookup,
  insert, remove, ◌>>=◌,
}
use playback_sync.Protocol.Json.{Json, str, obj, Fields, field, end, get, is_obj, as_string}
use playback_sync.Urls.Paths.{strip}
use playback_sync.Ws.{Creds}

-- The write of a client id that waits for the read: the tab, the id and what was read.
pub record Write : Type 0 where
  pub tab : ℕ
  pub id : String
  pub current : Option Creds

pub record Storage (N : Type 0) : Type 0 where
  pub slots : NumMap (Json N)
  pub pending : List Write

pub data Event : Type 0 where
  saved : ℕ → String → String → Event
  cleared : ℕ → Event
  assigned : ℕ → String → Event
  written : ℕ → Event

-- One round of the loop of `loadAllCreds`, by the tab of the key and the checked value.
abbrev pub entered : Option ℕ → Option Creds → NumMap Creds → NumMap Creds
entered none c out = out
entered (some tab) none out = out
entered (some tab) (some c) out = insert tab c out

module _ {N : Type 0} where
  -- The checks of `loadCreds` on the stored value.
  unfoldable pub creds_of : Option (Json N) → Option Creds
  unfolding is_obj get as_string ◌>>=◌
  creds_of raw = do
    o ← is_obj raw
    sync_url ← as_string (get "syncUrl" o)
    sync_password ← as_string (get "syncPassword" o)
    some (record {
      sync_url = sync_url;
      sync_password = sync_password;
      client_id = as_string (get "clientId" o);
    })

  unfoldable pub load_creds : ℕ → NumMap (Json N) → Option Creds
  unfolding creds_of lookup
  load_creds tab slots = creds_of (lookup tab slots)

  -- The loop over all that is stored, with the map that it fills. `number` is `Number` of a text, if that is
  -- an integer and the id of a tab.
  unfoldable pub load_entries :
      (String → Option ℕ) → List (String × Json N) → NumMap Creds → NumMap Creds
  unfolding insert strip ◌>>=◌ creds_of
  load_entries number [] out = out
  load_entries number ((key, raw) ∷ rest) out =
      load_entries number rest
        (entered (strip "pbsync.tab." key >>= number) (creds_of (some raw)) out)

  unfoldable pub load_all_creds : (String → Option ℕ) → List (String × Json N) → NumMap Creds
  unfolding load_entries
  load_all_creds number stored = load_entries number stored []

  abbrev pub client_field : Option String → Fields N
  client_field none = end
  client_field (some id) = field "clientId" (str id) end

  -- The object that is stored for credentials.
  unfoldable pub slot_value : Creds → Json N
  slot_value c = obj (
      field "syncUrl" (str c.sync_url)
        (field "syncPassword" (str c.sync_password) (client_field c.client_id)))

  unfoldable pub save_creds : ℕ → String → String → Storage N → Storage N
  unfolding slot_value insert
  save_creds tab url password st = record st {
    slots =
        insert tab
          (slot_value (record { sync_url = url; sync_password = password; client_id = none }))
          st.slots;
  }

  unfoldable pub clear_creds : ℕ → Storage N → Storage N
  unfolding remove
  clear_creds tab st = record st { slots = remove tab st.slots }

  -- `saveClientId` up to its await, and behind it.
  unfoldable pub save_client_id : ℕ → String → Storage N → Storage N
  unfolding load_creds
  save_client_id tab id st = record st {
    pending = record { tab = tab; id = id; current = load_creds tab st.slots } ∷ st.pending;
  }

  unfoldable pub client_id_resumed : Write → Storage N → Storage N
  unfolding slot_value insert
  client_id_resumed w st = elim w.current [
    | none ↦ st
    | some c ↦ record st {
      slots = insert w.tab (slot_value (record c { client_id = some w.id })) st.slots;
    }
  ]

  unfoldable pub step : Storage N → Event → Storage N
  unfolding save_creds clear_creds save_client_id client_id_resumed
  step st (saved tab url password) = save_creds tab url password st
  step st (cleared tab) = clear_creds tab st
  step st (assigned tab id) = save_client_id tab id st
  step st (written k) = elim (get_elem? st.pending k) [
    | none ↦ st
    | some w ↦ client_id_resumed w (record st { pending = erase_idx st.pending k })
  ]

  -- The storage after the events, which stand newest first.
  unfoldable pub after : List Event → Storage N
  after [] = record { slots = []; pending = [] }
  after (e ∷ es) = step (after es) e
