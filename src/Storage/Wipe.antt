-- ===== src/Storage/Wipe.antt =====
-- The first boot of the service worker in a browser session, `wipeIfFreshBrowserSession` of
-- extension/src/background/storage.ts, split at its awaits. The messages of tabs do not wait for it, so the
-- operations on the slots come between. `browser.storage.session` is there, as in the browsers since 2023.
use playback_sync.Base.{ℕ, Bool, true, false, List, [], ◌∷◌, map, NumMap, remove, if◌then◌else◌}
use playback_sync.Protocol.Json.{Json}
use playback_sync.Storage.{Storage, Event, step}

-- What the wipe awaits.
pub data Wipe : Type 0 where
  idle : Wipe
  checking : Wipe
  listing : Wipe
  removing : List ℕ → Wipe
  marking : Wipe

-- `booted` is the sentinel.
pub record Boot (N : Type 0) : Type 0 where
  pub storage : Storage N
  pub booted : Bool
  pub wipe : Wipe

-- The operations on the slots, the call of the wipe, and the end of an await of it.
pub data BootEvent : Type 0 where
  did : Event → BootEvent
  woke : BootEvent
  resumed : BootEvent

-- The slots that were listed are removed, if there are any.
abbrev pub listed : List ℕ → Wipe
listed [] = marking
listed (k ∷ ks) = removing (k ∷ ks)

module _ {N : Type 0} where
  abbrev pub keys : NumMap (Json N) → List ℕ
  keys slots = map (λ e. e.0) slots

  unfoldable pub remove_all : List ℕ → NumMap (Json N) → NumMap (Json N)
  unfolding remove
  remove_all [] slots = slots
  remove_all (k ∷ ks) slots = remove_all ks (remove k slots)

  unfoldable pub resume : Wipe → Boot N → Boot N
  unfolding remove_all
  resume idle b = b
  resume checking b = if b.booted then record b { wipe = idle } else record b { wipe = listing }
  resume listing b = record b { wipe = listed (keys b.storage.slots) }
  resume (removing ks) b = record b {
    storage = record b.storage { slots = remove_all ks b.storage.slots };
    wipe = marking;
  }
  resume marking b = record b { booted = true; wipe = idle }

  unfoldable pub boot_step : Boot N → BootEvent → Boot N
  unfolding resume
  boot_step b (did e) = record b { storage = step b.storage e }
  boot_step b woke = record b { wipe = checking }
  boot_step b resumed = resume b.wipe b

  -- What an earlier browser session left, and the boot after the events, which stand newest first.
  unfoldable pub boot : NumMap (Json N) → List BootEvent → Boot N
  unfolding boot_step
  boot left [] = record {
    storage = record { slots = left; pending = [] };
    booted = false;
    wipe = idle;
  }
  boot left (e ∷ es) = boot_step (boot left es) e
