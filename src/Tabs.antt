-- ===== src/Tabs.antt =====
-- extension/src/background/tabs.ts: the cache of the latest state that each tab reported.
use playback_sync.Base.{ℕ, Option, none, some, String, NumMap, lookup, insert, remove}
use playback_sync.Messages.{ContentIdentity, VideoState}

pub record TabEntry (N : Type 0) : Type 0 where
  pub adapter_id : String
  pub latest_state : Option (VideoState N)
  pub identity : Option ContentIdentity
  pub last_state_at : ℕ

module _ {N : Type 0} where
  unfoldable pub record_status :
      ℕ → ℕ → String → VideoState N → NumMap (TabEntry N) → NumMap (TabEntry N)
  record_status now tab_id adapter_id state tabs = elim (lookup tab_id tabs) [
    | none ↦
        insert tab_id
          (record {
            adapter_id = adapter_id;
            latest_state = some state;
            identity = none;
            last_state_at = now;
          })
          tabs
    | some existing ↦
        insert tab_id (record existing { latest_state = some state; last_state_at = now }) tabs
  ]

  unfoldable pub record_identity :
      ℕ → String → ContentIdentity → NumMap (TabEntry N) → NumMap (TabEntry N)
  record_identity tab_id adapter_id identity tabs = elim (lookup tab_id tabs) [
    | none ↦
        insert tab_id
          (record {
            adapter_id = adapter_id;
            latest_state = none;
            identity = some identity;
            last_state_at = 0;
          })
          tabs
    | some existing ↦
        insert tab_id (record existing { adapter_id = adapter_id; identity = some identity }) tabs
  ]

  unfoldable pub forget_tab : ℕ → NumMap (TabEntry N) → NumMap (TabEntry N)
  forget_tab tab_id tabs = remove tab_id tabs

  unfoldable pub get_tab : ℕ → NumMap (TabEntry N) → Option (TabEntry N)
  get_tab tab_id tabs = lookup tab_id tabs
