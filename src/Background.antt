-- ===== src/Background.antt =====
-- extension/entrypoints/background.ts, at one tab. The entrypoint keeps its state in maps by tab id,
-- and a handler reads and writes only the entries of the tab that it is called for: `Tab` is those
-- entries. A session is an object that the map, the tab's WebSocket runtime and a suspended handler
-- share, so the map holds its identity and the objects lie in a store. A handler that waits
-- for the browser is suspended as a `Task`, and others run before it resumes. What it calls in the
-- browser and in the other modules is a list of outputs.
pub mod Dispatch
pub mod Guard
pub mod Navigation
pub mod Routes
pub mod Runs
pub mod Gist
pub mod Steady
pub mod Unstuck
pub mod Fallback
pub mod Rescue
pub mod Quiet
pub mod Intents
pub mod Partition
pub mod Matrix
pub mod Buffers
pub mod Settled
use playback_sync.Base.{
  ℕ, ◌+◌, Bool, true, false, Option, none, some, List, [], ◌∷◌, ◌++◌, String, if◌then◌else◌, NumMap,
  ◌==◌,
}
use playback_sync.Number.{Number}
use playback_sync.Protocol.Frames.{CursorRef, VideoRef, VideoRefWithMeta, BufferKind}
use playback_sync.Messages.{AuthoritativeCommand, LocalIntent, Notice}
use playback_sync.Session.{SessionState, create_session}
use playback_sync.Tabs.{TabEntry}
use playback_sync.Ws.{Creds}

pub record TabFrames : Type 0 where
  pub page_frame : ℕ
  pub media_frame : Option ℕ

-- What `guardContext` returns; `session` is the identity of the object.
pub record Context : Type 0 where
  pub adapter_id : String
  pub session : ℕ
  pub cursor : CursorRef

-- `BackgroundToContent` of extension/src/messages.ts.
pub data Payload (N : Type 0) : Type 0 where
  command : AuthoritativeCommand N → Payload N
  notice : Notice N → Payload N
  room_active : Bool → Payload N
  reevaluate : Payload N

-- `message` is a `browser.tabs.sendMessage` with the frame that it is targeted at, `update` a
-- `browser.tabs.update`. The outputs `ws_` are calls of the tab's WebSocket client.
pub data Output (N : Type 0) : Type 0 where
  message : Option ℕ → Payload N → Output N
  update : String → Output N
  ws_connect : Creds → ℕ → Output N
  ws_disconnect : Output N
  ws_event : LocalIntent N → Output N
  ws_buffer : BufferKind → N → Output N
  ws_cursor_request : VideoRefWithMeta N → Output N
  ws_identity : VideoRef → Output N
  ws_catalog : Option (List (VideoRefWithMeta N)) → Output N
  popup_creds : String → Output N
  popup_cleared : Output N
  set_colored : Bool → Output N
  forget_icon : Output N
  start_resync : Output N
  store_creds : String → String → Output N
  remove_creds : Output N

-- A handler that awaits `browser.tabs.get`, `loadCreds` (with whether `room_active` is pushed
-- behind it), `saveCreds`, or `clearCreds` in `tearDownTab` or after a `fail`.
pub data Task : Type 0 where
  routing : Context → Task
  reconciling : Context → Task
  rechecking : Context → Task
  loading : Bool → Task
  saving : String → String → Task
  tearing_down : Task
  failing : Task

-- The outputs stand newest first. A timer is whether it is in its map. `cache` is the map of extension/src/background/tabs.ts.
pub record Tab (N : Type 0) : Type 0 where
  pub id : ℕ
  pub session : Option ℕ
  pub objects : ℕ → SessionState N
  pub fresh : ℕ
  pub guarded : Option String
  pub frames : Option TabFrames
  pub nav_timer : Bool
  pub reload_timer : Bool
  pub request_timer : Bool
  pub reconcile_timer : Bool
  pub cache : NumMap (TabEntry N)
  pub tasks : List Task
  pub out : List (Output N)

module _ {N : Type 0} where
  abbrev pub emit : Output N → Tab N → Tab N
  emit o t = record t { out = o ∷ t.out }

  abbrev pub suspend : Task → Tab N → Tab N
  suspend task t = record t { tasks = t.tasks ++ task ∷ [] }

  -- A write to a session object.
  abbrev pub assign : ℕ → SessionState N → Tab N → Tab N
  assign id s t = record t { objects = λ j. if id == j then s else t.objects j }

  abbrev pub mutate : ℕ → (SessionState N → SessionState N) → Tab N → Tab N
  mutate id f t = assign id (f (t.objects id)) t

module _ {N : Type 0} ⦃n : Number N⦄ where
  -- A tab of which the worker knows nothing.
  unfoldable pub new_tab : ℕ → Tab N
  new_tab id = record {
    id = id;
    session = none;
    objects = λ j. create_session;
    fresh = 0;
    guarded = none;
    frames = none;
    nav_timer = false;
    reload_timer = false;
    request_timer = false;
    reconcile_timer = false;
    cache = [];
    tasks = [];
    out = [];
  }
