-- ===== src/Lib.antt =====
-- The browser extension and the dashboard of PlaybackSync. A server keeps rooms; the extension ties
-- a tab to a room and keeps the tab's player in step with it. Most of its logic runs in the
-- background worker: extension/entrypoints/background.ts takes the messages of a tab's content
-- scripts, the popup and the browser; extension/src/background/session.ts folds server frames into
-- the state of a session and answers with commands for the player; extension/src/background/ws.ts
-- runs one WebSocket client per tab; extension/src/background/protocol.ts holds the wire frames and
-- their decoder. In the frame with the video, extension/src/adapters/media/runtime.ts carries the
-- commands out.
--
-- Files:
--   Base: shared helpers on the native numbers, lists, maps and tests.
--   Number: the interface of JavaScript numbers; Number/Fixed fills it with thousandths.
--   Protocol: the frames and `decode` (Decode, RoomState, Playlist, Parts, Json) with every error, the
--     frames of the server (Server) and the object that lib/WebSocket/MessageEncoder.php writes of them
--     (Encoder), and the proofs (RoundTrip, Sound).
--   Messages: the types that the parts exchange, of extension/src/messages.ts and adapters/types.ts.
--   Session: `SessionState` and its operations: folds of frames (Folds), echo suppression (Windows),
--     the clock and the resync (Clock), and the operations as steps (Ops).
--   Tabs: the cache of extension/src/background/tabs.ts.
--   Ws: one runtime with the pool of all: its life (Lifecycle), its frames and timers (Frames), what
--     it sends (Senders), and its events as steps (Runs). Delivery follows a frame to the player.
--   Urls: extension/src/adapters/miruro/url.ts and the matchers in adapters/url-matchers.ts.
--   Adapter: the skeleton of a site's page adapter, extension/src/adapters/base.ts, with its steps.
--   Miruro: the page adapter of miruro, extension/src/adapters/miruro/index.ts, with the numbers that it
--     reads off titles (Titles).
--   Background: one tab in the entrypoint: messages to its frames (Dispatch), the navigation guard with
--     its timers (Guard, Navigation), the message routes (Routes), and its events as steps (Runs).
--   Media: extension/src/adapters/media/runtime.ts, which drives the <video> of a frame, and its events
--     as steps (Runs).
--   Page: extension/src/adapters/runtime.ts, which runs the site's adapter in the top frame, and its
--     events as steps (Runs).
--   Popup: extension/src/background/popupBroadcast.ts, and its events as steps (Runs).
--   Toasts: the notices on a page, extension/src/ui/notifications.ts: their texts (Format), the stack of
--     toasts and the badge, and the queue before the mount as events (Runs).
--   Storage: the slots of extension/src/background/storage.ts and their operations, and the wipe of a
--     fresh browser session (Wipe).
--   EventStream: the event log of the dashboard, src/composables/useEventSource.ts, with its window.
--   Rooms: the dashboard's store of rooms, src/stores/rooms.ts: its error messages (Errors), its actions
--     up to and behind their awaits (Actions), and a run of it (Runs).
--   Admin: the administrator's settings, src/stores/adminSettings.ts: its actions and the replies they
--     take (Actions), and the end of a restart (Restart).
--   Videos: the addresses pasted into the dashboard, src/util/parseVideoUrl.ts and suggestMode.ts, with
--     the texts they take apart (Parts) and the keys they give (Keys).
--   Refresh: the paced refresh of src/composables/useAutoRefresh.ts; its proofs are Paced and Frozen.
--   Examples: concrete runs.
-- The other modules hold proofs, and say in their first lines about what.
--
-- A function of the source has the name it has there, in lower case. Shared objects are kept in
-- explicit state: a runtime in `Ws`, a tab in `Tab`, a media frame in `Media`. A tab's sessions are
-- identities of objects in a store, since a suspended handler may write to a session that the map has
-- dropped. A handler that awaits is split at the await and leaves a `Task`; an event resumes any
-- waiting task. What a handler does to the browser, the sockets and the timers is a list of outputs.
--
-- Bounds: no function runs on fuel. A run is a list of events of any length; the order of events is
-- free, but a timer that is not set does not fire. Times are natural numbers of milliseconds. What a
-- clock tick, a number's rounding or a URL parse yields is a parameter: `Number` has no laws except
-- where a theorem takes `IsIeee` or a comparison of two literals, and `parse` stands for the browser's
-- URL constructor.
--
-- Not modelled: the media adapters, which mostly drive the <video>, and the waits for elements of a
-- page; the popup's own page; the toolbar icon and log lines; the dashboard's components and thin
-- stores, and the PHP server apart from its encoder. The texts behind `json_encode` and
-- `JSON.parse` are parameters.
pub mod Base
pub mod Number
pub mod Protocol
pub mod Messages
pub mod Session
pub mod Tabs
pub mod Ws
pub mod Urls
pub mod Background
pub mod Media
pub mod Popup
pub mod Storage
pub mod EventStream
pub mod Rooms
pub mod Toasts
pub mod Page
pub mod Admin
pub mod Videos
pub mod Refresh
pub mod Miruro
pub mod Adapter
pub mod Examples
