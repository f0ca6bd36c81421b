-- ===== src/Protocol/Parts.antt =====
-- The results of decoding, and the field decoders of extension/src/background/protocol.ts that
-- accept one of a few texts or a nested object. `JSON.parse` yields the values they read.
use text.Mathlib.Text.{◌==◌ as str_eq}
use playback_sync.Base.{Option, none, some, String, if◌then◌else◌, ◌>>=◌}
use playback_sync.Protocol.Frames.{
  PlaylistEntrySource, scraped, curated, auto_appended, EventKind, CursorRef, SyncAdjustMode,
  NoticeEvent, NoticeCategory, NoticeActor,
}
use playback_sync.Protocol.Json.{Json, null, str, obj, Fields, get, as_string, as_nullable_string}

pub data DecodeErrorKind : Type 0 where
  invalid_json invalid_shape unknown_type : DecodeErrorKind

pub data Decoded (A : Type 0) : Type 0 where
  ok : A → Decoded A
  bad : DecodeErrorKind → String → Decoded A

abbrev pub shape : {A : Type 0} → String → Decoded A
shape detail = bad invalid_shape detail

-- The value if every required field was there, else the shape error.
unfoldable pub or_shape : {A : Type 0} → String → Option A → Decoded A
or_shape detail none = shape detail
or_shape detail (some a) = ok a

unfoldable pub and_then : {A B : Type 0} → Decoded A → (A → Decoded B) → Decoded B
and_then (ok a) k = k a
and_then (bad e detail) k = bad e detail

-- The result of `decodeOptionalCursor`: a cursor, `null` or `'bad'`.
pub data CursorResult : Type 0 where
  cursor : CursorRef → CursorResult
  absent : CursorResult
  malformed : CursorResult

abbrev pub cursor_of : Option CursorRef → CursorResult
cursor_of none = malformed
cursor_of (some c) = cursor c

unfoldable pub decode_room_cursor : CursorResult → Decoded (Option CursorRef)
decode_room_cursor (cursor c) = ok (some c)
decode_room_cursor absent = ok none
decode_room_cursor malformed = shape "ROOM_STATE.cursor malformed"

unfoldable pub decode_change_cursor : CursorResult → Decoded CursorRef
decode_change_cursor (cursor c) = ok c
decode_change_cursor _ = shape "CURSOR_CHANGE.cursor required"

module _ {N : Type 0} where
  unfoldable pub decode_optional_cursor : Option (Json N) → CursorResult
  decode_optional_cursor none = absent
  decode_optional_cursor (some null) = absent
  decode_optional_cursor (some (obj o)) = cursor_of do
    entry_id ← as_string (get "entryId" o)
    provider_id ← as_string (get "providerId" o)
    video_id ← as_string (get "videoId" o)
    page_url ← as_string (get "pageUrl" o)
    some (record {
      entry_id = entry_id;
      provider_id = provider_id;
      video_id = video_id;
      page_url = page_url;
      label = as_nullable_string (get "label" o);
    })
  decode_optional_cursor _ = malformed

  unfoldable pub as_source : Option (Json N) → Option PlaylistEntrySource
  as_source (some (str s)) =
      if str_eq s "scraped"
      then some scraped
      else if str_eq s "curated"
      then some curated
      else if str_eq s "auto_appended"
      then some auto_appended
      else none
  as_source _ = none

  unfoldable pub as_event_kind : Option (Json N) → Option EventKind
  as_event_kind (some (str s)) =
      if str_eq s "play"
      then some EventKind.play
      else if str_eq s "pause"
      then some EventKind.pause
      else if str_eq s "seek"
      then some EventKind.seek
      else none
  as_event_kind _ = none

  unfoldable pub as_adjust_mode : Option (Json N) → Option SyncAdjustMode
  as_adjust_mode (some (str s)) =
      if str_eq s "nudge-rate"
      then some SyncAdjustMode.nudge_rate
      else if str_eq s "seek"
      then some SyncAdjustMode.seek
      else none
  as_adjust_mode _ = none

  unfoldable pub as_notice_event : Option (Json N) → Option NoticeEvent
  as_notice_event (some (str s)) =
      if str_eq s "play"
      then some NoticeEvent.play
      else if str_eq s "pause"
      then some NoticeEvent.pause
      else if str_eq s "seek"
      then some NoticeEvent.seek
      else if str_eq s "cursor_change"
      then some NoticeEvent.cursor_change
      else if str_eq s "client_joined"
      then some NoticeEvent.client_joined
      else if str_eq s "client_left"
      then some NoticeEvent.client_left
      else none
  as_notice_event _ = none

  unfoldable pub as_notice_category : Option (Json N) → Option NoticeCategory
  as_notice_category (some (str s)) =
      if str_eq s "playback"
      then some NoticeCategory.playback
      else if str_eq s "presence"
      then some NoticeCategory.presence
      else none
  as_notice_category _ = none

  unfoldable pub as_notice_actor : Option (Json N) → Option NoticeActor
  as_notice_actor (some (str s)) =
      if str_eq s "client"
      then some NoticeActor.client
      else if str_eq s "owner"
      then some NoticeActor.owner
      else if str_eq s "system"
      then some NoticeActor.system
      else none
  as_notice_actor _ = none

  -- `isObj(v['videoRef'])`, and its label.
  unfoldable pub notice_video_ref : Option (Fields N) → Option (Option String)
  notice_video_ref none = none
  notice_video_ref (some o) = some (as_nullable_string (get "label" o))
