-- ===== src/Protocol/Sound.antt =====
-- Whatever the server sends, a frame that the decoder of extension/src/background/protocol.ts lets
-- through holds finite positions, and integers for event ids and timestamps.
use playback_sync.Base.{Option, none, some, String, ◌≡◌, All, Ensures, ◌>>=◌, arith}
use playback_sync.Number.{Number}
use playback_sync.Protocol.Frames.{PlaylistEntrySource, RoomStateFrame, InboundFrame}
use playback_sync.Protocol.Json.{
  Json, null, num, arr, Items, nil, cons, Fields, get, as_number, as_int, as_nullable_int, is_obj,
}
use playback_sync.Protocol.Parts.{Decoded, ok, bad}
use playback_sync.Protocol.Rules.{
  Sure, missing, here, Good, refused, fine, Sure-bind, Good-or_shape, Good-and_then, Good-skip,
  Good-if, Good-value,
}
use playback_sync.Protocol.RoomState.{
  event_value, decode_recent_event, decode_recent_events, decode_recent_field, decode_room_state,
}
use playback_sync.Protocol.Playlist.{
  decode_playlist_entry, decode_playlist_entries, decode_entries_field, decode_playlist_update,
}
use playback_sync.Protocol.Decode.{
  decode_state, decode_cursor_change, decode_sync_adjust, decode_clock_pong, decode_error,
  decode_notice_data, decode_notice, decode_typed, decode_json, decode_parsed, decode,
}
use playback_sync.Protocol.Valid.{
  IsFin, IsInt, IsValidEntry, IsValidEvent, IsValidData, IsValidFrame,
}

module _ {N : Type 0} ⦃n : Number N⦄ where
  as_number-IsFin : (v : Option (Json N)) → Ensures IsFin (as_number v)
  unfolding as_number
  as_number-IsFin (some (num x)) = ground arith
  as_number-IsFin _ = tt

  as_int-IsInt : (v : Option (Json N)) → Ensures IsInt (as_int v)
  unfolding as_int
  as_int-IsInt (some (num x)) = ground arith
  as_int-IsInt _ = tt

  as_nullable_int-IsInt : (v : Option (Json N)) → Ensures IsInt (as_nullable_int v)
  unfolding as_nullable_int
  as_nullable_int-IsInt none = tt
  as_nullable_int-IsInt (some null) = tt
  as_nullable_int-IsInt (some (num x)) = as_int-IsInt (some (num x))
  as_nullable_int-IsInt _ = unfold as_int in tt

  number_value : (v : Option (Json N)) {x : N} → as_number v ≡ some x → IsFin x
  number_value v e = rw e at (as_number-IsFin v)

  IsInt-value : (v : Option (Json N)) {x : N} → as_int v ≡ some x → IsInt x
  IsInt-value v e = rw e at (as_int-IsInt v)

  event_value-IsFin : (v : Option (Json N)) → Sure (Ensures IsFin) (event_value v)
  unfolding event_value
  event_value-IsFin none = here tt
  event_value-IsFin (some null) = here tt
  event_value-IsFin (some (num x)) =
      Sure-bind (as_number (some (num x))) (λ y. some (some y))
        λ y e. here (number_value (some (num x)) e)
  event_value-IsFin _ = unfold as_number ◌>>=◌ in missing

  state_sound : (o : Fields N) → Good IsValidFrame (decode_state o)
  unfolding decode_state
  state_sound o = Good-or_shape _ _ (
      Sure-bind _ _ λ p _. Sure-bind _ _ λ x ex.
        Sure-bind _ _ λ i ei.
          Sure-bind _ _ λ t et. here (number_value _ ex, IsInt-value _ ei, IsInt-value _ et))

  cursor_change_sound : (o : Fields N) → Good IsValidFrame (decode_cursor_change o)
  unfolding decode_cursor_change
  cursor_change_sound o = Good-skip _ _ λ c.
      Good-or_shape _ _
        (Sure-bind _ _ λ i ei. Sure-bind _ _ λ t et. here (IsInt-value _ ei, IsInt-value _ et))

  sync_adjust_sound : (o : Fields N) → Good IsValidFrame (decode_sync_adjust o)
  unfolding decode_sync_adjust
  sync_adjust_sound o =
      Good-and_then (λ r. IsInt r.0 × IsFin r.1) _ _
        (Good-or_shape _ _
          (Sure-bind _ _ λ t et. Sure-bind _ _ λ p ep. here (IsInt-value _ et, number_value _ ep)))
        λ r q. Good-skip _ _ λ mode. fine q

  clock_pong_sound : (o : Fields N) → Good IsValidFrame (decode_clock_pong o)
  unfolding decode_clock_pong
  clock_pong_sound o = Good-or_shape _ _ (
      Sure-bind _ _ λ a ea.
        Sure-bind _ _ λ b eb.
          Sure-bind _ _ λ c ec. here (number_value _ ea, IsInt-value _ eb, IsInt-value _ ec))

  error_sound : (o : Fields N) → Good IsValidFrame (decode_error o)
  unfolding decode_error
  error_sound o =
      Good-or_shape _ _
        (Sure-bind _ _ λ a _. Sure-bind _ _ λ b _. Sure-bind _ _ λ c ec. here (IsInt-value _ ec))

  notice_data_sound : (o : Option (Fields N)) → Ensures IsValidData (decode_notice_data o)
  unfolding decode_notice_data
  notice_data_sound none = tt
  notice_data_sound (some o) = as_number-IsFin (get "value" o)

  notice_sound : (o : Fields N) → Good IsValidFrame (decode_notice o)
  unfolding decode_notice
  notice_sound o = Good-skip _ _ λ event. Good-skip _ _ λ category. Good-skip _ _ λ actor.
      Good-or_shape _ _
        (Sure-bind _ _ λ t et. here (notice_data_sound (is_obj (get "data" o)), IsInt-value _ et))

  entry_sound : (v : Json N) → Good IsValidEntry (decode_playlist_entry v)
  unfolding decode_playlist_entry
  entry_sound v = Good-skip _ _ λ e.
      Good-and_then (λ make. (s : PlaylistEntrySource) → IsValidEntry (make s)) _ _
        (Good-or_shape _ _ (
          Sure-bind _ _ λ a _. Sure-bind _ _ λ p ep. Sure-bind _ _ λ b _. Sure-bind _ _ λ c _.
            Sure-bind _ _ λ d _. Sure-bind _ _ λ f ef. Sure-bind _ _ λ g eg. here λ s. record {
              position = IsInt-value _ ep;
              episode_number = as_nullable_int-IsInt _;
              season_number = as_nullable_int-IsInt _;
              added_at = IsInt-value _ ef;
              last_seen_at = IsInt-value _ eg;
            }))
        λ make q. Good-skip _ _ λ s. fine (q s)

  entries_sound : (vs : Items N) → Good (All IsValidEntry) (decode_playlist_entries vs)
  unfolding decode_playlist_entries
  entries_sound nil = fine tt
  entries_sound (cons v vs) =
      Good-and_then IsValidEntry _ _ (entry_sound v)
        λ e q. Good-and_then (All IsValidEntry) _ _ (entries_sound vs) λ es qs. fine (q, qs)

  entries_field_sound : (v : Option (Json N)) → Good (All IsValidEntry) (decode_entries_field v)
  unfolding decode_entries_field
  entries_field_sound (some (arr vs)) = entries_sound vs
  entries_field_sound _ = refused

  playlist_update_sound : (o : Fields N) → Good IsValidFrame (decode_playlist_update o)
  unfolding decode_playlist_update
  playlist_update_sound o =
      Good-and_then (λ r. IsInt r.1) _ _
        (Good-or_shape _ _ (Sure-bind _ _ λ v _. Sure-bind _ _ λ t et. here (IsInt-value _ et)))
        λ r q.
          Good-and_then (All IsValidEntry) _ _ (entries_field_sound (get "entries" o))
            λ es qs. fine (qs, q)

  event_sound : (v : Json N) → Good IsValidEvent (decode_recent_event v)
  unfolding decode_recent_event
  event_sound v = Good-skip _ _ λ o. Good-skip _ _ λ k.
      Good-and_then (λ r. IsInt r.1 × IsInt r.2) _ _
        (Good-or_shape _ _ (
          Sure-bind _ _ λ c _.
            Sure-bind _ _ λ t et. Sure-bind _ _ λ i ei. here (IsInt-value _ et, IsInt-value _ ei)))
        λ r q.
          Good-and_then (Ensures IsFin) _ _ (Good-or_shape _ _ (event_value-IsFin (get "value" o)))
            λ x qx. fine (record { value = qx; ts = q.0; event_id = q.1 })

  events_sound : (vs : Items N) → Good (All IsValidEvent) (decode_recent_events vs)
  unfolding decode_recent_events
  events_sound nil = fine tt
  events_sound (cons v vs) =
      Good-and_then IsValidEvent _ _ (event_sound v)
        λ e q. Good-and_then (All IsValidEvent) _ _ (events_sound vs) λ es qs. fine (q, qs)

  recent_field_sound :
      (v : Option (Json N)) → Good (Ensures (All IsValidEvent)) (decode_recent_field v)
  unfolding decode_recent_field
  recent_field_sound none = fine tt
  recent_field_sound (some (arr vs)) =
      Good-and_then (All IsValidEvent) _ _ (events_sound vs) λ es q. fine q
  recent_field_sound _ = refused

  abbrev HasValidHead : RoomStateFrame N → Type 0
  HasValidHead f = IsFin f.video_pos × IsInt f.last_event_id × IsInt f.server_ts

  room_state_sound : (o : Fields N) → Good IsValidFrame (decode_room_state o)
  unfolding decode_room_state
  room_state_sound o =
      Good-and_then HasValidHead _ _
        (Good-or_shape _ _ (
          Sure-bind _ _ λ a _. Sure-bind _ _ λ b _. Sure-bind _ _ λ p _. Sure-bind _ _ λ x ex.
            Sure-bind _ _ λ i ei. Sure-bind _ _ λ t et. Sure-bind _ _ λ s _.
              Sure-bind _ _ λ f _. here (number_value _ ex, IsInt-value _ ei, IsInt-value _ et)))
        λ f q. Good-skip _ _ λ c.
          Good-and_then (Ensures (All IsValidEvent)) _ _ (recent_field_sound (get "recentEvents" o))
            λ es qs.
              fine (record {
                video_pos = q.0;
                last_event_id = q.1;
                server_ts = q.2;
                recent_events = qs;
              })

  typed_sound : (type : String) (o : Fields N) → Good IsValidFrame (decode_typed type o)
  unfolding decode_typed
  typed_sound type o = Good-if _ (room_state_sound o) (
      Good-if _ (state_sound o) (
        Good-if _ (cursor_change_sound o) (
          Good-if _ (playlist_update_sound o) (
            Good-if _ (sync_adjust_sound o) (
              Good-if _ (clock_pong_sound o)
                (Good-if _ (error_sound o) (Good-if _ (notice_sound o) refused)))))))

  json_sound : (v : Json N) → Good IsValidFrame (decode_json v)
  unfolding decode_json
  json_sound v = Good-skip _ _ λ o. Good-skip _ _ λ t. typed_sound t o

  parsed_sound : (r : Decoded (Json N)) → Good IsValidFrame (decode_parsed r)
  unfolding decode_parsed
  parsed_sound (ok v) = json_sound v
  parsed_sound (bad _ _) = refused

  -- A text that decodes, decodes to a frame with finite positions and integer ids and timestamps,
  -- whatever the JSON parser.
  pub decode-IsValidFrame :
      (parse : String → Decoded (Json N)) (raw : String) (f : InboundFrame N)
      → decode parse raw ≡ ok f
      → IsValidFrame f
  unfolding decode
  decode-IsValidFrame parse raw f e = Good-value (parsed_sound (parse raw)) e
