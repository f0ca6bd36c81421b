-- ===== src/Protocol/Playlist.antt =====
-- The decoder of PLAYLIST_UPDATE, decodePlaylistUpdate of extension/src/background/protocol.ts, with its entries.
use playback_sync.Base.{Option, some, List, [], ◌∷◌, ◌>>=◌}
use playback_sync.Number.{Number}
use playback_sync.Protocol.Frames.{
  PlaylistEntrySource, PlaylistEntry, InboundFrame, playlist_update,
}
use playback_sync.Protocol.Json.{
  Json, arr, Items, nil, cons, Fields, get, is_obj, as_string, as_nullable_string, as_int,
  as_nullable_int,
}
use playback_sync.Protocol.Parts.{Decoded, ok, shape, or_shape, and_then, as_source}

module _ {N : Type 0} ⦃n : Number N⦄ where
  -- One round of the loop over `entries`.
  unfoldable pub decode_playlist_entry : Json N → Decoded (PlaylistEntry N)
  decode_playlist_entry v =
      and_then (or_shape "PLAYLIST_UPDATE.entries[] not object" (is_obj (some v))) λ e.
        and_then {A = PlaylistEntrySource → PlaylistEntry N}
          (or_shape "PLAYLIST_UPDATE.entries[] missing required fields" do
            entry_id ← as_string (get "entryId" e)
            position ← as_int (get "position" e)
            provider_id ← as_string (get "providerId" e)
            video_id ← as_string (get "videoId" e)
            page_url ← as_string (get "pageUrl" e)
            added_at ← as_int (get "addedAt" e)
            last_seen_at ← as_int (get "lastSeenAt" e)
            some (λ source. record {
              entry_id = entry_id;
              position = position;
              provider_id = provider_id;
              video_id = video_id;
              page_url = page_url;
              label = as_nullable_string (get "label" e);
              episode_number = as_nullable_int (get "episodeNumber" e);
              season_number = as_nullable_int (get "seasonNumber" e);
              source = source;
              added_at = added_at;
              last_seen_at = last_seen_at;
            }))
          λ make.
            and_then
              (or_shape "PLAYLIST_UPDATE.entries[].source invalid" (as_source (get "source" e)))
              λ source. ok (make source)

  -- The loop of `decodePlaylistEntries`, which only `PLAYLIST_UPDATE` calls.
  unfoldable pub decode_playlist_entries : Items N → Decoded (List (PlaylistEntry N))
  decode_playlist_entries nil = ok []
  decode_playlist_entries (cons v vs) =
      let rest = decode_playlist_entries vs in
      and_then (decode_playlist_entry v) λ e. and_then rest λ es. ok (e ∷ es)

  unfoldable pub decode_entries_field : Option (Json N) → Decoded (List (PlaylistEntry N))
  unfolding decode_playlist_entries
  decode_entries_field (some (arr vs)) = decode_playlist_entries vs
  decode_entries_field _ = shape "PLAYLIST_UPDATE.entries must be array"

  unfoldable pub decode_playlist_update : Fields N → Decoded (InboundFrame N)
  decode_playlist_update o =
      and_then
        (or_shape "PLAYLIST_UPDATE missing fields" do
          playlist_version ← as_string (get "playlistVersion" o)
          server_ts ← as_int (get "serverTs" o)
          some (playlist_version, server_ts))
        λ (playlist_version, server_ts).
          and_then (decode_entries_field (get "entries" o)) λ entries. ok (
            playlist_update (record {
              entries = entries;
              playlist_version = playlist_version;
              server_ts = server_ts;
            }))
