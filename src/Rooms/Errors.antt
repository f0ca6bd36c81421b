-- ===== src/Rooms/Errors.antt =====
-- What the dashboard shows of a failed request: the catch blocks of src/stores/rooms.ts.
use text.Mathlib.Text.{◌==◌ as str_eq}
use playback_sync.Base.{
  ℕ, Bool, false, ◌||◌, Option, none, some, String, if◌then◌else◌, ◌==◌, ◌>>=◌,
}
use playback_sync.Rooms.{Toast, translated, from_server}

-- `response.data`, as far as it is read.
pub record ErrorBody : Type 0 where
  pub code : Option String
  pub error : Option String

pub record Response : Type 0 where
  pub status : Option ℕ
  pub body : Option ErrorBody

-- What a request threw: with a `response`, or anything else.
abbrev pub Failure : Type 0
Failure = Option Response

unfoldable pub extract_status : Failure → Option ℕ
extract_status f = f >>= λ r. r.status

unfoldable pub extract_error_code : Failure → Option String
extract_error_code f = f >>= λ r. r.body >>= λ b. b.code

abbrev truthy : String → Option String
truthy text = if str_eq text "" then none else some text

unfoldable pub extract_error_message : Failure → Option String
extract_error_message f = f >>= λ r. r.body >>= λ b. b.error >>= truthy

abbrev pub has_code : String → Failure → Bool
unfolding extract_error_code
has_code code f = elim (extract_error_code f) [ none ↦ false | some c ↦ str_eq c code ]

-- `extractErrorMessage(error) ?? t('playbacksync', text)`
abbrev pub message_or : String → Failure → Toast
unfolding extract_error_message
message_or text f = elim (extract_error_message f) [
  | none ↦ translated text
  | some m ↦ from_server m
]

abbrev locked : Toast
locked = translated "The playlist is locked while single mode is enabled."

unfoldable pub create_error : Failure → Toast
unfolding message_or
create_error f = message_or "Could not create room." f

unfoldable pub kick_error : Failure → Toast
unfolding message_or
kick_error f = message_or "Could not disconnect client." f

unfoldable pub playback_error : Failure → Toast
unfolding message_or extract_status
playback_error f =
    if elim (extract_status f) [ none ↦ false | some status ↦ status == 409 ]
    then translated "No clients are connected to this room yet."
    else message_or "Could not send playback command." f

unfoldable pub settings_error : Failure → Toast
unfolding message_or has_code
settings_error f =
    if has_code "toggle_conflict" f
    then translated "Single mode and freeform mode are mutually exclusive."
    else message_or "Could not update room settings." f

unfoldable pub add_error : Failure → Toast
unfolding message_or has_code
add_error f =
    if has_code "single_mode_locked" f
    then locked
    else if has_code "freeform_cap_full" f
    then translated
        "The freeform playlist is full of curated entries. Clear some before adding more."
    else if has_code "playlist_cap_exceeded" f
        || has_code "per_message_cap" f
        || has_code "per_room_cap" f
    then translated "Playlist size limit reached."
    else message_or "Could not add playlist entry." f

unfoldable pub update_error : Failure → Toast
unfolding message_or has_code
update_error f =
    if has_code "single_mode_locked" f
    then locked
    else if has_code "invalid_entry_patch" f
    then translated "That change is not allowed."
    else message_or "Could not update playlist entry." f

unfoldable pub clear_error : Failure → Toast
unfolding message_or has_code
clear_error f =
    if has_code "single_mode_locked" f then locked else message_or "Could not clear playlist." f

unfoldable pub remove_entry_error : Failure → Toast
unfolding message_or has_code
remove_entry_error f =
    if has_code "single_mode_locked" f
    then locked
    else if has_code "cursor_locked_entry" f
    then translated "This entry is currently playing. Advance the cursor first."
    else message_or "Could not remove playlist entry." f

unfoldable pub cursor_error : Failure → Toast
unfolding message_or has_code
cursor_error f =
    if has_code "single_mode_locked" f
    then locked
    else if has_code "not_in_playlist" f
    then translated "That entry is not in the playlist."
    else message_or "Could not change the cursor." f
