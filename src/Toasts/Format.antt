-- ===== src/Toasts/Format.antt =====
-- The texts of extension/src/ui/notifications.ts. `floor` is `Math.floor` on the finite numbers that are
-- not negative, and `show` is `String` on natural numbers.
use Prim.Native.Nat.{◌/◌, ◌%◌}
use Prim.Native.String.{◌++◌}
use playback_sync.Base.{ℕ, Option, none, some, String, if◌then◌else◌, ltb, ◌>>=◌}
use playback_sync.Messages.{Notice, welcome, peer}
use playback_sync.Protocol.Frames.{NoticeEvent, NoticeActor, client, owner, system, NoticeData}

abbrev pub or_text : Option String → String → String
or_text none d = d
or_text (some t) d = t

module _ {N : Type 0} (floor : N → Option ℕ) (show : ℕ → String) where
  -- `padStart(2, '0')` on the numbers below 100.
  unfoldable pub pad : ℕ → String
  pad n = if ltb n 10 then "0" ++ show n else show n

  unfoldable pub clock : ℕ → String
  unfolding pad
  clock total =
      let s = total % 60 in
      let m = (total / 60) % 60 in
      let h = total / 3600 in
      if ltb 0 h then show h ++ (":" ++ (pad m ++ (":" ++ pad s))) else show m ++ (":" ++ pad s)

  unfoldable pub mmss : Option N → String
  unfolding clock
  mmss seconds = elim (seconds >>= floor) [ none ↦ "?" | some total ↦ clock total ]

  unfoldable pub display_name : NoticeActor → Option String → Option (NoticeData N) → String
  display_name system actor_id d = or_text (d >>= λ x. x.nickname) "Someone"
  display_name owner actor_id d = "Host"
  display_name client actor_id d = or_text actor_id "Someone"

  unfoldable pub event_text : NoticeEvent → String → Option (NoticeData N) → String
  unfolding mmss
  event_text NoticeEvent.play name d = name ++ " played"
  event_text NoticeEvent.pause name d = name ++ " paused"
  event_text NoticeEvent.seek name d = name ++ (" skipped to " ++ mmss (d >>= λ x. x.value))
  event_text NoticeEvent.cursor_change name d =
      name
      ++ (" changed the video to " ++ or_text (d >>= λ x. x.video_ref >>= λ r. r) "a new video")
  event_text NoticeEvent.client_joined name d = name ++ " joined"
  event_text NoticeEvent.client_left name d = name ++ " left"

  unfoldable pub format_notice : Notice N → Option String
  unfolding display_name event_text
  format_notice (welcome nickname) = none
  format_notice (peer event actor actor_id d) =
      some (event_text event (display_name actor actor_id d) d)
