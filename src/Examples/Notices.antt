-- ===== src/Examples/Notices.antt =====
-- Notices on a page: before the mount, in a burst of seeks, and while a toast fades out.
use playback_sync.Base.{ℕ, ◌≡◌, refl, Option, none, some, List, [], ◌∷◌, String, map}
use playback_sync.Protocol.Frames.{NoticeEvent, client}
use playback_sync.Messages.{Notice, welcome, peer}
use playback_sync.Toasts.{new_toasts}
use playback_sync.Toasts.Runs.{
  Event, registered, noticed, mount_ready, toast_timer, toast_gone, step, run,
}
use playback_sync.Toasts.Tidy.{IsTidy}
use playback_sync.Toasts.Steps.{run-IsTidy}
use playback_sync.Toasts.Queue.{show_all, waiting, ready, step-show_all}

-- Positions in whole seconds, and no digits.
abbrev whole : ℕ → Option ℕ
whole n = some n

abbrev digits : ℕ → String
digits n = "0"

abbrev untrimmed : String → String
untrimmed s = s

abbrev sought : ℕ → Notice ℕ
sought n =
    peer NoticeEvent.seek client (some "SwiftFox42")
      (some (record { value = some n; video_ref = none; nickname = none; reason = none }))

abbrev arrivals : List (Event ℕ)
arrivals =
    registered
    ∷ noticed (welcome "BoldOtter7")
    ∷ noticed (sought 10)
    ∷ mount_ready
    ∷ noticed (sought 20)
    ∷ noticed (peer NoticeEvent.pause client (some "SwiftFox42") none)
    ∷ []

-- The two seeks are one toast.
two_toasts : map (λ t. t.id) (run whole digits untrimmed new_toasts arrivals).stack ≡ 1 ∷ 2 ∷ []
unfolding run step new_toasts
two_toasts = refl

-- A seek that comes while its actor's toast fades out goes with that toast.
abbrev fading : List (Event ℕ)
fading =
    registered
    ∷ noticed (sought 10)
    ∷ mount_ready
    ∷ toast_timer 0
    ∷ noticed (sought 20)
    ∷ toast_gone 0
    ∷ []

lost_seek : (run whole digits untrimmed new_toasts fading).stack ≡ []
unfolding run step new_toasts
lost_seek = refl

run-IsTidy_example : IsTidy (run whole digits untrimmed new_toasts arrivals)
run-IsTidy_example = run-IsTidy whole digits untrimmed arrivals

step-show_all_example :
    step whole digits untrimmed
      (show_all whole digits untrimmed (welcome "BoldOtter7" ∷ sought 10 ∷ []) (waiting new_toasts))
      mount_ready
    ≡ show_all whole digits untrimmed (welcome "BoldOtter7" ∷ sought 10 ∷ []) (ready new_toasts)
step-show_all_example =
    step-show_all whole digits untrimmed (welcome "BoldOtter7") (sought 10 ∷ []) new_toasts
