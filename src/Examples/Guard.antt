-- ===== src/Examples/Guard.antt =====
-- Concrete navigations of a guarded tab, and its messages.
use text.Mathlib.Text.{◌==◌ as str_eq}
use playback_sync.Base.{
  ℕ, true, false, ◌≡◌, refl, Option, none, some, List, [], ◌∷◌, String, if◌then◌else◌,
}
use playback_sync.Number.Fixed.{Fixed, fixed_number}
use playback_sync.Protocol.Frames.{CursorRef, PlayerState, playing, buffering, EventKind}
use playback_sync.Messages.{LocalIntent}
use playback_sync.Session.{effective_cursor_video_id, cursor_video_id, create_session, freeform}
use playback_sync.Urls.{
  Url, is_host, exec_path, make_video_id, watch_path, make_watch_url, navigable_url_for_cursor,
  video_id_for_url,
}
use playback_sync.Urls.Paths.{strip, span}
use playback_sync.Urls.Return.{video_id-navigable_url}
use playback_sync.Background.{Tab, Context, new_tab}
use playback_sync.Background.Navigation.{
  in_playlist, on_effective_cursor, pull_back_target, route_resumed, recheck_resumed,
}
use playback_sync.Background.Routes.{is_buffering}
use playback_sync.Background.Matrix.{Outcome, verdict, route_resumed-verdict}
use playback_sync.Background.Partition.{IsRouted, route_resumed-IsRouted}
use playback_sync.Background.Buffers.{
  Report, open_after, buffers, route_statuses, open_after-route_statuses,
}
use playback_sync.Background.Settled.{IsWatched, pull_back_target-settled}
use playback_sync.Examples.{milli}

abbrev site : String
site = "https://www.miruro.to"

abbrev page_of : String → String → Option String → Url
page_of text path ep = record {
  origin = site;
  hostname = "www.miruro.to";
  pathname = path;
  ep = ep;
}

-- A browser that reads three addresses.
abbrev pub demo_parse : String → Option Url
demo_parse text =
    if str_eq text "https://www.miruro.to/watch/20/frieren"
    then some (page_of text "/watch/20/frieren" none)
    else if str_eq text "https://www.miruro.to/watch/20/frieren?ep=2"
    then some (page_of text "/watch/20/frieren" (some "2"))
    else if str_eq text "https://www.miruro.to/watch/20/frieren?ep=3"
    then some (page_of text "/watch/20/frieren" (some "3"))
    else none

abbrev pub show_page : Url
show_page = page_of site "/watch/20/frieren" none

abbrev second_page : Url
second_page = page_of site "/watch/20/frieren" (some "2")

video_id-navigable_url_example :
    (target : String) × (navigable_url_for_cursor demo_parse "miruro"
        (make_video_id "20" "2")
        "https://www.miruro.to/watch/20/frieren"
      ≡ some target)
    × (video_id_for_url demo_parse "miruro" target ≡ some (make_video_id "20" "2"))
unfolding is_host exec_path make_watch_url watch_path strip span
video_id-navigable_url_example =
    video_id-navigable_url demo_parse "https://www.miruro.to/watch/20/frieren" "20" "2"
      (some "frieren") show_page second_page refl refl refl refl refl refl refl refl

abbrev pub second_cursor : CursorRef
second_cursor = record {
  entry_id = "e2";
  provider_id = "miruro";
  video_id = "20-ep2";
  page_url = "https://www.miruro.to/watch/20/frieren";
  label = none;
}

abbrev second_context : Context
second_context = record { adapter_id = "miruro"; session = 0; cursor = second_cursor }

second_context-IsWatched : IsWatched demo_parse second_context
unfolding is_host exec_path make_watch_url watch_path make_video_id strip span
second_context-IsWatched = record {
  show = "20";
  slug = some "frieren";
  ep = "2";
  page = show_page;
  landed = second_page;
  of_adapter = refl;
  of_show = refl;
  parsed = refl;
  hosted = refl;
  matched = refl;
  episode = refl;
  read_back = refl;
  same_host = refl;
  same_path = refl;
  same_ep = refl;
}

abbrev pub demo_seek : LocalIntent Fixed
demo_seek = record { kind = EventKind.seek; time = milli 99000 }

abbrev settled_tab : Tab Fixed
settled_tab = record (new_tab 7) {
  session = some 0;
  objects = λ j. record create_session {
    cursor = some second_cursor;
    mode = freeform;
    converged = true;
    ever_converged = true;
  };
}

settled_cursor : cursor_video_id (settled_tab.objects 0).cursor ≡ some "20-ep2"
settled_cursor = refl

nothing_pending : (settled_tab.objects 0).pending_cursor_target ≡ none
unfolding create_session
nothing_pending = refl

route_resumed-IsRouted_example :
    IsRouted demo_parse second_context "https://www.miruro.to/watch/20/frieren?ep=3" settled_tab (
      route_resumed demo_parse 9000 second_context
        (some "https://www.miruro.to/watch/20/frieren?ep=3")
        settled_tab)
route_resumed-IsRouted_example =
    route_resumed-IsRouted demo_parse second_context "https://www.miruro.to/watch/20/frieren?ep=3"
      settled_tab 9000

abbrev third_url : String
third_url = "https://www.miruro.to/watch/20/frieren?ep=3"

off_cursor :
    on_effective_cursor (video_id_for_url demo_parse "miruro" third_url) (settled_tab.objects 0)
    ≡ false
unfolding video_id_for_url strip span effective_cursor_video_id create_session
off_cursor = refl

route_resumed-verdict_example :
    Outcome 9000 second_context
      (verdict freeform (video_id_for_url demo_parse "miruro" third_url) (
        in_playlist second_context
          (video_id_for_url demo_parse "miruro" third_url)
          (settled_tab.objects 0)))
      settled_tab
      (route_resumed demo_parse 9000 second_context (some third_url) settled_tab)
route_resumed-verdict_example =
    route_resumed-verdict 9000 second_context settled_tab demo_parse third_url refl off_cursor

pull_back_target-settled_example :
    (route_resumed demo_parse 9000 second_context
        (some (pull_back_target demo_parse second_context))
        settled_tab
      ≡ settled_tab)
    × (recheck_resumed demo_parse second_context
          (some (pull_back_target demo_parse second_context))
          settled_tab
        ≡ settled_tab)
pull_back_target-settled_example =
    pull_back_target-settled demo_parse second_context 9000 settled_tab second_context-IsWatched
      settled_cursor nothing_pending

abbrev report_of : ℕ → PlayerState → Report Fixed
report_of now q = record {
  now = now;
  frame = 4;
  pooled = true;
  adapter_id = "miruro";
  state = record { current_pos = milli now; player_state = q };
}

-- The player stalls, reports the stall twice, and goes on.
abbrev demo_reports : List (Report Fixed)
demo_reports =
    report_of 1 playing ∷ report_of 2 buffering ∷ report_of 3 buffering ∷ report_of 4 playing ∷ []

unreported : (settled_tab.objects 0).last_player_state ≡ none
unfolding create_session
unreported = refl

no_buffers : buffers settled_tab.out ≡ []
unfolding new_tab
no_buffers = refl

open_after-route_statuses_example :
    open_after (buffers (route_statuses settled_tab demo_reports).out)
    ≡ some (is_buffering ((route_statuses settled_tab demo_reports).objects 0).last_player_state)
open_after-route_statuses_example =
    open_after-route_statuses 0 settled_tab demo_reports refl unreported no_buffers
