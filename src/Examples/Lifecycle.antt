-- ===== src/Examples/Lifecycle.antt =====
-- A page adapter that is destroyed before its page is ready.
use playback_sync.Base.{◌≡◌, refl, some, [], ◌∷◌}
use playback_sync.Number.Fixed.{Fixed}
use playback_sync.Messages.{ContentIdentity}
use playback_sync.Adapter.{
  Adapter, new_adapter, init, init_resumed, on_cleanup, destroy, cleaned, Reach, start, later,
  started, settled, registered, destroyed,
}
use playback_sync.Adapter.Reports.{IsOrderly, Settles, Reach-IsOrderly}

abbrev second_episode : ContentIdentity
second_episode = record {
  provider_id = "miruro";
  video_id = "20-ep2";
  normalized_url = "/watch/20?ep=2";
}

abbrev destroyed_early : Adapter Fixed
destroyed_early = init_resumed (some second_episode) (destroy (on_cleanup (init new_adapter)))

-- It reports nothing, and its callback is called.
destroyed_out : destroyed_early.out ≡ cleaned 0 ∷ []
unfolding init_resumed destroy on_cleanup init new_adapter
destroyed_out = refl

destroyed_reached : Reach destroyed_early
unfolding new_adapter destroy on_cleanup init
destroyed_reached =
    later (later (later (later start (started refl)) registered) destroyed)
      (settled (some second_episode) refl)

Reach-IsOrderly_example : IsOrderly destroyed_early × Settles destroyed_early
Reach-IsOrderly_example = Reach-IsOrderly destroyed_reached
