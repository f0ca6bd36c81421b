-- ===== src/Toasts/Steps.antt =====
-- The stack of toasts in any run of extension/src/ui/notifications.ts.
use playback_sync.Base.{
  ℕ, true, false, not, Option, List, [], ◌∷◌, ◌++◌, String, arith, if-split, Option-split,
}
use playback_sync.Messages.{Notice, welcome, peer}
use playback_sync.Toasts.{
  Toasts, new_toasts, init_notifications, show_text, dismiss_badge, badge_removed,
}
use playback_sync.Toasts.Format.{format_notice}
use playback_sync.Toasts.Runs.{
  Event, registered, noticed, mount_ready, invalid, toast_timer, toast_gone, badge_timer,
  badge_gone, seek_key, render, render_all, show_notice, mount_resumed, step, run,
}
use playback_sync.Toasts.Tidy.{
  IsTidy, show_text-IsTidy, show_badge-IsTidy, dismiss_toast-IsTidy, element_gone-IsTidy,
  invalidated-IsTidy,
}

module _ {N : Type 0} where
  module _ (floor : N → Option ℕ) (show : ℕ → String) (trim : String → String) where
    render-IsTidy : (n : Notice N) (s : Toasts N) → IsTidy s → IsTidy (render floor show trim n s)
    unfolding render
    render-IsTidy (welcome nickname) s h = show_badge-IsTidy (trim nickname) s h
    render-IsTidy (peer event actor actor_id d) s h =
        Option-split IsTidy (format_notice floor show (peer event actor actor_id d)) s
          (λ text. show_text (seek_key (peer event actor actor_id d)) text s) h
          (λ text e. show_text-IsTidy (seek_key (peer event actor actor_id d)) text s h)

    render_all-IsTidy :
        (ns : List (Notice N)) (s : Toasts N) → IsTidy s → IsTidy (render_all floor show trim ns s)
    unfolding render_all
    render_all-IsTidy [] s h = h
    render_all-IsTidy (n ∷ ns) s h =
        render_all-IsTidy ns (render floor show trim n s) (render-IsTidy n s h)

    show_notice-IsTidy :
        (n : Notice N) (s : Toasts N) → IsTidy s → IsTidy (show_notice floor show trim n s)
    unfolding show_notice
    show_notice-IsTidy n s h =
        let kept : IsTidy (record s { pending = s.pending ++ n ∷ [] }) = record {
          bounded = h.bounded;
          alive = h.alive;
          keyed = h.keyed;
          ordered = h.ordered;
          below = h.below;
        } in
        if-split IsTidy (not s.registered) s _ (λ q. h)
          (λ q.
            if-split IsTidy s.mounted _ _ (λ r. render-IsTidy n s h)
              (λ r.
                if-split IsTidy s.mounting _ _ (λ m. kept)
                  (λ m. record {
                    bounded = h.bounded;
                    alive = h.alive;
                    keyed = h.keyed;
                    ordered = h.ordered;
                    below = h.below;
                  })))

    mount_resumed-IsTidy : (s : Toasts N) → IsTidy s → IsTidy (mount_resumed floor show trim s)
    unfolding mount_resumed
    mount_resumed-IsTidy s h =
        if-split IsTidy (not s.registered) _ _
          (λ q. record {
            bounded = h.bounded;
            alive = h.alive;
            keyed = h.keyed;
            ordered = h.ordered;
            below = h.below;
          })
          (λ q.
            render_all-IsTidy s.pending
              (record s { awaiting = false; mounted = true; pending = [] })
              (record {
                bounded = h.bounded;
                alive = h.alive;
                keyed = h.keyed;
                ordered = h.ordered;
                below = h.below;
              }))

    step-IsTidy : (s : Toasts N) (e : Event N) → IsTidy s → IsTidy (step floor show trim s e)
    unfolding step init_notifications dismiss_badge badge_removed
    step-IsTidy s registered h = record {
      bounded = h.bounded;
      alive = h.alive;
      keyed = h.keyed;
      ordered = h.ordered;
      below = h.below;
    }
    step-IsTidy s (noticed n) h = show_notice-IsTidy n s h
    step-IsTidy s mount_ready h =
        if-split IsTidy s.awaiting _ s (λ q. mount_resumed-IsTidy s h) (λ q. h)
    step-IsTidy s invalid h = invalidated-IsTidy s
    step-IsTidy s (toast_timer id) h =
        if-split IsTidy (s.ticking id) _ s (λ q. dismiss_toast-IsTidy id s h) (λ q. h)
    step-IsTidy s (toast_gone id) h =
        if-split IsTidy (s.leaving id) _ s (λ q. element_gone-IsTidy id s h) (λ q. h)
    step-IsTidy s (badge_timer id) h =
        if-split IsTidy (s.badge_ticking id) _ s
          (λ q. record {
            bounded = h.bounded;
            alive = h.alive;
            keyed = h.keyed;
            ordered = h.ordered;
            below = h.below;
          })
          (λ q. h)
    step-IsTidy s (badge_gone id) h =
        if-split IsTidy (s.badge_leaving id) _ s
          (λ q. record {
            bounded = h.bounded;
            alive = h.alive;
            keyed = h.keyed;
            ordered = h.ordered;
            below = h.below;
          })
          (λ q. h)

    all-IsTidy : (s : Toasts N) (es : List (Event N)) → IsTidy s → IsTidy (run floor show trim s es)
    unfolding run
    all-IsTidy s [] h = h
    all-IsTidy s (e ∷ es) h = all-IsTidy (step floor show trim s e) es (step-IsTidy s e h)

    -- In any run at most four toasts are in the page, in the order in which they came; each has its
    -- dismissal under way, and each actor in the coalescing map has a toast that is in the page.
    pub run-IsTidy : (es : List (Event N)) → IsTidy (run floor show trim new_toasts es)
    unfolding new_toasts
    run-IsTidy es =
        all-IsTidy new_toasts es
          (record { bounded = omega arith; alive = tt; keyed = tt; ordered = tt; below = tt })
