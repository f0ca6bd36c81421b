-- ===== src/Toasts/Queue.antt =====
-- The notices that arrive before the shadow root of extension/src/ui/notifications.ts is mounted.
use playback_sync.Base.{
  ℕ, true, false, not, ◌≡◌, refl, ap, sym, ◌∙◌, Option, List, [], ◌∷◌, ◌++◌, String, if-split,
  if-true, if-false, Option-split, ltb, length,
}
use mathlib.Core.List.{append_assoc, append-nil}
use playback_sync.Messages.{Notice, welcome, peer}
use playback_sync.Toasts.{
  Toast, Toasts, max_toasts, remove_toast, reset_toast_timer, evict, append_toast, add_toast,
  update_toast, existing, show_text, show_badge,
}
use playback_sync.Toasts.Format.{format_notice}
use playback_sync.Toasts.Runs.{
  mount_ready, seek_key, render, render_all, show_notice, mount_resumed, step,
}

module _ {N : Type 0} where
  -- The page as it was, and the UI with it.
  record IsUp (s : Toasts N) : Type 0 where
    pub registered : s.registered ≡ true
    pub mounted : s.mounted ≡ true

  -- The UI is registered and not mounted.
  abbrev pub waiting : Toasts N → Toasts N
  waiting s = record s {
    registered = true;
    mounting = false;
    awaiting = false;
    mounted = false;
    pending = [];
  }

  -- And mounted.
  abbrev pub ready : Toasts N → Toasts N
  ready s = record s {
    registered = true;
    mounting = true;
    awaiting = false;
    mounted = true;
    pending = [];
  }

  abbrev queued : List (Notice N) → Toasts N → Toasts N
  queued ns s = record s {
    registered = true;
    mounting = true;
    awaiting = true;
    mounted = false;
    pending = ns;
  }

  evict-IsUp : (ts : List Toast) (s : Toasts N) → IsUp s → IsUp (evict ts s)
  unfolding evict remove_toast
  evict-IsUp [] s h = h
  evict-IsUp (t ∷ ts) s h =
      if-split IsUp (ltb max_toasts (length (t ∷ ts))) (evict ts (remove_toast t.id s)) s
        (λ q.
          evict-IsUp ts (remove_toast t.id s)
            (record { registered = h.registered; mounted = h.mounted }))
        (λ q. h)

  show_text-IsUp :
      (key : Option String) (text : String) (s : Toasts N) → IsUp s → IsUp (show_text key text s)
  unfolding show_text add_toast append_toast update_toast reset_toast_timer
  show_text-IsUp key text s h =
      Option-split IsUp (existing key s) (add_toast key text s) (λ id. update_toast id text s)
        (let u = append_toast key text s in
          let v =
            evict-IsUp u.stack u (record { registered = h.registered; mounted = h.mounted }) in
          record { registered = v.registered; mounted = v.mounted })
        (λ id e. record { registered = h.registered; mounted = h.mounted })

  module _ (floor : N → Option ℕ) (show : ℕ → String) (trim : String → String) where
    unfoldable pub show_all : List (Notice N) → Toasts N → Toasts N
    unfolding show_notice
    show_all [] s = s
    show_all (n ∷ ns) s = show_all ns (show_notice floor show trim n s)

    render-IsUp : (n : Notice N) (s : Toasts N) → IsUp s → IsUp (render floor show trim n s)
    unfolding render show_badge
    render-IsUp (welcome nickname) s h = record { registered = h.registered; mounted = h.mounted }
    render-IsUp (peer event actor actor_id d) s h =
        let key = seek_key (peer event actor actor_id d) in
        Option-split IsUp (format_notice floor show (peer event actor actor_id d)) s
          (λ text. show_text key text s) h (λ text e. show_text-IsUp key text s h)

    show_all-IsUp :
        (ns : List (Notice N)) (s : Toasts N)
        → IsUp s
        → show_all ns s ≡ render_all floor show trim ns s
    unfolding show_all show_notice render_all
    show_all-IsUp [] s h = refl
    show_all-IsUp (n ∷ ns) s h =
        ap (show_all ns)
          (if-false s _ (ap not h.registered) ∙ if-true (render floor show trim n s) _ h.mounted)
        ∙ show_all-IsUp ns (render floor show trim n s) (render-IsUp n s h)

    show_all-queued :
        (ns ms : List (Notice N)) (s : Toasts N) → show_all ns (queued ms s) ≡ queued (ms ++ ns) s
    unfolding show_all show_notice
    show_all-queued [] ms s = ap (λ l. queued l s) (sym (append-nil ms))
    show_all-queued (n ∷ ns) ms s =
        show_all-queued ns (ms ++ n ∷ []) s ∙ ap (λ l. queued l s) (append_assoc ms (n ∷ []) ns)

    -- Notices that arrive before the UI is mounted come to the same page, once it is, as if it had been
    -- mounted before them: each is shown once, in order, with the same coalescing and eviction.
    pub step-show_all :
        (n : Notice N) (ns : List (Notice N)) (s : Toasts N)
        → step floor show trim (show_all (n ∷ ns) (waiting s)) mount_ready
          ≡ show_all (n ∷ ns) (ready s)
    unfolding step mount_resumed show_all
    step-show_all n ns s =
        ap (λ t. step floor show trim t mount_ready) (show_all-queued ns (n ∷ []) s)
        ∙ sym (show_all-IsUp (n ∷ ns) (ready s) (record { registered = refl; mounted = refl }))
