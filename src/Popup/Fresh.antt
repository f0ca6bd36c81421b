-- ===== src/Popup/Fresh.antt =====
-- What an open popup was last shown, over the events of extension/src/background/popupBroadcast.ts.
use playback_sync.Base.{
  Bool, not, ◌||◌, Option, arith, ℕ, true, false, ◌≡◌, refl, ◌∙◌, sym, ap, subst, none, some, List,
  [], ◌∷◌, if-split, Option-split, if-false, if-true, Bool-cases, inl, inr, if◌then◌else◌, ◌==◌,
  ◌&&◌, lookup, remove, lookup-insert, lookup-remove,
}
use mathlib.Core.Path.{ap₂}
use playback_sync.Session.{SessionState}
use playback_sync.Popup.{
  Popups, new_popups, socket_disconnected, TabMirror, is_bound, snapshot_of, get_derived_status,
  build_snapshot, broadcast_for_tab, send_to, set_mirror, set_popup_creds,
  notify_popup_creds_cleared, notify_connecting, notify_open, notify_disconnected,
  notify_room_state_changed, notify_cursor_changed, subscribe, port_closed,
}
use playback_sync.Popup.Runs.{
  Event, changed, creds_set, creds_cleared, opening, opened, closed, room_state, cursor_change,
  subscribed, port_gone, set_session, step, run,
}
use playback_sync.Popup.Ports.{
  last_shown, has_port, some_inj, flip, equal, added, has_port-added, has_port-kept, has_port-keep,
  last_shown-post_all,
}

-- A session that has changed is unseen until the next notice of its tab; that its socket has closed is
-- passed on only if there is a mirror.
abbrev pub unseen_after : {N : Type 0} → ℕ → Bool → Event N → Bool
unseen_after tab b (changed j s) = b || j == tab
unseen_after tab b (creds_set j url) = b && not (j == tab)
unseen_after tab b (creds_cleared j) = b && not (j == tab)
unseen_after tab b (opening j url) = b && not (j == tab)
unseen_after tab b (opened j) = b && not (j == tab)
unseen_after tab b (room_state j) = b && not (j == tab)
unseen_after tab b (cursor_change j) = b && not (j == tab)
unseen_after tab b _ = b

abbrev pub unseen : {N : Type 0} → ℕ → Bool → List (Event N) → Bool
unseen tab b [] = b
unseen tab b (e ∷ es) = unseen tab (unseen_after tab b e) es

not_either : (b c : Bool) → (b || c) ≡ false → c ≡ false
not_either b c q = ground arith

still_seen : (b : Bool) (j tab : ℕ) → (tab == j) ≡ false → (b && not (j == tab)) ≡ false → b ≡ false
still_seen b j tab t q = ground arith

module _ {N : Type 0} (tab : ℕ) where
  -- A port that is bound to the tab is in the list, and unless a change is unseen it was last sent the
  -- snapshot as it is.
  abbrev pub IsFresh : Bool → Popups N → Type 0
  IsFresh b p =
      (port : ℕ)
      → p.port_tabs port ≡ some tab
      → (has_port port p.ports ≡ true)
        × (b ≡ false → last_shown port p.out ≡ some (build_snapshot tab p))

  -- What is fresh whatever is unseen.
  weaken : (b c : Bool) (p : Popups N) → IsFresh (b && c) p → IsFresh b p
  weaken b c p f port e = let old = f port e in (old.0, λ q. old.1 (rw q refl))

  -- The snapshot of the tab, if it is another.
  abbrev Apart : ℕ → Popups N → Popups N → Type 0
  Apart j p u = (tab == j) ≡ false → build_snapshot tab u ≡ build_snapshot tab p

  broadcast-IsFresh :
      (b : Bool) (j : ℕ) (p u : Popups N)
      → IsFresh b p
      → u.ports ≡ p.ports
      → u.port_tabs ≡ p.port_tabs
      → u.out ≡ p.out
      → Apart j p u
      → IsFresh (b && not (j == tab)) (broadcast_for_tab j u)
  unfolding broadcast_for_tab
  broadcast-IsFresh b j p u f same_ports same_tabs same_out apart port e =
      let old = f port (sym (ap (λ g. g port) same_tabs) ∙ e) in
      let here : has_port port u.ports ≡ true = ap (has_port port) same_ports ∙ old.0 in
      let shown = last_shown-post_all port j (build_snapshot j u) u.port_tabs u.ports u.out in
      let asked : (has_port port u.ports && is_bound j (u.port_tabs port)) ≡ (tab == j) =
        ap (λ z. z && is_bound j (u.port_tabs port)) here ∙ ap (is_bound j) e in
      (
        here,
        λ q.
            shown
            ∙ ap (λ z. if z then some (build_snapshot j u) else last_shown port u.out) asked
            ∙ if-split (λ z. z ≡ some (build_snapshot tab u)) (tab == j) (some (build_snapshot j u))
                (last_shown port u.out)
                (λ t. ap (λ k. some (build_snapshot k u)) (sym (equal tab j t)))
                (λ t.
                  ap (last_shown port) same_out
                  ∙ old.1 (still_seen b j tab t q)
                  ∙ ap some (sym (apart t))),
      )

  build_snapshot-apart :
      (p u : Popups N)
      → lookup tab u.mirrors ≡ lookup tab p.mirrors
      → u.sessions tab ≡ p.sessions tab
      → build_snapshot tab u ≡ build_snapshot tab p
  unfolding build_snapshot
  build_snapshot-apart p u m s = ap₂ (λ x y. snapshot_of tab (get_derived_status x y) x y) m s

  set_mirror-IsFresh :
      (b : Bool) (j : ℕ) (m : TabMirror) (p : Popups N)
      → IsFresh b p
      → IsFresh (b && not (j == tab)) (broadcast_for_tab j (set_mirror j m p))
  set_mirror-IsFresh b j m p f = broadcast-IsFresh b j p (set_mirror j m p) f refl refl refl (λ t.
      build_snapshot-apart p (set_mirror j m p)
        (lookup-insert j tab m p.mirrors ∙ if-false _ _ (flip tab j t)) refl)

  cleared-IsFresh :
      (b : Bool) (j : ℕ) (p : Popups N)
      → IsFresh b p
      → IsFresh (b && not (j == tab)) (notify_popup_creds_cleared j p)
  unfolding notify_popup_creds_cleared
  cleared-IsFresh b j p f =
      let u = record p { mirrors = remove j p.mirrors } in
      broadcast-IsFresh b j p u f refl refl refl (λ t.
        build_snapshot-apart p u (lookup-remove j tab p.mirrors ∙ if-false _ _ (flip tab j t)) refl)

  closed-IsFresh :
      (b : Bool) (j : ℕ) (p : Popups N) → IsFresh b p → IsFresh b (notify_disconnected j p)
  unfolding notify_disconnected
  closed-IsFresh b j p f = Option-split (IsFresh b) (lookup j p.mirrors) p _ f (λ m e.
      let m' = record m { socket_state = socket_disconnected } in
      weaken b (not (j == tab)) (broadcast_for_tab j (set_mirror j m' p))
        (set_mirror-IsFresh b j m' p f))

  -- The session of another tab is no part of the snapshot.
  changed-IsFresh :
      (b : Bool) (j : ℕ) (s : Option (SessionState N)) (p : Popups N)
      → IsFresh b p
      → IsFresh (b || j == tab) (set_session j s p)
  changed-IsFresh b j s p f port e =
      let old = f port e in
      (
        old.0,
        λ q.
            old.1 (ground arith)
            ∙ ap some (
                sym (
                  build_snapshot-apart p (set_session j s p) refl
                    (if-false _ _ (not_either b (j == tab) q)))),
      )

  subscribe-IsFresh :
      (b : Bool) (port j : ℕ) (p : Popups N) → IsFresh b p → IsFresh b (subscribe port j p)
  unfolding subscribe send_to build_snapshot
  subscribe-IsFresh b port j p f q e = elim (Bool-cases (port == q)) [
    | inl t ↦ (
      subst (λ z. has_port z (added port p.ports) ≡ true) (equal port q t)
          (has_port-added port p.ports),
      λ _.
          if-true (some (build_snapshot j p)) (last_shown q p.out) t
          ∙ ap (λ k. some (build_snapshot k p))
              (some_inj j tab (sym (if-true (some j) (p.port_tabs q) t) ∙ e)),
    )
    | inr t ↦
        let old = f q (sym (if-false (some j) (p.port_tabs q) t) ∙ e) in
        (
          has_port-kept q port p.ports old.0,
          λ z. if-false (some (build_snapshot j p)) (last_shown q p.out) t ∙ old.1 z,
        )
  ]

  port_closed-IsFresh :
      (b : Bool) (port : ℕ) (p : Popups N) → IsFresh b p → IsFresh b (port_closed port p)
  unfolding port_closed build_snapshot
  port_closed-IsFresh b port p f q e = elim (Bool-cases (port == q)) [
    | inl t ↦ cc (sym (if-true none (p.port_tabs q) t) ∙ e)
    | inr t ↦
        let old = f q (sym (if-false none (p.port_tabs q) t) ∙ e) in
        (has_port-keep q port p.ports t ∙ old.0, old.1)
  ]

  step-IsFresh :
      (b : Bool) (p : Popups N) (e : Event N)
      → IsFresh b p
      → IsFresh (unseen_after tab b e) (step p e)
  unfolding step set_popup_creds notify_connecting notify_open notify_room_state_changed
      notify_cursor_changed
  step-IsFresh b p (changed j s) f = changed-IsFresh b j s p f
  step-IsFresh b p (creds_set j url) f = set_mirror-IsFresh b j _ p f
  step-IsFresh b p (creds_cleared j) f = cleared-IsFresh b j p f
  step-IsFresh b p (opening j url) f = set_mirror-IsFresh b j _ p f
  step-IsFresh b p (opened j) f = set_mirror-IsFresh b j _ p f
  step-IsFresh b p (closed j) f = closed-IsFresh b j p f
  step-IsFresh b p (room_state j) f = broadcast-IsFresh b j p p f refl refl refl (λ t. refl)
  step-IsFresh b p (cursor_change j) f = broadcast-IsFresh b j p p f refl refl refl (λ t. refl)
  step-IsFresh b p (subscribed port j) f = subscribe-IsFresh b port j p f
  step-IsFresh b p (port_gone port) f = port_closed-IsFresh b port p f

  run-IsFresh_from :
      (b : Bool) (p : Popups N) (es : List (Event N))
      → IsFresh b p
      → IsFresh (unseen tab b es) (run p es)
  unfolding run
  run-IsFresh_from b p [] f = f
  run-IsFresh_from b p (e ∷ es) f =
      run-IsFresh_from (unseen_after tab b e) (step p e) es (step-IsFresh b p e f)

-- After any events, a port that is subscribed to a tab was last sent the snapshot of that tab as it is
-- now, unless the session of the tab has changed and no notice of the tab has come since. That a socket
-- has closed does not count as a notice here.
pub run_shown :
    {N : Type 0} (es : List (Event N)) (port tab : ℕ)
    → (run new_popups es).port_tabs port ≡ some tab
    → unseen tab false es ≡ false
    → last_shown port (run new_popups es).out ≡ some (build_snapshot tab (run new_popups es))
unfolding new_popups
run_shown es port tab e q = (run-IsFresh_from tab false new_popups es (λ port h. cc) port e).1 q
