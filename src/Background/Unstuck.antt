-- ===== src/Background/Unstuck.antt =====
-- No tab is left to drop every intent: the fallback timers of extension/entrypoints/background.ts.
use playback_sync.Base.{
  ℕ, Bool, true, false, ◌≡◌, refl, sym, subst, ap, Option, none, some, String, arith, ◌==◌, ==_iff,
  ==-refl, Option-split, Option-split_eq, if-split, if◌then◌else◌, ◌||◌, ◌&&◌,
}
use playback_sync.Protocol.Frames.{VideoRefWithMeta}
use playback_sync.Messages.{ContentIdentity}
use playback_sync.Session.{SessionState, mark_converged, clear_pending_cursor_target}
use playback_sync.Urls.{Url}
use playback_sync.Background.{Tab, Context}
use text.Mathlib.Text.{◌==◌ as str_eq}
use playback_sync.Session.Ops.{end_guard_reload}
use playback_sync.Background.Guard.{
  forward_cursor_change, reload_due, request_due, maybe_end_guard_reload, matches_cursor,
  give_up_request,
}
use playback_sync.Background.Navigation.{recheck_resumed, is_room_url, object_of}
use playback_sync.Background.Gist.{Flags, flags, flags_at, gist, HasGist, Same}

-- A session that awaits a reload is unconverged and its reload timer runs; another that was converged
-- once and is not has the timer of a forwarded cursor change running.
abbrev pub IsBacked : Flags → Bool → Bool → Type 0
IsBacked f reload request =
    (f.awaiting ≡ true → reload ≡ true)
    × (f.awaiting ≡ true → f.converged ≡ false)
    × (f.ever ≡ true → f.converged ≡ false → f.awaiting ≡ false → request ≡ true)

abbrev pub Backed : Option Flags → Bool → Bool → Type 0
Backed none reload request = Unit
Backed (some f) reload request = IsBacked f reload request

Backed-reload : (f : Option Flags) (r q : Bool) → Backed f r q → Backed f true q
Backed-reload none r q v = tt
Backed-reload (some f) r q v = ground arith

Backed-request : (f : Option Flags) (r q : Bool) → Backed f r q → Backed f r true
Backed-request none r q v = tt
Backed-request (some f) r q v = ground arith

module _ {N : Type 0} where
  pub record IsLive (t : Tab N) : Type 0 where
    pub backed : Backed (gist t).session (gist t).reload (gist t).request

  pub Same-IsLive : {t u : Tab N} → Same t u → IsLive t → IsLive u
  Same-IsLive e v = record {
    backed = subst (λ g. Backed g.session g.reload g.request) (sym e.same) v.backed;
  }

  pub HasGist-IsLive : {t u : Tab N} → HasGist t u → IsLive t → IsLive u
  HasGist-IsLive e v = record {
    backed = subst (λ g. Backed g.session g.reload g.request) (sym e.gists) v.backed;
  }

  -- A write to an object, which may be the tab's session or one that the tab has left.
  pub Backed-assign :
      (session : Option ℕ) (objects : ℕ → SessionState N) (id : ℕ) (s : SessionState N) (r q : Bool)
      → (session ≡ some id → IsBacked (flags s) r q)
      → Backed (flags_at session objects) r q
      → Backed (flags_at session (λ j. if id == j then s else objects j)) r q
  Backed-assign none objects id s r q h v = tt
  Backed-assign (some j) objects id s r q h v =
      if-split (λ u. IsBacked (flags u) r q) (id == j) s (objects j)
        (λ e. h (ap some (sym ((==_iff id j).0 e)))) (λ e. v)

  pub Backed-current :
      (session : Option ℕ) (objects : ℕ → SessionState N) (id : ℕ) (s : SessionState N) (r q : Bool)
      → session ≡ some id
      → IsBacked (flags s) r q
      → Backed (flags_at session (λ j. if id == j then s else objects j)) r q
  Backed-current session objects id s r q e v =
      subst (λ o. Backed (flags_at o (λ j. if id == j then s else objects j)) r q) (sym e)
        (rw (==-refl id) v)

  -- The session of the tab, in the invariant.
  pub current :
      (t : Tab N) (id : ℕ)
      → IsLive t
      → t.session ≡ some id
      → IsBacked (flags (t.objects id)) t.reload_timer t.request_timer
  current t id v e =
      subst (λ o. Backed (flags_at o t.objects) t.reload_timer t.request_timer) e v.backed

  pub forward-IsLive :
      (id : ℕ) (target : VideoRefWithMeta N) (t : Tab N)
      → IsLive t
      → IsLive (forward_cursor_change id target t)
  unfolding forward_cursor_change
  forward-IsLive id target t v = record {
    backed =
        Backed-assign t.session t.objects id _ t.reload_timer true
          (λ e. let c = current t id v e in (c.0, λ a. refl, λ a b d. refl))
          (Backed-request _ _ _ v.backed);
  }

  pub recheck_resumed-IsLive :
      (parse : String → Option Url) (ctx : Context) (live : Option String) (t : Tab N)
      → IsLive t
      → IsLive (recheck_resumed parse ctx live t)
  unfolding recheck_resumed
  recheck_resumed-IsLive parse ctx none t v = v
  recheck_resumed-IsLive parse ctx (some live) t v =
      if-split IsLive (str_eq live "" || is_room_url parse (object_of ctx t) live ctx.adapter_id) _
        _ (λ e. v)
        (λ e. record {
          backed =
              Backed-assign t.session t.objects ctx.session _ true t.request_timer
                (λ e. (λ a. refl, λ a. refl, λ a b d. cc)) (Backed-reload _ _ _ v.backed);
        })

  gone :
      (session : Option ℕ) (objects : ℕ → SessionState N) (r q : Bool)
      → session ≡ none
      → Backed (flags_at session objects) r q
  gone session objects r q e = subst (λ o. Backed (flags_at o objects) r q) (sym e) tt

  pub reload_ended :
      (now : ℕ) (s : SessionState N) (r q : Bool)
      → IsBacked (flags s) r q
      → IsBacked (flags (if s.awaiting_reload then end_guard_reload now s else s)) false q
  unfolding end_guard_reload
  reload_ended now s r q v = ground arith

  pub request_ended :
      (now : ℕ) (s : SessionState N) (r q : Bool)
      → IsBacked (flags s) r q
      → IsBacked (flags (give_up_request now s)) r false
  unfolding mark_converged clear_pending_cursor_target
  request_ended now s r q v = ground arith

  ended :
      (now : ℕ) (s : SessionState N) (q : Bool) → IsBacked (flags (end_guard_reload now s)) false q
  unfolding end_guard_reload
  ended now s q = ground arith

  pub reload_due-IsLive : (now : ℕ) (t : Tab N) → IsLive t → IsLive (reload_due now t)
  unfolding reload_due
  reload_due-IsLive now t v =
      Option-split_eq IsLive t.session _ _
        (λ e. record { backed = gone t.session t.objects false t.request_timer e })
        (λ id e. record {
          backed =
              Backed-current t.session t.objects id _ false t.request_timer e
                (reload_ended now (t.objects id) _ _ (current t id v e));
        })

  pub request_due-IsLive : (now : ℕ) (t : Tab N) → IsLive t → IsLive (request_due now t)
  unfolding request_due
  request_due-IsLive now t v =
      Option-split_eq IsLive t.session _ _
        (λ e. record { backed = gone t.session t.objects t.reload_timer false e })
        (λ id e. record {
          backed =
              Backed-current t.session t.objects id _ t.reload_timer false e
                (request_ended now (t.objects id) _ _ (current t id v e));
        })

  pub end_reload-IsLive :
      (now : ℕ) (i : ContentIdentity) (t : Tab N)
      → IsLive t
      → IsLive (maybe_end_guard_reload now i t)
  unfolding maybe_end_guard_reload
  end_reload-IsLive now i t v = Option-split IsLive t.session t _ v (λ id e.
      if-split IsLive ((t.objects id).awaiting_reload && matches_cursor (t.objects id) i) _ _
        (λ q. record {
          backed =
              Backed-current t.session t.objects id _ false t.request_timer e
                (ended now (t.objects id) t.request_timer);
        })
        (λ q. v))
