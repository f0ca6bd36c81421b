-- ===== src/Background/Buffers.antt =====
-- The BUFFER frames that the status messages of a media frame lead to, in
-- extension/entrypoints/background.ts.
use playback_sync.Base.{
  ℕ, Bool, true, false, ◌≡◌, refl, sym, ap, ◌∙◌, Option, none, some, List, [], ◌∷◌, String, arith,
  ==-refl, if-split, Option-split_eq, if◌then◌else◌, subst,
}
use playback_sync.Protocol.Frames.{
  PlayerState, playing, paused, buffering, BufferKind, buffer_start, buffer_end,
}
use playback_sync.Messages.{VideoState}
use playback_sync.Tabs.{record_status}
use playback_sync.Background.{Tab, Output, ws_buffer, suspend, loading}
use playback_sync.Background.Dispatch.{set_media_frame}
use playback_sync.Background.Routes.{
  is_buffering, is_state, report_buffer, follow_status, route_status,
}

-- Whether a START is open after the frames, newest first, or `none` if a START or END was out of turn.
abbrev opened : Option Bool → Option Bool
opened (some false) = some true
opened _ = none

abbrev shut : Option Bool → Option Bool
shut (some true) = some false
shut _ = none

abbrev pub open_after : List BufferKind → Option Bool
open_after [] = some false
open_after (buffer_start ∷ bs) = opened (open_after bs)
open_after (buffer_end ∷ bs) = shut (open_after bs)

not_same : (p : Option PlayerState) → is_state p buffering ≡ false → is_buffering p ≡ false
not_same none h = refl
not_same (some playing) h = refl
not_same (some paused) h = refl
not_same (some buffering) h = cc

-- A report of the player's state, as the entrypoint takes it: the frame, the clock, whether a
-- runtime is pooled, the adapter and the state.
pub record Report (N : Type 0) : Type 0 where
  pub now : ℕ
  pub frame : ℕ
  pub pooled : Bool
  pub adapter_id : String
  pub state : VideoState N

module _ {N : Type 0} where
  -- The kinds of the BUFFER frames that the tab has asked its client to send.
  abbrev pub buffers : List (Output N) → List BufferKind
  buffers [] = []
  buffers (ws_buffer k pos ∷ os) = k ∷ buffers os
  buffers (_ ∷ os) = buffers os

  pub route_statuses : Tab N → List (Report N) → Tab N
  route_statuses t [] = t
  route_statuses t (r ∷ rs) =
      route_statuses (route_status r.now r.frame r.pooled r.adapter_id r.state t) rs

  abbrev InTurn : ℕ → Tab N → Type 0
  InTurn id t =
      (t.session ≡ some id)
      × (open_after (buffers t.out) ≡ some (is_buffering (t.objects id).last_player_state))

  report_buffer-open :
      (prev : Option PlayerState) (q : PlayerState) (pos : N) (t : Tab N)
      → is_state prev q ≡ false
      → open_after (buffers t.out) ≡ some (is_buffering prev)
      → open_after (buffers (report_buffer prev q pos t).out) ≡ some (is_buffering (some q))
  report_buffer-open prev buffering pos t h e = ap opened (e ∙ ap some (not_same prev h))
  report_buffer-open prev q pos t h e = ground arith

  report_buffer-session :
      (prev : Option PlayerState) (q : PlayerState) (pos : N) (t : Tab N)
      → (report_buffer prev q pos t).session ≡ t.session
  report_buffer-session prev q pos t = ground arith

  follow_status-InTurn :
      (s : VideoState N) (id : ℕ) (t : Tab N) → InTurn id t → InTurn id (follow_status s id t)
  follow_status-InTurn s id t (e, h) =
      let prev = (t.objects id).last_player_state in
      if-split (InTurn id) (is_state prev s.player_state) t _ (λ q. (e, h))
        (λ q. (
          report_buffer-session prev s.player_state s.current_pos t ∙ e,
          rw (==-refl id) (report_buffer-open prev s.player_state s.current_pos t q h),
        ))

  route_status-InTurn :
      (id : ℕ) (r : Report N) (t : Tab N)
      → InTurn id t
      → InTurn id (route_status r.now r.frame r.pooled r.adapter_id r.state t)
  unfolding route_status set_media_frame
  route_status-InTurn id r t (e, h) =
      let t0 = set_media_frame r.frame t in
      let t1 = record t0 { cache = record_status r.now t.id r.adapter_id r.state t.cache } in
      let t2 = if r.pooled then t1 else suspend (loading false) t1 in
      let kept : InTurn id t2 =
        if-split (InTurn id) r.pooled t1 (suspend (loading false) t1) (λ q. (e, h)) (λ q. (e, h)) in
      Option-split_eq (InTurn id) t.session t2 (λ j. follow_status r.state j t2) (λ q. kept)
        (λ j ej.
          let same : j ≡ id = cc in
          subst (λ k. InTurn id (follow_status r.state k t2)) (sym same)
            (follow_status-InTurn r.state id t2 kept))

  -- In a session that has reported no state yet, and with no BUFFER frame so far, the reports of the
  -- player's state lead to a START and an END in turn, whatever they are and however often one is
  -- repeated; a START is open exactly when the last state that was noted is buffering.
  pub open_after-route_statuses :
      (id : ℕ) (t : Tab N) (rs : List (Report N))
      → t.session ≡ some id
      → (t.objects id).last_player_state ≡ none
      → buffers t.out ≡ []
      → open_after (buffers (route_statuses t rs).out)
        ≡ some (is_buffering ((route_statuses t rs).objects id).last_player_state)
  unfolding route_statuses
  open_after-route_statuses id t rs e l b =
      (go t rs (e, ap open_after b ∙ ap (λ p. some (is_buffering p)) (sym l))).1
    where
      go : (u : Tab N) (ss : List (Report N)) → InTurn id u → InTurn id (route_statuses u ss)
      go u [] v = v
      go u (s ∷ ss) v =
          go (route_status s.now s.frame s.pooled s.adapter_id s.state u) ss
            (route_status-InTurn id s u v)
