-- ===== src/Ws/Effects.antt =====
-- What each handler of extension/src/background/ws.ts does to its runtime and to the pool, with the
-- frames and other outputs left out.
use playback_sync.Base.{
  ℕ, ◌≡◌, refl, Bool, true, false, ◌&&◌, not, Option, none, some, List, [], ◌∷◌, String,
  if◌then◌else◌, ◌⊎◌, inl, inr, arith, ap, ◌∙◌, if-true, if-false,
}
use playback_sync.Number.{Number}
use playback_sync.Protocol.Frames.{
  InboundFrame, room_state, state, cursor_change, playlist_update, sync_adjust, clock_pong, error,
  notice, OutboundFrame,
}
use playback_sync.Messages.{AuthoritativeCommand}
use playback_sync.Session.{SessionState}
use playback_sync.Tabs.{TabEntry}
use playback_sync.Ws.{Runtime, Creds, Ws, ReadyState, send_frame}
use playback_sync.Ws.Lifecycle.{
  send_join, flush_join, maybe_flush_join, on_open, announce_open, defer_join,
}
use playback_sync.Ws.Frames.{
  greet, save_assigned_id, dispatch_all, dispatch_to_owner, handle_frame, fire_heartbeat,
  fire_clock_ping, clock_ping_due,
}

module _ {N : Type 0} where
  pub send_frame_self : (f : OutboundFrame N) (w : Ws N) → (send_frame f w).self ≡ w.self
  unfolding send_frame
  send_frame_self f w = ground arith

  pub send_frame_pool : (f : OutboundFrame N) (w : Ws N) → (send_frame f w).pool ≡ w.pool
  unfolding send_frame
  send_frame_pool f w = ground arith

  pub dispatch_all_self :
      (cs : List (AuthoritativeCommand N)) (w : Ws N) → (dispatch_all cs w).self ≡ w.self
  unfolding dispatch_all
  dispatch_all_self [] w = refl
  dispatch_all_self (c ∷ cs) w = dispatch_all_self cs _

  pub dispatch_all_pool :
      (cs : List (AuthoritativeCommand N)) (w : Ws N) → (dispatch_all cs w).pool ≡ w.pool
  unfolding dispatch_all
  dispatch_all_pool [] w = refl
  dispatch_all_pool (c ∷ cs) w = dispatch_all_pool cs _

module _ {N : Type 0} ⦃n : Number N⦄ where
  pub send_join_self : (b : Bool) (w : Ws N) → (send_join b w).self ≡ w.self
  unfolding send_join
  send_join_self b w = send_frame_self _ w

  abbrev pub joined : Runtime N → Runtime N
  joined r = record r { pending_join_deadline = false; first_join_sent = true }

  pub flush_join_self :
      (w : Ws N)
      → (flush_join w).self ≡ (
          if not w.self.pending_join_deadline && w.self.first_join_sent
          then w.self
          else joined w.self)
  unfolding flush_join
  flush_join_self w = ground (
    arith,
    send_join_self true (record w { self = record w.self { pending_join_deadline = false } }),
  )

  pub maybe_flush_join_self :
      (w : Ws N)
      → w.self.first_join_sent ≡ false
      → ((maybe_flush_join w).self ≡ w.self)
        ⊎ ((w.self.pending_join_deadline ≡ true) × ((maybe_flush_join w).self ≡ joined w.self))
  unfolding maybe_flush_join
  maybe_flush_join_self w h = ground (arith, flush_join_self w)

  pub maybe_flush_join_done : (w : Ws N) → w.self.first_join_sent ≡ true → maybe_flush_join w ≡ w
  unfolding maybe_flush_join
  maybe_flush_join_done w h = ground arith

  -- The runtime when the socket has opened and before any deferred JOIN is flushed.
  abbrev pub opened_runtime : Runtime N → Runtime N
  opened_runtime r = record r { reconnect_attempt = 0; heartbeat_timer = true; clock_timer = true }

  pub on_open_rejoin :
      (w : Ws N) → w.self.first_join_sent ≡ true → (on_open w).self ≡ opened_runtime w.self
  unfolding on_open
  on_open_rejoin w h =
      ap (λ v. v.self) (if-true _ (maybe_flush_join (defer_join (announce_open w))) h)
      ∙ send_join_self false (announce_open w)

  pub on_open_first :
      (w : Ws N)
      → w.self.first_join_sent ≡ false
      → let r = record (opened_runtime w.self) { pending_join_deadline = true } in
        ((on_open w).self ≡ r) ⊎ ((on_open w).self ≡ joined r)
  unfolding on_open
  on_open_first w h = elim (maybe_flush_join_self (defer_join (announce_open w)) h) [
    | inl e ↦ inl (ap (λ v. v.self) (if-false (send_join false (announce_open w)) _ h) ∙ e)
    | inr (_, e) ↦ inr (ap (λ v. v.self) (if-false (send_join false (announce_open w)) _ h) ∙ e)
  ]

-- The part of a runtime that a frame from the server never touches: its place, its socket, its
-- timers, its credentials and the state of its JOIN.
pub record Link : Type 0 where
  pub id : ℕ
  pub tab_id : ℕ
  pub socket : Option ReadyState
  pub heartbeat_timer : Bool
  pub clock_timer : Bool
  pub reconnect_attempt : ℕ
  pub creds : Creds
  pub pending_join_deadline : Bool
  pub first_join_sent : Bool

abbrev pub link : {N : Type 0} → Runtime N → Link
link r = record {
  id = r.id;
  tab_id = r.tab_id;
  socket = r.socket;
  heartbeat_timer = r.heartbeat_timer;
  clock_timer = r.clock_timer;
  reconnect_attempt = r.reconnect_attempt;
  creds = r.creds;
  pending_join_deadline = r.pending_join_deadline;
  first_join_sent = r.first_join_sent;
}

module _ {N : Type 0} where
  pub link-dispatch_to_owner :
      (now : ℕ) (sc : SessionState N × List (AuthoritativeCommand N)) (w : Ws N)
      → link (dispatch_to_owner now sc w).self ≡ link w.self
  unfolding dispatch_to_owner
  link-dispatch_to_owner now (s, []) w = refl
  link-dispatch_to_owner now (s, c ∷ cs) w = ap link (dispatch_all_self (c ∷ cs) w)

  pub link-greet : (s : String) (w : Ws N) → link (greet s w).self ≡ link w.self
  unfolding greet
  link-greet s w = ground arith

  pub link-save_assigned_id :
      (s : String) (w : Ws N) → link (save_assigned_id s w).self ≡ link w.self
  unfolding save_assigned_id
  link-save_assigned_id s w = ground arith

module _ {N : Type 0} ⦃n : Number N⦄ (same : N → N → Bool) where
  pub link-handle_frame :
      (now : ℕ) (f : InboundFrame N) (w : Ws N)
      → link (handle_frame same now f w).self ≡ link w.self
  unfolding handle_frame
  link-handle_frame now (room_state f) w =
      link-greet f.nickname _ ∙ link-dispatch_to_owner now _ _ ∙ link-save_assigned_id f.client_id w
  link-handle_frame now (state f) w = link-dispatch_to_owner now _ w
  link-handle_frame now (cursor_change f) w = link-dispatch_to_owner now _ w
  link-handle_frame now (playlist_update f) w = refl
  link-handle_frame now (sync_adjust f) w = link-dispatch_to_owner now _ w
  link-handle_frame now (clock_pong f) w = refl
  link-handle_frame now (error f) w = ground arith
  link-handle_frame now (notice f) w = refl

  pub link-fire_heartbeat :
      (now : ℕ) (entry : Option (TabEntry N)) (w : Ws N)
      → link (fire_heartbeat now entry w).self ≡ link w.self
  unfolding fire_heartbeat
  link-fire_heartbeat now none w = refl
  link-fire_heartbeat now (some entry) w = ground arith

  pub link-fire_clock_ping :
      (t1 : N) (w : Ws N) → link (fire_clock_ping same t1 w).self ≡ link w.self
  unfolding fire_clock_ping
  link-fire_clock_ping t1 w = ap link (send_frame_self _ _)

  pub link-clock_ping_due : (t1 : N) (w : Ws N) → link (clock_ping_due same t1 w).self ≡ link w.self
  unfolding clock_ping_due
  link-clock_ping_due t1 w = ground (arith, link-fire_clock_ping t1 w)
