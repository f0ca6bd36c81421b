-- ===== src/Ws/Joining.antt =====
-- How often, and with what, a runtime of extension/src/background/ws.ts joins its room.
use playback_sync.Base.{
  gathered-append, Bool, true, false, ◌≡◌, ap, sym, subst, ◌∙◌, refl, not, ◌&&◌, ◌⊎◌, inl, inr,
  Option, none, some, [], ◌∷◌, ◌++◌, String, arith, if-true, if-false, Bool-cases, if◌then◌else◌,
}
use playback_sync.Number.{Number}
use playback_sync.Protocol.Frames.{JoinFrame, join}
use playback_sync.Ws.{
  send, is_pooled, Ws, Runtime, ReadyState, is_open, send_frame, set_self, opened,
}
use playback_sync.Ws.Lifecycle.{
  join_frame, send_join, flush_join, maybe_flush_join, announce_open, defer_join, on_open, on_close,
  reconnect_due, disconnect, report_identity, report_catalog,
}
use playback_sync.Ws.Effects.{
  link-fire_heartbeat, link-fire_clock_ping, link-clock_ping_due, link, joined, link-handle_frame,
  on_open_rejoin, flush_join_self,
}
use playback_sync.Ws.Sound.{IsSound}
use playback_sync.Ws.Joins.{
  joins, join_of, IsQuiet, announce_open-IsQuiet, defer_join-IsQuiet, on_close-IsQuiet,
  reconnect_due-IsQuiet, disconnect-IsQuiet,
}
use playback_sync.Ws.Quiet.{
  handle_frame-IsQuiet, fire_heartbeat-IsQuiet, fire_clock_ping-IsQuiet, clock_ping_due-IsQuiet,
}
use playback_sync.Ws.Runs.{
  Event, socket_open, frame, socket_close, heartbeat_tick, clock_tick, burst_tick, join_deadline,
  reconnect_timer, identity, catalog, leave, step, has_socket, is_connecting,
}
use playback_sync.Ws.Kept.{IsKept, on_close-IsKept, disconnect-IsKept, reconnect_due-IsKept}

has_open : (s : Option ReadyState) → is_open s ≡ true → has_socket s ≡ true
has_open none o = ground arith
has_open (some x) o = refl

module _ {N : Type 0} ⦃n : Number N⦄ where
  -- What one event does to the JOINs: nothing, another JOIN without content, or the first one.
  pub data Joining (w w' : Ws N) : Type 0 where
    silent :
        joins w'.out ≡ joins w.out
        → w'.self.creds ≡ w.self.creds
        → w'.self.first_join_sent ≡ w.self.first_join_sent
        → Joining w w'
    again :
        (r : Runtime N)
        → r.creds ≡ w.self.creds
        → joins w'.out ≡ joins w.out ++ join_frame false r ∷ []
        → w'.self.creds ≡ w.self.creds
        → w'.self.first_join_sent ≡ w.self.first_join_sent
        → Joining w w'
    first :
        (r : Runtime N)
        → r.creds ≡ w.self.creds
        → w.self.first_join_sent ≡ false
        → joins w'.out ≡ joins w.out ++ join_frame true r ∷ []
        → w'.self.creds ≡ w.self.creds
        → w'.self.first_join_sent ≡ true
        → Joining w w'

  send_frame_some :
      (f : JoinFrame N) (w : Ws N)
      → has_socket w.self.socket ≡ true
      → joins (send_frame (join f) w).out ≡ joins w.out ++ f ∷ []
  unfolding send_frame
  send_frame_some f w h = ground (arith, gathered-append join_of w.out (send (join f) ∷ []))

  send_join_out :
      (b : Bool) (w : Ws N)
      → is_open w.self.socket ≡ true
      → joins (send_join b w).out ≡ joins w.out ++ join_frame b w.self ∷ []
  unfolding send_join
  send_join_out b w o = send_frame_some (join_frame b w.self) w (has_open w.self.socket o)

  abbrev not_waiting : Ws N → Ws N
  not_waiting w = set_self (record w.self { pending_join_deadline = false }) w

  flush_join_run :
      (w : Ws N)
      → w.self.pending_join_deadline ≡ true
      → (flush_join w).out ≡ (send_join true (not_waiting w)).out
  unfolding flush_join
  flush_join_run w h =
      ap {A = Ws N} (λ v. v.out) (if-false _ _ (ap (λ d. not d && w.self.first_join_sent) h))

  flush_join_sent :
      (w : Ws N) → w.self.pending_join_deadline ≡ true → (flush_join w).self ≡ joined w.self
  flush_join_sent w h =
      flush_join_self w ∙ if-false _ _ (ap (λ d. not d && w.self.first_join_sent) h)

  flush_join-Joining :
      (w : Ws N)
      → w.self.pending_join_deadline ≡ true
      → w.self.first_join_sent ≡ false
      → is_open w.self.socket ≡ true
      → Joining w (flush_join w)
  flush_join-Joining w d h o =
      first (not_waiting w).self refl h
        (ap joins (flush_join_run w d) ∙ send_join_out true (not_waiting w) o)
        (ap (λ r. r.creds) (flush_join_sent w d))
        (ap (λ r. r.first_join_sent) (flush_join_sent w d))

  maybe_flush_join_cases :
      (w : Ws N)
      → (maybe_flush_join w ≡ w)
        ⊎ ((w.self.pending_join_deadline ≡ true)
            × (w.self.first_join_sent ≡ false)
            × (maybe_flush_join w ≡ flush_join w))
  unfolding maybe_flush_join
  maybe_flush_join_cases w = ground arith

  still : (w : Ws N) → Joining w w
  still w = silent refl refl refl

  maybe_flush_join-Joining :
      (w : Ws N)
      → (w.self.pending_join_deadline ≡ true → is_open w.self.socket ≡ true)
      → Joining w (maybe_flush_join w)
  maybe_flush_join-Joining w o = elim (maybe_flush_join_cases w) [
    | inl e ↦ subst (Joining w) (sym e) (still w)
    | inr (d, h, e) ↦ subst (Joining w) (sym e) (flush_join-Joining w d h (o d))
  ]

  behind :
      {w v w' : Ws N}
      → joins v.out ≡ joins w.out
      → v.self.creds ≡ w.self.creds
      → v.self.first_join_sent ≡ w.self.first_join_sent
      → Joining v w'
      → Joining w w'
  behind q c h (silent q' c' h') = silent (q' ∙ q) (c' ∙ c) (h' ∙ h)
  behind q c h (again r rc j c' h') =
      again r (rc ∙ c) (j ∙ ap (λ fs. fs ++ join_frame false r ∷ []) q) (c' ∙ c) (h' ∙ h)
  behind q c h (first r rc f j c' h') =
      first r (rc ∙ c) (sym h ∙ f) (j ∙ ap (λ fs. fs ++ join_frame true r ∷ []) q) (c' ∙ c) h'

  kept : {w w' : Ws N} → IsQuiet w w' → IsKept w w' → Joining w w'
  kept q k = silent q.same_joins k.same_creds k.same_latch

  on_open-Joining : (w : Ws N) → is_open w.self.socket ≡ true → Joining w (on_open w)
  unfolding on_open
  on_open-Joining w o = elim (Bool-cases w.self.first_join_sent) [
    | inl h ↦
        again (announce_open w).self refl
          (ap {A = Ws N} (λ v. joins v.out)
              (if-true _ (maybe_flush_join (defer_join (announce_open w))) h)
            ∙ send_join_out false (announce_open w) o
            ∙ ap (λ fs. fs ++ join_frame false (announce_open w).self ∷ [])
                (announce_open-IsQuiet w).same_joins)
          (ap (λ r. r.creds) (on_open_rejoin w h))
          (ap (λ r. r.first_join_sent) (on_open_rejoin w h))
    | inr h ↦ subst (Joining w) (sym (if-false (send_join false (announce_open w)) _ h)) (
        behind
          ((defer_join-IsQuiet (announce_open w)).same_joins ∙ (announce_open-IsQuiet w).same_joins)
          refl refl (maybe_flush_join-Joining (defer_join (announce_open w)) (λ d. o)))
  ]

  guarded : (b : Bool) (w w' : Ws N) → (b ≡ true → Joining w w') → Joining w (if b then w' else w)
  guarded true w w' j = j refl
  guarded false w w' j = still w

  guarded_else : (b : Bool) (w w' : Ws N) → Joining w w' → Joining w (if b then w else w')
  guarded_else true w w' j = still w
  guarded_else false w w' j = j

  linked : (w w' : Ws N) → IsQuiet w w' → link w'.self ≡ link w.self → Joining w w'
  linked w w' q e = silent q.same_joins (ap (λ l. l.creds) e) (ap (λ l. l.first_join_sent) e)

  on_close-Joining : (reason : String) (w : Ws N) → Joining w (on_close reason w)
  on_close-Joining reason w = kept (on_close-IsQuiet reason w) (on_close-IsKept reason w)

  disconnect-Joining : (w : Ws N) → Joining w (disconnect w)
  disconnect-Joining w = kept (disconnect-IsQuiet w) (disconnect-IsKept w)

  reconnect_due-Joining : (url_ok : String → Bool) (w : Ws N) → Joining w (reconnect_due url_ok w)
  reconnect_due-Joining url_ok w =
      kept (reconnect_due-IsQuiet url_ok w) (reconnect_due-IsKept url_ok w)

  pub step-Joining :
      (url_ok : String → Bool) (same : N → N → Bool) (w : Ws N) (e : Event N)
      → IsSound (link w.self)
      → Joining w (step url_ok same w e)
  unfolding step
  step-Joining url_ok same w socket_open v = guarded (is_connecting w.self.socket) w _ (λ q.
      behind refl refl refl
        (on_open-Joining (set_self (record w.self { socket = some opened }) w) refl))
  step-Joining url_ok same w (frame now f) v =
      guarded _ w _
        (λ q. linked w _ (handle_frame-IsQuiet same now f w) (link-handle_frame same now f w))
  step-Joining url_ok same w (socket_close reason) v =
      guarded _ w _ (λ q. on_close-Joining reason w)
  step-Joining url_ok same w (heartbeat_tick now entry) v = guarded _ w _ (λ q.
      linked w _ (fire_heartbeat-IsQuiet same now entry w) (link-fire_heartbeat same now entry w))
  step-Joining url_ok same w (clock_tick t1) v =
      guarded _ w _
        (λ q. linked w _ (fire_clock_ping-IsQuiet same t1 w) (link-fire_clock_ping same t1 w))
  step-Joining url_ok same w (burst_tick t1) v =
      linked w _ (clock_ping_due-IsQuiet same t1 w) (link-clock_ping_due same t1 w)
  step-Joining url_ok same w join_deadline v =
      guarded _ w _ (λ q. flush_join-Joining w q (v.waiting q).1 (v.waiting q).0)
  step-Joining url_ok same w reconnect_timer v = guarded_else _ w _ (reconnect_due-Joining url_ok w)
  step-Joining url_ok same w (identity ref) v =
      guarded (is_pooled w) w (report_identity ref w) (λ q.
        unfold report_identity in
        behind refl refl refl (
          maybe_flush_join-Joining (set_self (record w.self { last_identity = some ref }) w)
            (λ d. (v.waiting d).0)))
  step-Joining url_ok same w (catalog entries) v =
      guarded (is_pooled w) w (report_catalog entries w) (λ q.
        unfold report_catalog in
        behind refl refl refl (
          maybe_flush_join-Joining
            (set_self (record w.self { last_catalog = entries; catalog_reported = true }) w)
            (λ d. (v.waiting d).0)))
  step-Joining url_ok same w leave v = guarded _ w _ (λ q. disconnect-Joining w)
