-- ===== src/Ws/Delivery.antt =====
-- From the frame that lib/WebSocket/MessageEncoder.php writes to the player of a tab: decoded, folded into
-- the session and dispatched by extension/src/background/ws.ts.
use mathlib.Core.List.{append_assoc, append-nil}
use playback_sync.Base.{
  gathered, gathered-append, ℕ, Bool, true, ◌≡◌, ◌≢◌, refl, sym, ap, ◌∙◌, subst, Option, none, some,
  List, [], ◌∷◌, ◌++◌, String, if-split,
}
use playback_sync.Number.{Number}
use playback_sync.Protocol.Frames.{
  InboundFrame, room_state, state, cursor_change, playlist_update, sync_adjust, clock_pong, error,
  notice, buffering, SyncAdjustMode,
}
use playback_sync.Protocol.Json.{Json, obj}
use playback_sync.Protocol.Parts.{Decoded, ok, shape, or_shape}
use playback_sync.Protocol.Decode.{decode}
use playback_sync.Protocol.Encoder.{encode_frame}
use playback_sync.Protocol.Valid.{IsSendable}
use playback_sync.Protocol.Server.{ServerFrame, client_frame}
use playback_sync.Protocol.RoundTrip.{unknown_event, decode-encode_frame}
use playback_sync.Messages.{AuthoritativeCommand, welcome, peer}
use playback_sync.Session.{reset_convergence, SessionState}
use playback_sync.Session.Folds.{
  apply_room_state, apply_state, apply_cursor_change, apply_sync_adjust, adjust_commands,
}
use playback_sync.Session.Player.{
  Player, IsAt, obey, obey_all, obey_all-apply_room_state, obey_all-apply_state, obey_all-append,
}
use playback_sync.Ws.{
  Output, dispatch_command, dispatch_notice, terminal, lifecycle_change, save_client_id,
  notify_room_state_changed, notify_cursor_changed, Ws, emit, set_self, is_terminal,
}
use playback_sync.Ws.Frames.{
  set_session, dispatch_all, dispatch_to_owner, save_assigned_id, greet, handle_frame, on_message,
  same_id,
}

abbrev command_of : {N : Type 0} → Output N → Option (AuthoritativeCommand N)
command_of (dispatch_command c) = some c
command_of _ = none

-- The commands among the outputs.
abbrev pub commands : {N : Type 0} → List (Output N) → List (AuthoritativeCommand N)
commands os = gathered command_of os

module _ {N : Type 0} where
  -- What a frame does to a player that stood at `p`, and stands at `q` behind it.
  abbrev pub Follows : InboundFrame N → Player N → Player N → Type 0
  Follows (room_state f) p q = IsAt f.player_state f.video_pos q
  Follows (state f) p q =
      (f.player_state ≢ buffering → IsAt f.player_state f.video_pos q)
      × (f.player_state ≡ buffering → q ≡ p)
  Follows (sync_adjust f) p q =
      (f.mode ≡ SyncAdjustMode.seek → q.position ≡ f.target_pos)
      × (f.mode ≡ SyncAdjustMode.nudge_rate → q ≡ p)
  Follows _ p q = q ≡ p

  -- Nothing is read: the player stays.
  abbrev pub Heeds : Option (InboundFrame N) → Player N → Player N → Type 0
  Heeds none p q = q ≡ p
  Heeds (some f) p q = Follows f p q

  commands-dispatch_all :
      (cs : List (AuthoritativeCommand N)) (w : Ws N)
      → commands (dispatch_all cs w).out ≡ commands w.out ++ cs
  unfolding dispatch_all
  commands-dispatch_all [] w = sym (append-nil (commands w.out))
  commands-dispatch_all (c ∷ cs) w =
      commands-dispatch_all cs (emit (dispatch_command c) w)
      ∙ ap (λ xs. xs ++ cs) (gathered-append command_of w.out (dispatch_command c ∷ []))
      ∙ append_assoc (commands w.out) (c ∷ []) cs

  commands-dispatch_to_owner :
      (now : ℕ) (r : SessionState N × List (AuthoritativeCommand N)) (w : Ws N)
      → commands (dispatch_to_owner now r w).out ≡ commands w.out ++ r.1
  unfolding dispatch_to_owner set_session
  commands-dispatch_to_owner now (s, []) w = sym (append-nil (commands w.out))
  commands-dispatch_to_owner now (s, c ∷ cs) w = commands-dispatch_all (c ∷ cs) w

  -- An output that is no command.
  silent :
      (o : Output N) (w : Ws N) → commands (o ∷ []) ≡ [] → commands (emit o w).out ≡ commands w.out
  silent o w e =
      gathered-append command_of w.out (o ∷ [])
      ∙ ap (λ cs. commands w.out ++ cs) e
      ∙ append-nil (commands w.out)

  commands-greet : (s : String) (w : Ws N) → commands (greet s w).out ≡ commands w.out
  unfolding greet
  commands-greet s w =
      if-split (λ v. commands v.out ≡ commands w.out) w.self.welcome_shown w _ (λ e. refl)
        (λ e.
          silent (dispatch_notice (welcome s)) (set_self (record w.self { welcome_shown = true }) w)
            refl)

  commands-save_assigned_id :
      (s : String) (w : Ws N) → commands (save_assigned_id s w).out ≡ commands w.out
  unfolding save_assigned_id
  commands-save_assigned_id s w =
      if-split (λ v. commands v.out ≡ commands w.out) (same_id w.self.session.client_id s) w _
        (λ e. refl) (λ e. silent (save_client_id s) w refl)

module _ {N : Type 0} ⦃n : Number N⦄ (same : N → N → Bool) where
  -- The commands of the fold of a frame.
  abbrev fold_commands : InboundFrame N → SessionState N → List (AuthoritativeCommand N)
  fold_commands (room_state f) s = (apply_room_state s f).1
  fold_commands (state f) s = (apply_state s f).1
  fold_commands (cursor_change f) s = (apply_cursor_change (reset_convergence s) f).1
  fold_commands (sync_adjust f) s = (apply_sync_adjust s f).1
  fold_commands _ s = []

  commands-handle_frame :
      (now : ℕ) (f : InboundFrame N) (w : Ws N)
      → commands (handle_frame same now f w).out ≡ commands w.out ++ fold_commands f w.self.session
  unfolding handle_frame
  commands-handle_frame now (room_state f) w =
      let r = apply_room_state w.self.session f in
      let v = dispatch_to_owner now r (save_assigned_id f.client_id w) in
      silent lifecycle_change (emit notify_room_state_changed (greet f.nickname v)) refl
      ∙ silent notify_room_state_changed (greet f.nickname v) refl
      ∙ commands-greet f.nickname v
      ∙ commands-dispatch_to_owner now r (save_assigned_id f.client_id w)
      ∙ ap (λ cs. cs ++ r.1) (commands-save_assigned_id f.client_id w)
  commands-handle_frame now (state f) w =
      commands-dispatch_to_owner now (apply_state w.self.session f) w
  commands-handle_frame now (cursor_change f) w =
      let r = apply_cursor_change (reset_convergence w.self.session) f in
      silent notify_cursor_changed (dispatch_to_owner now r w) refl
      ∙ commands-dispatch_to_owner now r w
  commands-handle_frame now (playlist_update f) w =
      unfold set_session in sym (append-nil (commands w.out))
  commands-handle_frame now (sync_adjust f) w =
      commands-dispatch_to_owner now (apply_sync_adjust w.self.session f) w
  commands-handle_frame now (clock_pong f) w = sym (append-nil (commands w.out))
  commands-handle_frame now (notice f) w =
      silent (dispatch_notice (peer f.event f.actor f.actor_id f.payload)) w refl
      ∙ sym (append-nil (commands w.out))
  commands-handle_frame now (error f) w =
      if-split (λ v. commands v.out ≡ commands w.out ++ []) (is_terminal f.code) _ w
        (λ e.
          silent (terminal f.message (some f.code))
            (set_self (record w.self { terminated = true }) w) refl
          ∙ sym (append-nil (commands w.out)))
        (λ e. sym (append-nil (commands w.out)))

  on_message_decoded :
      (parse : String → Decoded (Json N)) (now : ℕ) (raw : String) (w : Ws N) (f : InboundFrame N)
      → decode parse raw ≡ ok f
      → on_message same parse now (some raw) w ≡ handle_frame same now f w
  unfolding on_message
  on_message_decoded parse now raw w f e = rw (on_message, e) refl

  on_message_refused :
      (parse : String → Decoded (Json N)) (now : ℕ) (raw : String) (w : Ws N)
      → decode parse raw ≡ shape unknown_event
      → on_message same parse now (some raw) w ≡ w
  unfolding on_message
  on_message_refused parse now raw w e = rw (on_message, e) refl

  module _ (after_seek : Bool → N → Bool) where
    adjusted :
        (m : SyncAdjustMode) (x : N) (p : Player N)
        → (m ≡ SyncAdjustMode.seek → (obey_all after_seek p (adjust_commands m x)).position ≡ x)
          × (m ≡ SyncAdjustMode.nudge_rate → obey_all after_seek p (adjust_commands m x) ≡ p)
    unfolding obey_all obey
    adjusted SyncAdjustMode.seek x p = (λ e. refl, λ e. cc)
    adjusted SyncAdjustMode.nudge_rate x p = (λ e. cc, λ e. refl)

    follows :
        (f : InboundFrame N) (s : SessionState N) (p : Player N)
        → Follows f p (obey_all after_seek p (fold_commands f s))
    unfolding obey_all obey apply_cursor_change apply_sync_adjust
    follows (room_state f) s p = obey_all-apply_room_state after_seek s f p
    follows (state f) s p = obey_all-apply_state after_seek s f p
    follows (cursor_change f) s p = refl
    follows (playlist_update f) s p = refl
    follows (sync_adjust f) s p = adjusted f.mode f.target_pos p
    follows (clock_pong f) s p = refl
    follows (notice f) s p = refl
    follows (error f) s p = refl

    -- What is read off a text moves the player as the frame demands.
    heeds :
        (parse : String → Decoded (Json N)) (now : ℕ) (raw : String) (w : Ws N) (p : Player N)
        (o : Option (InboundFrame N))
        → decode parse raw ≡ or_shape unknown_event o
        → Heeds o
            (obey_all after_seek p (commands w.out))
            (obey_all after_seek p (commands (on_message same parse now (some raw) w).out))
    unfolding or_shape
    heeds parse now raw w p none e =
        ap (λ v. obey_all after_seek p (commands v.out)) (on_message_refused parse now raw w e)
    heeds parse now raw w p (some f) e =
        subst (Follows f (obey_all after_seek p (commands w.out)))
          (sym (
            ap (λ v. obey_all after_seek p (commands v.out))
              (on_message_decoded parse now raw w f e)
            ∙ ap (obey_all after_seek p) (commands-handle_frame now f w)
            ∙ obey_all-append after_seek p (commands w.out) (fold_commands f w.self.session)))
          (follows f w.self.session (obey_all after_seek p (commands w.out)))

    -- A frame that the server writes brings a player, wherever it stands, to where the frame says: a
    -- ROOM_STATE to the position of the room, running or paused as it is; a STATE to the same, but not while
    -- the room buffers; a SYNC_ADJUST that seeks to its target; no other frame moves it, and neither does a
    -- ROOM_STATE that replays a move of the cursor, which the client refuses. The player obeys the commands
    -- that the client of the tab dispatches, and a seek may start or stop it. The frame has finite positions
    -- and values and integer ids and timestamps, and its text parses to what was printed.
    pub on_message-Follows :
        (print : Json N → String) (parse : String → Decoded (Json N)) (now : ℕ) (w : Ws N)
        (p : Player N) (f : ServerFrame N)
        → IsSendable f
        → parse (print (obj (encode_frame f))) ≡ ok (obj (encode_frame f))
        → Heeds (client_frame f) (obey_all after_seek p (commands w.out)) (
            obey_all after_seek p
              (commands (on_message same parse now (some (print (obj (encode_frame f)))) w).out))
    on_message-Follows print parse now w p f valid lossless =
        heeds parse now (print (obj (encode_frame f))) w p (client_frame f)
          (decode-encode_frame print parse f valid lossless)
