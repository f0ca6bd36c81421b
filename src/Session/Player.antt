-- ===== src/Session/Player.antt =====
-- What the commands of the session's folds do to a video. The player is abstract: a seek may start
-- or stop it as a side effect, as some players resume playback on a seek.
use playback_sync.Base.{ℕ, Bool, true, false, ◌≡◌, ◌≢◌, refl, ◌∙◌, some, List, [], ◌∷◌, ◌++◌, arith}
use playback_sync.Number.{Number}
use playback_sync.Protocol.Frames.{
  PlayerState, playing, paused, buffering, RoomStateFrame, StateFrame,
}
use playback_sync.Messages.{AuthoritativeCommand, play, pause, seek, nudge_rate, cursor_change}
use playback_sync.Session.{SessionState, RoomPlayback}
use playback_sync.Session.Folds.{push_play_state, apply_room_state, apply_state}
use playback_sync.Session.Clock.{build_resync_commands, resync_position}

pub record Player (N : Type 0) : Type 0 where
  pub position : N
  pub running : Bool

-- The player is at the position, and runs or stands as the room's state demands.
abbrev pub IsAt : {N : Type 0} → PlayerState → N → Player N → Type 0
IsAt playing x p = (p.position ≡ x) × (p.running ≡ true)
IsAt paused x p = (p.position ≡ x) × (p.running ≡ false)
IsAt buffering x p = p.position ≡ x

module _ {N : Type 0} (after_seek : Bool → N → Bool) where
  unfoldable pub obey : Player N → AuthoritativeCommand N → Player N
  obey p play = record p { running = true }
  obey p pause = record p { running = false }
  obey p (seek time) = record { position = time; running = after_seek p.running time }
  obey p (nudge_rate target_pos) = p
  obey p (cursor_change page_url) = p

  unfoldable pub obey_all : Player N → List (AuthoritativeCommand N) → Player N
  unfolding obey
  obey_all p [] = p
  obey_all p (c ∷ cs) = obey_all (obey p c) cs

  pub obey_all-append :
      (p : Player N) (cs ds : List (AuthoritativeCommand N))
      → obey_all p (cs ++ ds) ≡ obey_all (obey_all p cs) ds
  unfolding obey_all
  obey_all-append p [] ds = refl
  obey_all-append p (c ∷ cs) ds = obey_all-append (obey p c) cs ds

  obey_all-push_play_state :
      (q : PlayerState) (x : N) (r : Bool)
      → IsAt q x (obey_all (record { position = x; running = r }) (push_play_state q))
  unfolding obey_all
  obey_all-push_play_state playing x r = (refl, refl)
  obey_all-push_play_state paused x r = (refl, refl)
  obey_all-push_play_state buffering x r = refl

  -- The commands for a room state bring any player to the room's position, and to the room's
  -- running or paused state, whatever a seek does to the player.
  pub obey_all-apply_room_state :
      (s : SessionState N) (f : RoomStateFrame N) (p : Player N)
      → IsAt f.player_state f.video_pos (obey_all p (apply_room_state s f).1)
  unfolding obey_all apply_room_state
  obey_all-apply_room_state s f p =
      obey_all-push_play_state f.player_state f.video_pos (after_seek p.running f.video_pos)

module _ {N : Type 0} ⦃n : Number N⦄ where
  -- The seconds since a time of the server, on its clock, and none if the clocks disagree.
  abbrev pub seconds_since : N → ℕ → N → N
  seconds_since offset now server_ts =
      n.maximum (n.lit 0) (n.div (n.sub (n.add (n.lit now) offset) server_ts) (n.lit 1000))

  abbrev pub IsCaughtUp : PlayerState → N → N → Player N → Type 0
  IsCaughtUp playing x d p = (p.position ≡ n.add x d) × (p.running ≡ true)
  IsCaughtUp paused x d p = (p.position ≡ x) × (p.running ≡ false)
  IsCaughtUp buffering x d p = p.position ≡ x

module _ {N : Type 0} ⦃n : Number N⦄ (after_seek : Bool → N → Bool) where
  -- The commands for a state frame do the same for a playing or paused room, and leave the player
  -- alone while the room buffers.
  pub obey_all-apply_state :
      (s : SessionState N) (f : StateFrame N) (p : Player N)
      → (f.player_state ≢ buffering
          → IsAt f.player_state f.video_pos (obey_all after_seek p (apply_state s f).1))
        × (f.player_state ≡ buffering → obey_all after_seek p (apply_state s f).1 ≡ p)
  unfolding obey_all apply_state
  obey_all-apply_state s f p = go f.player_state
    where
      go :
          (q : PlayerState)
          → let cs = (apply_state s (record f { player_state = q })).1 in
            (q ≢ buffering → IsAt q f.video_pos (obey_all after_seek p cs))
            × (q ≡ buffering → obey_all after_seek p cs ≡ p)
      go playing = (λ _. (refl, refl), λ e. cc)
      go paused = (λ _. (refl, refl), λ e. cc)
      go buffering = (λ h. absurd (h refl), λ _. refl)

  build_resync_commands-some :
      (now : ℕ) (s : SessionState N) (snap : RoomPlayback N)
      → s.last_room_playback ≡ some snap
      → build_resync_commands now s
        ≡ seek (resync_position now s snap) ∷ push_play_state snap.player_state
  unfolding build_resync_commands
  build_resync_commands-some now s snap e = ground arith

  caught_up :
      (q : PlayerState) (now : ℕ) (s : SessionState N) (snap : RoomPlayback N) (p : Player N)
      → snap.player_state ≡ q
      → IsAt q (resync_position now s snap) p
      → IsCaughtUp q snap.video_pos (seconds_since s.server_clock_offset_ms now snap.server_ts) p
  caught_up playing now s snap p e (x, r) = (x ∙ unfold resync_position in rw e refl, r)
  caught_up paused now s snap p e (x, r) = (x ∙ unfold resync_position in rw e refl, r)
  caught_up buffering now s snap p e x = x ∙ unfold resync_position in rw e refl

  -- The resync of a reloaded tab brings it to the cached room playback. If the room plays, the player runs
  -- at the cached position moved on by the seconds from the snapshot to now on the server's clock, and by
  -- none if that is negative; a paused room pauses it at the cached position, and a buffering one only
  -- moves it there.
  pub obey_all-build_resync_commands :
      (now : ℕ) (s : SessionState N) (snap : RoomPlayback N) (p : Player N)
      → s.last_room_playback ≡ some snap
      → IsCaughtUp snap.player_state snap.video_pos
          (seconds_since s.server_clock_offset_ms now snap.server_ts)
          (obey_all after_seek p (build_resync_commands now s))
  unfolding obey_all
  obey_all-build_resync_commands now s snap p e =
      caught_up snap.player_state now s snap (obey_all after_seek p (build_resync_commands now s))
        refl
        (rw (build_resync_commands-some now s snap e) (
          obey_all-push_play_state after_seek snap.player_state (resync_position now s snap)
            (after_seek p.running (resync_position now s snap))))
