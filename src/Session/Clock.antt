-- ===== src/Session/Clock.antt =====
-- Clock synchronisation and the resync commands of extension/src/background/session.ts.
use playback_sync.Base.{ℕ, none, some, List, [], ◌∷◌, ◌++◌, if◌then◌else◌, ltb, length}
use playback_sync.Number.{Number}
use playback_sync.Protocol.Frames.{playing}
use playback_sync.Messages.{AuthoritativeCommand, seek}
use playback_sync.Session.{SessionState, RoomPlayback}
use playback_sync.Session.Folds.{push_play_state}

-- `Array.prototype.shift` of a list with a head.
abbrev pub shift {ℓ} : {A : Type ℓ} → List A → List A
shift [] = []
shift (x ∷ xs) = xs

-- A sample is pushed, and the oldest dropped when there are more than eight.
abbrev pub push_sample {ℓ} : {A : Type ℓ} → A → List A → List A
push_sample x xs =
    let pushed = xs ++ x ∷ [] in if ltb 8 (length pushed) then shift pushed else pushed

module _ {N : Type 0} ⦃n : Number N⦄ where
  unfoldable pub clock_offset : N → N → N → N → N
  clock_offset t1 t2 t3 t4 = n.div (n.add (n.sub t2 t1) (n.sub t3 t4)) (n.lit 2)

  unfoldable pub round_trip_time : N → N → N → N → N
  round_trip_time t1 t2 t3 t4 = n.sub (n.sub t4 t1) (n.sub t3 t2)

  unfoldable pub apply_clock_pong : SessionState N → N → N → N → N → SessionState N
  unfolding clock_offset round_trip_time
  apply_clock_pong s t1 t2 t3 t4 =
      let offset = clock_offset t1 t2 t3 t4 in
      let rtt = round_trip_time t1 t2 t3 t4 in
      let alpha = n.frac 4 10 in
      record s {
        rtt_samples_ms = push_sample rtt s.rtt_samples_ms;
        server_clock_offset_ms = elim s.client_id [
          | none ↦ offset
          | some _ ↦
              n.add (n.mul s.server_clock_offset_ms (n.sub (n.lit 1) alpha)) (n.mul offset alpha)
        ];
      }

  unfoldable pub server_to_local_ms : SessionState N → N → N
  server_to_local_ms s server_ms = n.sub server_ms s.server_clock_offset_ms

  -- The position that `buildResyncCommands` seeks to.
  unfoldable pub resync_position : ℕ → SessionState N → RoomPlayback N → N
  resync_position now s snap = elim snap.player_state [
    | playing ↦
        let server_now = n.add (n.lit now) s.server_clock_offset_ms in
        n.add snap.video_pos
          (n.maximum (n.lit 0) (n.div (n.sub server_now snap.server_ts) (n.lit 1000)))
    | _ ↦ snap.video_pos
  ]

  unfoldable pub build_resync_commands : ℕ → SessionState N → List (AuthoritativeCommand N)
  unfolding resync_position
  build_resync_commands now s = elim s.last_room_playback [
    | none ↦ []
    | some snap ↦ seek (resync_position now s snap) ∷ push_play_state snap.player_state
  ]
