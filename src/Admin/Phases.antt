-- ===== src/Admin/Phases.antt =====
-- Where one reply takes a restart: `restartDaemon` of src/stores/adminSettings.ts.
use playback_sync.Base.{
  ℕ, zero, suc, ◌+◌, ◌*◌, ◌≤◌, ◌<◌, ◌⊎◌, inl, inr, false, ◌≡◌, refl, List, [], ◌∷◌, arith, Ensures,
  if-split,
}
use playback_sync.Admin.{
  Phase, requested, grace, polling, pausing, confirming, concluding, fetch_ws_status, Output,
  request, answer, restarting_daemon, Admin,
}
use playback_sync.Admin.Actions.{
  Reply, done, elapsed, status, failed, pause, next_poll, status_loaded, restart_resumed,
}

abbrev pub answers : List Output → ℕ
answers [] = 0
answers (answer b ∷ os) = 1 + answers os
answers (_ ∷ os) = answers os

abbrev pub polls : List Output → ℕ
polls [] = 0
polls (request fetch_ws_status ∷ os) = 1 + polls os
polls (_ ∷ os) = polls os

-- The polls that a phase may still send, and the replies that it may still take.
abbrev pub budget : Phase → ℕ
budget requested = 20
budget grace = 20
budget (polling left) = left
budget (pausing left) = left
budget confirming = 0
budget concluding = 0

abbrev pub rest : Phase → ℕ
rest requested = 43
rest grace = 42
rest (polling left) = 2 * left + 3
rest (pausing left) = 2 * left + 2
rest confirming = 1
rest concluding = 1

pub record Ends (p : Phase) (a v : Admin) : Type 0 where
  pub tasks : v.tasks ≡ a.tasks
  pub restarting : v.restarting ≡ false
  pub answered : answers v.out ≡ 1 + answers a.out
  pub polls_kept : polls v.out ≡ polls a.out

pub record Moves (p q : Phase) (a v : Admin) : Type 0 where
  pub tasks : v.tasks ≡ restarting_daemon q ∷ a.tasks
  pub restarting : v.restarting ≡ a.restarting
  pub answered : answers v.out ≡ answers a.out
  pub polled : polls v.out + budget q ≤ budget p + polls a.out
  pub nearer : rest q < rest p

abbrev pub Turn : Phase → Admin → Admin → Type 0
Turn p a v = Ends p a v ⊎ ((q : Phase) × Moves p q a v)

next_poll-Moves :
    (p : Phase) (left : ℕ) (a : Admin)
    → left ≤ budget p
    → 2 * left + 2 ≤ rest p
    → Turn p a (next_poll left a)
unfolding next_poll
next_poll-Moves p zero a b r = inr (
  concluding,
  record {
    tasks = refl;
    restarting = refl;
    answered = refl;
    polled = omega arith;
    nearer = omega arith;
  },
)
next_poll-Moves p (suc left) a b r = inr (
  polling left,
  record {
    tasks = refl;
    restarting = refl;
    answered = refl;
    polled = omega arith;
    nearer = omega arith;
  },
)

pause-Moves : (left : ℕ) (a : Admin) → Turn (polling left) a (pause left a)
pause-Moves left a = inr (
  pausing left,
  record {
    tasks = refl;
    restarting = refl;
    answered = refl;
    polled = omega arith;
    nearer = omega arith;
  },
)

pub restart_resumed-Turn :
    (p : Phase) (r : Reply) (a : Admin) → Ensures (Turn p a) (restart_resumed p r a)
unfolding restart_resumed status_loaded
restart_resumed-Turn requested done a = inr (
  grace,
  record {
    tasks = refl;
    restarting = refl;
    answered = refl;
    polled = omega arith;
    nearer = omega arith;
  },
)
restart_resumed-Turn requested (failed f) a =
    inl (record { tasks = refl; restarting = refl; answered = refl; polls_kept = refl })
restart_resumed-Turn requested _ a = tt
restart_resumed-Turn grace elapsed a = next_poll-Moves grace 20 a (omega arith) (omega arith)
restart_resumed-Turn grace _ a = tt
restart_resumed-Turn (polling left) (status s) a =
    if-split (Turn (polling left) a) s.available _ (pause left a)
      (λ q. inr (
        confirming,
        record {
          tasks = refl;
          restarting = refl;
          answered = refl;
          polled = omega arith;
          nearer = omega arith;
        },
      ))
      (λ q. pause-Moves left a)
restart_resumed-Turn (polling left) (failed f) a = pause-Moves left a
restart_resumed-Turn (polling left) _ a = tt
restart_resumed-Turn (pausing left) elapsed a =
    next_poll-Moves (pausing left) left a (omega arith) (omega arith)
restart_resumed-Turn (pausing left) _ a = tt
restart_resumed-Turn confirming (status s) a =
    inl (record { tasks = refl; restarting = refl; answered = refl; polls_kept = refl })
restart_resumed-Turn confirming (failed f) a =
    inl (record { tasks = refl; restarting = refl; answered = refl; polls_kept = refl })
restart_resumed-Turn confirming _ a = tt
restart_resumed-Turn concluding (status s) a =
    inl (record { tasks = refl; restarting = refl; answered = refl; polls_kept = refl })
restart_resumed-Turn concluding (failed f) a =
    inl (record { tasks = refl; restarting = refl; answered = refl; polls_kept = refl })
restart_resumed-Turn concluding _ a = tt
