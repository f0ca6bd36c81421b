-- ===== src/Admin/Restart.antt =====
-- How a restart of the daemon ends: `restartDaemon` of src/stores/adminSettings.ts.
use playback_sync.Base.{
  ◌+◌, ◌≤◌, ◌⊎◌, inl, inr, true, false, ◌≡◌, refl, ap, sym, ◌∙◌, subst, Option, none, some, List,
  [], ◌∷◌, length, arith, Ensures, Option-cases, some_inj, get_elem?, erase_idx,
}
use playback_sync.Admin.{
  Phase, requested, grace, polling, pausing, confirming, concluding, restarting_daemon, Admin,
}
use playback_sync.Admin.Actions.{
  Reply, done, elapsed, failed, waiting, status_loaded, restart_daemon, restart_resumed, resume,
  reply,
}
use playback_sync.Admin.Phases.{answers, polls, budget, rest, Turn, restart_resumed-Turn}

-- Replies for the task that waits first.
unfoldable pub attend : List Reply → Admin → Option Admin
unfolding reply
attend [] a = some a
attend (r ∷ rs) a = elim (reply 0 r a) [ none ↦ none | some u ↦ attend rs u ]

-- Over, with one answer; or under way, with none.
abbrev pub Outcome : Admin → Admin → Type 0
Outcome a u =
    ((u.tasks ≡ []) × (u.restarting ≡ false) × (answers u.out ≡ 1 + answers a.out))
    ⊎ ((u.restarting ≡ true)
        × (answers u.out ≡ answers a.out)
        × ((r : Reply) × (v : Admin) × (reply 0 r u ≡ some v)))

reply-restart :
    (p : Phase) (r : Reply) (a : Admin)
    → a.tasks ≡ restarting_daemon p ∷ []
    → reply 0 r a ≡ restart_resumed p r (waiting 0 a)
unfolding reply resume
reply-restart p r a e =
    ap (λ ts. elim (get_elem? ts 0) [ none ↦ none | some t ↦ resume t r (waiting 0 a) ]) e

-- A reply that carries the phase on.
fitting : Phase → Reply
fitting requested = done
fitting grace = elapsed
fitting (polling left) = failed none
fitting (pausing left) = elapsed
fitting confirming = failed none
fitting concluding = failed none

restart_goes_on : (p : Phase) (a : Admin) → (v : Admin) × (restart_resumed p (fitting p) a ≡ some v)
unfolding restart_resumed fitting status_loaded
restart_goes_on requested a = (_, refl)
restart_goes_on grace a = (_, refl)
restart_goes_on (polling left) a = (_, refl)
restart_goes_on (pausing left) a = (_, refl)
restart_goes_on confirming a = (_, refl)
restart_goes_on concluding a = (_, refl)

Ensures_at {ℓ κ} :
    {A : Type ℓ} (P : A → Type κ) (o : Option A) (a : A) → Ensures P o → o ≡ some a → P a
Ensures_at P none a h e = cc
Ensures_at P (some b) a h e = subst P (some_inj b a e) h

reply_empty : (r : Reply) (a : Admin) → a.tasks ≡ [] → reply 0 r a ≡ none
unfolding reply
reply_empty r a t =
    ap (λ ts. elim (get_elem? ts 0) [ none ↦ none | some k ↦ resume k r (waiting 0 a) ]) t

-- With no task no reply is taken.
attend_empty :
    (rs : List Reply) (a u : Admin)
    → a.tasks ≡ []
    → attend rs a ≡ some u
    → (length rs ≡ 0) × (a ≡ u)
unfolding attend
attend_empty [] a u t e = (refl, some_inj a u e)
attend_empty (r ∷ rs) a u t e =
    cc (sym (ap (λ o. elim o [ none ↦ none | some v ↦ attend rs v ]) (reply_empty r a t)) ∙ e)

rest_pos : (p : Phase) → 1 ≤ rest p
rest_pos requested = omega arith
rest_pos grace = omega arith
rest_pos (polling left) = omega arith
rest_pos (pausing left) = omega arith
rest_pos confirming = omega arith
rest_pos concluding = omega arith

abbrev Bounded : Phase → List Reply → Admin → Admin → Type 0
Bounded p rs a u = (length rs ≤ rest p) × (polls u.out ≤ budget p + polls a.out) × Outcome a u

-- Behind the first reply.
turned :
    (r : Reply) (rs : List Reply) (p : Phase) (a u v : Admin)
    → ((q : Phase)
        → v.tasks ≡ restarting_daemon q ∷ []
        → v.restarting ≡ true
        → attend rs v ≡ some u
        → Bounded q rs v u)
    → Turn p (waiting 0 a) v
    → erase_idx a.tasks 0 ≡ []
    → a.restarting ≡ true
    → attend rs v ≡ some u
    → Bounded p (r ∷ rs) a u
turned r rs p a u v ih (inl x) t b e =
    let (l, same) = attend_empty rs v u (x.tasks ∙ t) e in
    let pos = rest_pos p in
    let kept = x.polls_kept in
    (
      omega arith,
      subst (λ w. polls w.out ≤ budget p + polls a.out) same (omega arith),
      subst (Outcome a) same (inl (x.tasks ∙ t, x.restarting, x.answered)),
    )
turned r rs p a u v ih (inr (q, m)) t b e =
    let (l, ps, o) = ih q (m.tasks ∙ ap (λ ts. restarting_daemon q ∷ ts) t) (m.restarting ∙ b) e in
    let d = m.nearer in let k = m.polled in (omega arith, omega arith, settled o)
  where
    settled : Outcome v u → Outcome a u
    settled (inl (x, y, z)) = inl (x, y, z ∙ ap (λ n. 1 + n) m.answered)
    settled (inr (x, y, z)) = inr (x, y ∙ m.answered, z)

attend-Bounded :
    (rs : List Reply) (p : Phase) (a u : Admin)
    → a.tasks ≡ restarting_daemon p ∷ []
    → a.restarting ≡ true
    → attend rs a ≡ some u
    → Bounded p rs a u
unfolding attend
attend-Bounded [] p a u t b e =
    let (v, g) = restart_goes_on p (waiting 0 a) in
    subst (Bounded p [] a) (some_inj a u e)
      (omega arith, omega arith, inr (b, refl, (fitting p, v, reply-restart p (fitting p) a t ∙ g)))
attend-Bounded (r ∷ rs) p a u t b e = elim (Option-cases (reply 0 r a)) [
  | inl no_reply ↦ cc (sym (ap (λ o. elim o [ none ↦ none | some v ↦ attend rs v ]) no_reply) ∙ e)
  | inr (v, q) ↦
      turned r rs p a u v (λ k x y z. attend-Bounded rs k v u x y z)
        (Ensures_at (Turn p (waiting 0 a)) (restart_resumed p r (waiting 0 a)) v
          (restart_resumed-Turn p r (waiting 0 a)) (sym (reply-restart p r a t) ∙ q))
        (ap (λ ts. erase_idx ts 0) t) b
        (sym (ap (λ o. elim o [ none ↦ none | some w ↦ attend rs w ]) q) ∙ e)
]

-- A restart, with no other action under way, takes at most 43 replies of any kind and sends at most 20
-- polls; at any point it is over, with one answer and its flag lowered, or its flag is set, it has
-- not answered and some reply carries it on.
pub attend-restart_daemon :
    (a u : Admin) (rs : List Reply)
    → a.tasks ≡ []
    → attend rs (restart_daemon a) ≡ some u
    → (length rs ≤ 43) × (polls u.out ≤ 20 + polls a.out) × Outcome a u
unfolding restart_daemon
attend-restart_daemon a u rs t e =
    attend-Bounded rs requested (restart_daemon a) u (ap (λ ts. restarting_daemon requested ∷ ts) t)
      refl e
