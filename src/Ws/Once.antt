-- ===== src/Ws/Once.antt =====
-- What the JOIN frames of a runtime of extension/src/background/ws.ts carry, over its whole life.
use playback_sync.Base.{
  ℕ, ◌+◌, ◌≤◌, Bool, true, false, ◌||◌, ◌≡◌, refl, ap, sym, ◌∙◌, subst, Option, none, some, List,
  [], ◌∷◌, ◌++◌, String, if◌then◌else◌, NumMap, has, insert, All, All-append, length, keep, arith,
}
use playback_sync.Number.{Number}
use playback_sync.Protocol.Frames.{JoinFrame}
use playback_sync.Session.{SessionState}
use playback_sync.Ws.{Ws, Creds, Runtime}
use playback_sync.Ws.Lifecycle.{truthy, join_frame, connect, open_socket, new_runtime}
use playback_sync.Ws.Effects.{link}
use playback_sync.Ws.Sound.{IsSound, idle-IsSound, open_socket-IsIdle}
use playback_sync.Ws.Invariant.{guarded_some, step-IsSound}
use playback_sync.Ws.Joins.{joins, open_socket-IsQuiet}
use playback_sync.Ws.Joining.{Joining, silent, again, first, step-Joining}
use playback_sync.Ws.Kept.{open_socket-IsKept}
use playback_sync.Ws.Runs.{Event, step, run}

abbrev is_some {ℓ} : {A : Type ℓ} → Option A → Bool
is_some none = false
is_some (some a) = true

-- A JOIN that tells the room what the tab shows.
abbrev pub has_content : {N : Type 0} → JoinFrame N → Bool
has_content f = is_some f.currently_showing || is_some f.catalog_fragment

abbrev pub content_joins : {N : Type 0} → List (JoinFrame N) → ℕ
content_joins fs = length (keep has_content fs)

-- The frame carries the password and the client id of the credentials.
abbrev pub IsFrom : {N : Type 0} → Creds → JoinFrame N → Type 0
IsFrom c f = (f.password ≡ c.sync_password) × (f.client_id ≡ truthy c.client_id)

length-keep_snoc :
    {A : Type 0} (p : A → Bool) (xs : List A) (x : A)
    → length (keep p (xs ++ x ∷ [])) ≡ length (keep p xs) + (if p x then 1 else 0)
length-keep_snoc p [] x = ground arith
length-keep_snoc p (y ∷ ys) x = ground (arith, length-keep_snoc p ys x)

-- The counting behind a further JOIN, and behind the first one.
count_again :
    (k k' : ℕ) (b u u' : Bool)
    → k' ≡ k + (if b then 1 else 0)
    → b ≡ false
    → u' ≡ u
    → (u ≡ false → k ≡ 0)
    → k ≤ 1
    → (u' ≡ false → k' ≡ 0) × (k' ≤ 1)
count_again k k' b u u' e f g z l = ground arith

count_first :
    (k k' : ℕ) (b u u' : Bool)
    → k' ≡ k + (if b then 1 else 0)
    → u ≡ false
    → u' ≡ true
    → (u ≡ false → k ≡ 0)
    → (u' ≡ false → k' ≡ 0) × (k' ≤ 1)
count_first k k' b u u' e f g z = ground arith

module _ {N : Type 0} ⦃n : Number N⦄ where
  record IsFresh (creds : Creds) (w : Ws N) : Type 0 where
    sound : IsSound (link w.self)
    same_creds : w.self.creds ≡ creds
    no_joins : joins w.out ≡ []
    unsent : w.self.first_join_sent ≡ false

  connect-IsFresh :
      (url_ok : String → Bool) (pool : NumMap ℕ) (id tab : ℕ) (creds : Creds)
      (session : SessionState N) (w : Ws N)
      → connect url_ok pool id tab creds session ≡ some w
      → IsFresh creds w
  unfolding connect new_runtime
  connect-IsFresh url_ok pool id tab creds session w e =
      let w0 : Ws N = record {
        pool = insert tab id pool;
        self = new_runtime id tab creds session;
        out = [];
      } in
      subst (IsFresh creds) (guarded_some (has tab pool) _ w e) (record {
        sound =
            idle-IsSound (open_socket url_ok w0)
              (open_socket-IsIdle url_ok w0 (refl, refl, refl, refl));
        same_creds = (open_socket-IsKept url_ok w0).same_creds;
        no_joins = (open_socket-IsQuiet url_ok w0).same_joins;
        unsent = (open_socket-IsKept url_ok w0).same_latch;
      })

  abbrev IsBound : Creds → Ws N → Type 0
  IsBound c w = (w.self.creds ≡ c) × All (IsFrom c) (joins w.out)

  join_frame-IsFrom :
      (c : Creds) (b : Bool) (r : Runtime N) → r.creds ≡ c → IsFrom c (join_frame b r)
  unfolding join_frame
  join_frame-IsFrom c b r e = (ap (λ c. c.sync_password) e, ap (λ c. truthy c.client_id) e)

  Joining-IsBound : (c : Creds) (w w' : Ws N) → Joining w w' → IsBound c w → IsBound c w'
  Joining-IsBound c w w' (silent q e h) (b, a) = (e ∙ b, subst (All (IsFrom c)) (sym q) a)
  Joining-IsBound c w w' (again r rc j e h) (b, a) = (
    e ∙ b,
    subst (All (IsFrom c)) (sym j)
        (All-append (IsFrom c) (joins w.out) (_ ∷ []) a (join_frame-IsFrom c false r (rc ∙ b), tt)),
  )
  Joining-IsBound c w w' (first r rc f j e h) (b, a) = (
    e ∙ b,
    subst (All (IsFrom c)) (sym j)
        (All-append (IsFrom c) (joins w.out) (_ ∷ []) a (join_frame-IsFrom c true r (rc ∙ b), tt)),
  )

  abbrev IsOnce : Ws N → Type 0
  IsOnce w =
      (w.self.first_join_sent ≡ false → content_joins (joins w.out) ≡ 0)
      × (content_joins (joins w.out) ≤ 1)

  rejoin_content : (r : Runtime N) → has_content (join_frame false r) ≡ false
  unfolding join_frame
  rejoin_content r = refl

  Joining-IsOnce : (w w' : Ws N) → Joining w w' → IsOnce w → IsOnce w'
  Joining-IsOnce w w' (silent q e h) (z, l) =
      (λ u. ap content_joins q ∙ z (sym h ∙ u), subst (λ fs. content_joins fs ≤ 1) (sym q) l)
  Joining-IsOnce w w' (again r rc j e h) (z, l) =
      count_again _ _ (has_content (join_frame false r)) w.self.first_join_sent _
        (ap content_joins j ∙ length-keep_snoc has_content (joins w.out) (join_frame false r))
        (rejoin_content r) h z l
  Joining-IsOnce w w' (first r rc f j e h) (z, l) =
      count_first (content_joins (joins w.out)) _ (has_content (join_frame true r))
        w.self.first_join_sent _
        (ap content_joins j ∙ length-keep_snoc has_content (joins w.out) (join_frame true r)) f h z

  run-IsBound :
      (url_ok : String → Bool) (same : N → N → Bool) (c : Creds) (es : List (Event N)) (w : Ws N)
      → IsSound (link w.self)
      → IsBound c w
      → IsBound c (run url_ok same w es)
  unfolding run
  run-IsBound url_ok same c [] w v b = b
  run-IsBound url_ok same c (e ∷ es) w v b =
      run-IsBound url_ok same c es (step url_ok same w e) (step-IsSound url_ok same w e v)
        (Joining-IsBound c w _ (step-Joining url_ok same w e v) b)

  run-IsOnce :
      (url_ok : String → Bool) (same : N → N → Bool) (es : List (Event N)) (w : Ws N)
      → IsSound (link w.self)
      → IsOnce w
      → IsOnce (run url_ok same w es)
  unfolding run
  run-IsOnce url_ok same [] w v b = b
  run-IsOnce url_ok same (e ∷ es) w v b =
      run-IsOnce url_ok same es (step url_ok same w e) (step-IsSound url_ok same w e v)
        (Joining-IsOnce w _ (step-Joining url_ok same w e v) b)

  -- Every JOIN that a runtime sends in its life carries the password and the client id with which
  -- `connect` was called, whatever ROOM_STATE frames have assigned since.
  pub run-IsFrom :
      (url_ok : String → Bool) (same : N → N → Bool) (pool : NumMap ℕ) (id tab : ℕ) (creds : Creds)
      (session : SessionState N) (w : Ws N) (es : List (Event N))
      → connect url_ok pool id tab creds session ≡ some w
      → All (IsFrom creds) (joins (run url_ok same w es).out)
  run-IsFrom url_ok same pool id tab creds session w es e =
      let v = connect-IsFresh url_ok pool id tab creds session w e in
      (run-IsBound url_ok same creds es w v.sound
        (v.same_creds, subst (All (IsFrom creds)) (sym v.no_joins) _)).1

  -- In its life, over all its reconnects, a runtime sends at most one JOIN that names the video or
  -- the catalogue of its tab.
  pub run_content_once :
      (url_ok : String → Bool) (same : N → N → Bool) (pool : NumMap ℕ) (id tab : ℕ) (creds : Creds)
      (session : SessionState N) (w : Ws N) (es : List (Event N))
      → connect url_ok pool id tab creds session ≡ some w
      → content_joins (joins (run url_ok same w es).out) ≤ 1
  run_content_once url_ok same pool id tab creds session w es e =
      let v = connect-IsFresh url_ok pool id tab creds session w e in
      (run-IsOnce url_ok same es w v.sound (
        λ u. ap content_joins v.no_joins,
        subst (λ fs. content_joins fs ≤ 1) (sym v.no_joins) (omega arith),
      )).1
