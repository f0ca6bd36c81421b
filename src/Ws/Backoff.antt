-- ===== src/Ws/Backoff.antt =====
-- Backing off and giving up in extension/src/background/ws.ts.
use playback_sync.Base.{
  ℕ, ◌+◌, ◌<◌, ◌≤◌, Bool, true, false, ◌≡◌, ap, sym, ◌∙◌, List, [], ◌∷◌, String, leb, length, All,
  arith, Bool-cases, inl, inr,
}
use playback_sync.Ws.Kept.{on_close-IsKept, reconnect_due-IsKept}
use playback_sync.Ws.{Ws, is_terminal}
use playback_sync.Ws.Lifecycle.{on_close, reconnect_due}
use playback_sync.Ws.Attempts.{
  schedule_terminated, schedule_attempt, open_socket_attempt, open_socket_terminated, shut,
  on_close_retries, on_close_over, reconnect_due_over, reconnect_due_opens,
}

module _ {N : Type 0} where
  -- The socket closes, and the reconnect timer opens another.
  unfoldable pub retry : (String → Bool) → Ws N → String → Ws N
  retry url_ok w reason = reconnect_due url_ok (on_close reason w)

  -- One close after another, each before its socket has opened.
  unfoldable pub retries : (String → Bool) → Ws N → List String → Ws N
  retries url_ok w [] = w
  retries url_ok w (reason ∷ reasons) = retries url_ok (retry url_ok w reason) reasons

  retry_over :
      (url_ok : String → Bool) (w : Ws N) (reason : String)
      → w.self.terminated ≡ true
      → (retry url_ok w reason).self.terminated ≡ true
  unfolding retry
  retry_over url_ok w reason t =
      let c = ap {A = Ws N} (λ v. v.self.terminated) (on_close_over reason w t) ∙ t in
      ap (λ v. v.self.terminated) (reconnect_due_over url_ok (on_close reason w) c) ∙ c

  retries_over :
      (url_ok : String → Bool) (reasons : List String) (w : Ws N)
      → w.self.terminated ≡ true
      → (retries url_ok w reasons).self.terminated ≡ true
  unfolding retries
  retries_over url_ok [] w t = t
  retries_over url_ok (r ∷ rs) w t =
      retries_over url_ok rs (retry url_ok w r) (retry_over url_ok w r t)

  retry_creds :
      (url_ok : String → Bool) (w : Ws N) (reason : String)
      → (retry url_ok w reason).self.creds ≡ w.self.creds
  unfolding retry
  retry_creds url_ok w reason =
      (reconnect_due-IsKept url_ok (on_close reason w)).same_creds
      ∙ (on_close-IsKept reason w).same_creds

  closed_terminated :
      (reason : String) (w : Ws N)
      → w.self.terminated ≡ false
      → is_terminal reason ≡ false
      → (on_close reason w).self.terminated ≡ leb 7 w.self.reconnect_attempt
  closed_terminated reason w t h =
      ap {A = Ws N} (λ v. v.self.terminated) (on_close_retries reason w t h)
      ∙ schedule_terminated (shut w) t

  retry_attempt :
      (url_ok : String → Bool) (w : Ws N) (reason : String)
      → w.self.terminated ≡ false
      → is_terminal reason ≡ false
      → w.self.reconnect_attempt < 7
      → (retry url_ok w reason).self.reconnect_attempt ≡ w.self.reconnect_attempt + 1
  unfolding retry
  retry_attempt url_ok w reason t h l =
      ap {A = Ws N} (λ v. v.self.reconnect_attempt)
        (reconnect_due_opens url_ok (on_close reason w)
          (closed_terminated reason w t h ∙ ground arith))
      ∙ open_socket_attempt url_ok (on_close reason w)
      ∙ ap {A = Ws N} (λ v. v.self.reconnect_attempt) (on_close_retries reason w t h)
      ∙ schedule_attempt (shut w)

  retry_terminated :
      (url_ok : String → Bool) (w : Ws N) (reason : String)
      → url_ok w.self.creds.sync_url ≡ true
      → w.self.terminated ≡ false
      → is_terminal reason ≡ false
      → (retry url_ok w reason).self.terminated ≡ leb 7 w.self.reconnect_attempt
  unfolding retry
  retry_terminated url_ok w reason u t h = elim (Bool-cases (leb 7 w.self.reconnect_attempt)) [
    | inl y ↦
        let c = closed_terminated reason w t h ∙ y in
        ap {A = Ws N} (λ v. v.self.terminated) (reconnect_due_over url_ok (on_close reason w) c)
        ∙ c
        ∙ sym y
    | inr m ↦
        let c = closed_terminated reason w t h ∙ m in
        ap {A = Ws N} (λ v. v.self.terminated) (reconnect_due_opens url_ok (on_close reason w) c)
        ∙ open_socket_terminated url_ok (on_close reason w)
            (ap (λ x. url_ok x.sync_url) (on_close-IsKept reason w).same_creds ∙ u)
        ∙ c
        ∙ sym m
  ]

  retries_from :
      (url_ok : String → Bool) (reasons : List String) (a : ℕ) (w : Ws N)
      → a ≤ 7
      → w.self.reconnect_attempt ≡ a
      → url_ok w.self.creds.sync_url ≡ true
      → w.self.terminated ≡ false
      → All (λ r. is_terminal r ≡ false) reasons
      → (retries url_ok w reasons).self.terminated ≡ leb 8 (a + length reasons)
  unfolding retries
  retries_from url_ok [] a w l e u t hs = t ∙ ground arith
  retries_from url_ok (r ∷ rs) a w l e u t (h, hs) = elim (Bool-cases (leb 7 a)) [
    | inl y ↦
        retries_over url_ok rs (retry url_ok w r)
          (retry_terminated url_ok w r u t h ∙ ap (leb 7) e ∙ y)
        ∙ ground arith
    | inr m ↦
        retries_from url_ok rs (a + 1) (retry url_ok w r) (ground arith)
          (retry_attempt url_ok w r t h (ground arith) ∙ ap (λ k. k + 1) e)
          (ap (λ x. url_ok x.sync_url) (retry_creds url_ok w r) ∙ u)
          (retry_terminated url_ok w r u t h ∙ ap (leb 7) e ∙ m) hs
        ∙ ground arith
  ]

  -- A runtime whose attempt counter is fresh, whose URL the browser accepts and whose connections
  -- close one after another without having opened, none with a terminal code, is given up at the
  -- eighth close and no earlier.
  pub retries_terminated :
      (url_ok : String → Bool) (reasons : List String) (w : Ws N)
      → w.self.reconnect_attempt ≡ 0
      → url_ok w.self.creds.sync_url ≡ true
      → w.self.terminated ≡ false
      → All (λ r. is_terminal r ≡ false) reasons
      → (retries url_ok w reasons).self.terminated ≡ leb 8 (length reasons)
  retries_terminated url_ok reasons w e u t hs =
      retries_from url_ok reasons 0 w (omega arith) e u t hs ∙ ap (leb 8) (omega arith)
