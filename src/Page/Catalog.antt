-- ===== src/Page/Catalog.antt =====
-- The reports of catalogues that extension/src/adapters/runtime.ts makes.
use text.Mathlib.Text.{◌==◌ as str_eq}
use playback_sync.Base.{
  ℕ, ◌+◌, ◌≤◌, Bool, true, false, not, ◌≡◌, refl, sym, ◌∙◌, Option, none, some, List, [], ◌∷◌,
  String, arith, leb, ◌==◌, if-split, Option-split,
}
use playback_sync.Protocol.Frames.{VideoRefWithMeta}
use playback_sync.Messages.{AuthoritativeCommand}
use playback_sync.Page.{
  Candidate, PageState, idle, active, failed, Output, destroy, send_catalog, Page, emit, is_active,
  new_page, evaluate, run_catalog_scrape, scrape_settled, settle, init_resolved, fail, adopt,
  on_command, set_identity, emit_cursor_trigger, hand, deliver_command, teardown, set_room_active,
  handle_location_change,
}
use playback_sync.Page.Runs.{
  Event, room, command, moved, location_change, resolved, rejected, registered, gave_up, identified,
  triggered, scraped, step, run,
}

abbrev pub one : Bool → ℕ
one true = 1
one false = 0

is_active-adopt :
    (a b : ℕ) (adapters : ℕ → Candidate) (s : PageState)
    → is_active a (adopt b adapters s) ≡ is_active a s
is_active-adopt a b adapters idle = refl
is_active-adopt a b adapters (active c handler) = ground arith
is_active-adopt a b adapters (failed id reason) = refl

module _ {N : Type 0} (a : ℕ) where
  -- How often the adapter's catalogue was reported.
  abbrev pub reports : List (Output N) → ℕ
  reports [] = 0
  reports (send_catalog b id result ∷ os) = one (a == b) + reports os
  reports (_ ∷ os) = reports os

  -- An adapter is yet to be made, is being initialised, is scraping, has reported, or none of these.
  pub record IsReported (p : Page N) : Type 0 where
    pub at_most : one (leb p.fresh a) + one (p.inits a) + one (p.scrapes a) + reports p.out ≤ 1
    pub when_active : is_active a p.state ≡ true → reports p.out + one (p.scrapes a) ≡ 1

  evaluate-IsReported :
      (claims : String → Option Candidate) (p : Page N)
      → IsReported p
      → IsReported (evaluate claims p)
  unfolding evaluate
  evaluate-IsReported claims p h =
      if-split IsReported (not p.room_active) p _ (λ q. h)
        (λ q.
          Option-split IsReported (claims p.href) _ _
            (record { at_most = h.at_most; when_active = λ e. cc })
            (λ c e.
              let l = h.at_most in record { at_most = ground arith; when_active = h.when_active }))

  init_resolved-IsReported :
      (b : ℕ) (p : Page N)
      → p.inits b ≡ true
      → IsReported p
      → IsReported (init_resolved b (settle b p))
  unfolding init_resolved run_catalog_scrape
  init_resolved-IsReported b p i h = ground arith

  scrape_settled-IsReported :
      (b : ℕ) (result : Option (List (VideoRefWithMeta N))) (p : Page N)
      → p.scrapes b ≡ true
      → IsReported p
      → IsReported (scrape_settled b result p)
  unfolding scrape_settled
  scrape_settled-IsReported b result p i h = ground arith

  failed-IsReported :
      (b : ℕ) (reason : String) (p : Page N) → IsReported p → IsReported (fail b reason p)
  unfolding fail
  failed-IsReported b reason p h = record { at_most = h.at_most; when_active = λ e. cc }

  settle-IsReported : (b : ℕ) (p : Page N) → IsReported p → IsReported (settle b p)
  settle-IsReported b p h = ground arith

  on_command-IsReported : (b : ℕ) (p : Page N) → IsReported p → IsReported (on_command b p)
  unfolding on_command
  on_command-IsReported b p h = record {
    at_most = h.at_most;
    when_active = λ e. h.when_active (sym (is_active-adopt a b p.adapters p.state) ∙ e);
  }

  hand-IsReported :
      (o : Option ℕ) (cmd : AuthoritativeCommand N) (p : Page N)
      → IsReported p
      → IsReported (hand o cmd p)
  hand-IsReported none cmd p h = h
  hand-IsReported (some b) cmd p h = record { at_most = h.at_most; when_active = h.when_active }

  deliver_command-IsReported :
      (cmd : AuthoritativeCommand N) (p : Page N)
      → IsReported p
      → IsReported (deliver_command cmd p)
  unfolding deliver_command
  deliver_command-IsReported cmd p h =
      elim p.state
        as (λ s.
          IsReported
            (elim s [ idle ↦ p | active b handler ↦ hand handler cmd p | failed id reason ↦ p ])) [
              | idle ↦ h
              | active b handler ↦ hand-IsReported handler cmd p h
              | failed id reason ↦ h
            ]

  teardown-IsReported : (p : Page N) → IsReported p → IsReported (teardown p)
  unfolding teardown
  teardown-IsReported p h =
      elim p.state
        as (λ s.
          IsReported
            (record (elim s [
              | idle ↦ p
              | active b handler ↦ emit (destroy b) p
              | failed id reason ↦ p
            ]) { state = idle; pending_handler = none })) [
              | idle ↦ record { at_most = h.at_most; when_active = λ e. cc }
              | active b handler ↦ record { at_most = h.at_most; when_active = λ e. cc }
              | failed id reason ↦ record { at_most = h.at_most; when_active = λ e. cc }
            ]

  fresh-IsReported : (href : String) → IsReported (new_page {N = N} href)
  unfolding new_page
  fresh-IsReported href = ground arith

  module _ (claims : String → Option Candidate) where
    set_room_active-IsReported :
        (on : Bool) (p : Page N) → IsReported p → IsReported (set_room_active claims on p)
    unfolding set_room_active
    set_room_active-IsReported true p h =
        if-split IsReported p.room_active p _ (λ q. h)
          (λ q.
            evaluate-IsReported claims (record p { room_active = true })
              (record { at_most = h.at_most; when_active = h.when_active }))
    set_room_active-IsReported false p h =
        if-split IsReported p.room_active _ p
          (λ q.
            teardown-IsReported (record p { room_active = false })
              (record { at_most = h.at_most; when_active = h.when_active }))
          (λ q. h)

    location-IsReported : (p : Page N) → IsReported p → IsReported (handle_location_change claims p)
    unfolding handle_location_change
    location-IsReported p h =
        let u = record p { last_href = p.href } in
        if-split IsReported (str_eq p.href p.last_href) p _ (λ q. h)
          (λ q.
            evaluate-IsReported claims (teardown u)
              (teardown-IsReported u (record { at_most = h.at_most; when_active = h.when_active })))

    step-IsReported : (p : Page N) (e : Event N) → IsReported p → IsReported (step claims p e)
    unfolding step set_identity emit_cursor_trigger
    step-IsReported p (room on) h = set_room_active-IsReported on p h
    step-IsReported p (command cmd) h = deliver_command-IsReported cmd p h
    step-IsReported p (moved href) h = record { at_most = h.at_most; when_active = h.when_active }
    step-IsReported p location_change h = location-IsReported p h
    step-IsReported p (resolved b) h =
        if-split IsReported (p.inits b) _ p (λ q. init_resolved-IsReported b p q h) (λ q. h)
    step-IsReported p (rejected b reason) h =
        if-split IsReported (p.inits b) _ p
          (λ q. failed-IsReported b reason (settle b p) (settle-IsReported b p h)) (λ q. h)
    step-IsReported p (registered b) h = on_command-IsReported b p h
    step-IsReported p (gave_up b reason) h = failed-IsReported b reason p h
    step-IsReported p (identified b identity) h = record {
      at_most = h.at_most;
      when_active = h.when_active;
    }
    step-IsReported p (triggered b target) h = record {
      at_most = h.at_most;
      when_active = h.when_active;
    }
    step-IsReported p (scraped b result) h =
        if-split IsReported (p.scrapes b) _ p (λ q. scrape_settled-IsReported b result p q h)
          (λ q. h)

    all-IsReported :
        (p : Page N) (es : List (Event N)) → IsReported p → IsReported (run claims p es)
    unfolding run
    all-IsReported p [] h = h
    all-IsReported p (e ∷ es) h = all-IsReported (step claims p e) es (step-IsReported p e h)

    scraped_once :
        (p : Page N) (result : Option (List (VideoRefWithMeta N)))
        → IsReported p
        → is_active a p.state ≡ true
        → reports (step claims p (scraped a result)).out ≡ 1
    unfolding step scrape_settled
    scraped_once p result h e = let w = h.when_active e in ground (arith, w)

    -- In any run the catalogue of an adapter is reported at most once; that of the active adapter is
    -- reported exactly once, or its scrape or the timeout is still to come and then reports it.
    pub run_reported :
        (href : String) (es : List (Event N))
        → let p = run claims (new_page href) es in
          (reports p.out ≤ 1)
          × (is_active a p.state ≡ true → reports p.out + one (p.scrapes a) ≡ 1)
          × ((result : Option (List (VideoRefWithMeta N)))
              → is_active a p.state ≡ true
              → reports (step claims p (scraped a result)).out ≡ 1)
    run_reported href es =
        let p = run claims (new_page href) es in
        let h = all-IsReported (new_page href) es (fresh-IsReported href) in
        let m = h.at_most in (omega arith, h.when_active, λ result e. scraped_once p result h e)
