-- ===== src/Page.antt =====
-- The runtime of the page frame, extension/src/adapters/runtime.ts, behind `start`: the adapter of the site,
-- its activation while the tab is in a room and at every change of the address, and the one report of
-- its catalogue. As in the media frame, an adapter is the number of its activation. `claims` is the
-- first adapter of the registry that can handle an address.
pub mod Runs
pub mod Catalog
use text.Mathlib.Text.{◌==◌ as str_eq}
use playback_sync.Base.{
  ℕ, ◌+◌, Bool, true, false, not, Option, none, some, List, [], ◌∷◌, String, if◌then◌else◌, ◌==◌,
}
use playback_sync.Protocol.Frames.{VideoRefWithMeta}
use playback_sync.Messages.{AuthoritativeCommand, ContentIdentity}

pub record Candidate : Type 0 where
  pub adapter_id : String
  pub guard_navigation : Bool
  pub scrapes_catalog : Bool

pub data PageState : Type 0 where
  idle : PageState
  active : ℕ → Option ℕ → PageState
  failed : String → String → PageState

pub data Output (N : Type 0) : Type 0 where
  init : ℕ → Output N
  destroy : ℕ → Output N
  handle : ℕ → AuthoritativeCommand N → Output N
  send_identity : String → ContentIdentity → Bool → Output N
  send_fail : String → String → Output N
  send_catalog : ℕ → String → Option (List (VideoRefWithMeta N)) → Output N
  send_cursor_trigger : String → VideoRefWithMeta N → Output N

-- `inits` are the adapters whose `init` is awaited, `scrapes` those whose race of the scrape with its
-- timeout is. The outputs stand newest first.
pub record Page (N : Type 0) : Type 0 where
  pub room_active : Bool
  pub href : String
  pub last_href : String
  pub state : PageState
  pub pending_handler : Option ℕ
  pub adapters : ℕ → Candidate
  pub inits : ℕ → Bool
  pub scrapes : ℕ → Bool
  pub fresh : ℕ
  pub out : List (Output N)

abbrev pub is_failed : PageState → Bool
is_failed (failed id reason) = true
is_failed _ = false

abbrev pub is_active : ℕ → PageState → Bool
is_active a (active b handler) = a == b
is_active a _ = false

abbrev pub set : ℕ → Bool → (ℕ → Bool) → ℕ → Bool
set a b f j = if a == j then b else f j

abbrev no_candidate : Candidate
no_candidate = record { adapter_id = ""; guard_navigation = false; scrapes_catalog = false }

-- `onCommand` compares the ids of the adapters.
abbrev pub adopt : ℕ → (ℕ → Candidate) → PageState → PageState
adopt a adapters (active b handler) =
    if str_eq (adapters b).adapter_id (adapters a).adapter_id
    then active b (some a)
    else active b handler
adopt a adapters s = s

module _ {N : Type 0} where
  abbrev pub emit : Output N → Page N → Page N
  emit o p = record p { out = o ∷ p.out }

  -- The variables of the module at the address where the script started.
  unfoldable pub new_page : String → Page N
  new_page href = record {
    room_active = false;
    href = href;
    last_href = href;
    state = idle;
    pending_handler = none;
    adapters = λ j. no_candidate;
    inits = λ j. false;
    scrapes = λ j. false;
    fresh = 0;
    out = [];
  }

  -- `evaluate` up to its await, with `buildContext`.
  unfoldable pub evaluate : (String → Option Candidate) → Page N → Page N
  evaluate claims p = if not p.room_active then p else elim (claims p.href) [
    | none ↦ record p { state = idle }
    | some c ↦ emit (init p.fresh) (record p {
      pending_handler = none;
      adapters = λ j. if p.fresh == j then c else p.adapters j;
      inits = set p.fresh true p.inits;
      fresh = p.fresh + 1;
    })
  ]

  unfoldable pub run_catalog_scrape : ℕ → Page N → Page N
  run_catalog_scrape a p =
      if (p.adapters a).scrapes_catalog
      then record p { scrapes = set a true p.scrapes }
      else emit (send_catalog a (p.adapters a).adapter_id none) p

  -- The race of a scrape with its timeout is decided; a result of an adapter that is no longer
  -- active is discarded.
  unfoldable pub scrape_settled : ℕ → Option (List (VideoRefWithMeta N)) → Page N → Page N
  scrape_settled a result p =
      let u = record p { scrapes = set a false p.scrapes } in
      if is_active a p.state then emit (send_catalog a (p.adapters a).adapter_id result) u else u

  abbrev pub settle : ℕ → Page N → Page N
  settle a p = record p { inits = set a false p.inits }

  abbrev pub activate : ℕ → Page N → Page N
  unfolding run_catalog_scrape
  activate a p =
      run_catalog_scrape a (record p { state = active a p.pending_handler; pending_handler = none })

  -- Behind the await of `init`.
  unfoldable pub init_resolved : ℕ → Page N → Page N
  unfolding run_catalog_scrape
  init_resolved a p =
      if not p.room_active
      then record (emit (destroy a) p) { state = idle }
      else if is_failed p.state
      then p
      else activate a p

  -- The `catch` of `init`, and the `fail` of the context.
  unfoldable pub fail : ℕ → String → Page N → Page N
  fail a reason p =
      let id = (p.adapters a).adapter_id in
      emit (send_fail id reason) (record p { state = failed id reason })

  unfoldable pub on_command : ℕ → Page N → Page N
  on_command a p = record p { pending_handler = some a; state = adopt a p.adapters p.state }

  unfoldable pub set_identity : ℕ → ContentIdentity → Page N → Page N
  set_identity a identity p =
      let c = p.adapters a in emit (send_identity c.adapter_id identity c.guard_navigation) p

  unfoldable pub emit_cursor_trigger : ℕ → VideoRefWithMeta N → Page N → Page N
  emit_cursor_trigger a target p = emit (send_cursor_trigger (p.adapters a).adapter_id target) p

  abbrev hand : Option ℕ → AuthoritativeCommand N → Page N → Page N
  hand none cmd p = p
  hand (some a) cmd p = emit (handle a cmd) p

  unfoldable pub deliver_command : AuthoritativeCommand N → Page N → Page N
  deliver_command cmd p = elim p.state [
    | idle ↦ p
    | active a handler ↦ hand handler cmd p
    | failed id reason ↦ p
  ]

  abbrev dismiss : Page N → Page N
  dismiss p = elim p.state [
    | idle ↦ p
    | active a handler ↦ emit (destroy a) p
    | failed id reason ↦ p
  ]

  unfoldable pub teardown : Page N → Page N
  teardown p = record (dismiss p) { state = idle; pending_handler = none }

  unfoldable pub set_room_active : (String → Option Candidate) → Bool → Page N → Page N
  unfolding evaluate teardown
  set_room_active claims true p =
      if p.room_active then p else evaluate claims (record p { room_active = true })
  set_room_active claims false p =
      if p.room_active then teardown (record p { room_active = false }) else p

  unfoldable pub handle_location_change : (String → Option Candidate) → Page N → Page N
  unfolding evaluate teardown
  handle_location_change claims p =
      if str_eq p.href p.last_href
      then p
      else evaluate claims (teardown (record p { last_href = p.href }))
