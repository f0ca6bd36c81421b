-- ===== src/Adapter.antt =====
-- The skeleton that a site's page adapter fills in, extension/src/adapters/base.ts: `init`, split at its
-- await, the commands, and the teardown. What the hooks of the site decide comes with the steps: the
-- identity that `resolveIdentity` finds, and what `onCleanup` and `emitCursorTrigger` are called with.
pub mod Reports
use playback_sync.Base.{
  ℕ, ◌+◌, Bool, true, false, ◌≡◌, Option, none, some, List, [], ◌∷◌, ◌++◌, String, if◌then◌else◌,
}
use playback_sync.Protocol.Frames.{VideoRefWithMeta}
use playback_sync.Messages.{
  AuthoritativeCommand, play, pause, seek, nudge_rate, cursor_change, ContentIdentity,
}

-- The calls of the context and of the hooks; `cleaned` is the call of a callback of `onCleanup`.
pub data Output (N : Type 0) : Type 0 where
  fail : Output N
  on_command : Output N
  watch_cursor_triggers : Output N
  set_identity : ContentIdentity → Output N
  emit_cursor_trigger : VideoRefWithMeta N → Output N
  apply_cursor_change : String → Output N
  cleaned : ℕ → Output N

-- How far `init` has come: not called, at its await, over.
pub data Phase : Type 0 where
  created : Phase
  waiting : Phase
  over : Phase

-- `held` tells that `ctx` is set, `handles` that the handler of commands is registered. The callbacks of
-- `onCleanup` are numbered as they come. The outputs stand newest first.
pub record Adapter (N : Type 0) : Type 0 where
  pub phase : Phase
  pub held : Bool
  pub aborted : Bool
  pub handles : Bool
  pub cleanups : List ℕ
  pub fresh : ℕ
  pub out : List (Output N)

module _ {N : Type 0} where
  abbrev pub emit : Output N → Adapter N → Adapter N
  emit o a = record a { out = o ∷ a.out }

  unfoldable pub new_adapter : Adapter N
  new_adapter = record {
    phase = created;
    held = false;
    aborted = false;
    handles = false;
    cleanups = [];
    fresh = 0;
    out = [];
  }

  unfoldable pub init : Adapter N → Adapter N
  init a = record a { phase = waiting; held = true }

  -- `this.ctx?.fail` and the abort.
  unfoldable pub fail_init : Adapter N → Adapter N
  fail_init a = let b = record a { aborted = true } in if a.held then emit fail b else b

  unfoldable pub announce : ContentIdentity → Adapter N → Adapter N
  announce identity a =
      emit (set_identity identity)
        (emit watch_cursor_triggers (record (emit on_command a) { handles = true }))

  -- `init` behind its await, with what `resolveIdentity` returns.
  unfoldable pub init_resumed : Option ContentIdentity → Adapter N → Adapter N
  unfolding fail_init announce
  init_resumed identity a =
      let b = record a { phase = over } in
      if a.aborted then b else elim identity [ none ↦ fail_init b | some i ↦ announce i b ]

  unfoldable pub run_cleanups : List ℕ → List (Output N) → List (Output N)
  run_cleanups [] out = out
  run_cleanups (k ∷ ks) out = run_cleanups ks (cleaned k ∷ out)

  unfoldable pub destroy : Adapter N → Adapter N
  unfolding run_cleanups
  destroy a = record a {
    aborted = true;
    cleanups = [];
    held = false;
    out = run_cleanups a.cleanups a.out;
  }

  unfoldable pub on_cleanup : Adapter N → Adapter N
  on_cleanup a = record a { cleanups = a.cleanups ++ a.fresh ∷ []; fresh = a.fresh + 1 }

  unfoldable pub cursor_triggered : VideoRefWithMeta N → Adapter N → Adapter N
  cursor_triggered target a = if a.held then emit (emit_cursor_trigger target) a else a

  unfoldable pub handle_page_command : AuthoritativeCommand N → Adapter N → Adapter N
  handle_page_command (cursor_change page_url) a = emit (apply_cursor_change page_url) a
  handle_page_command play a = a
  handle_page_command pause a = a
  handle_page_command (seek time) a = a
  handle_page_command (nudge_rate target_pos) a = a

  -- `init` is called once, and what it awaits settles once; the runtime hands on commands only to a
  -- registered handler. All else can come at any time.
  pub data Step (a : Adapter N) : Adapter N → Type 0 where
    started : a.phase ≡ created → Step a (init a)
    settled :
        (identity : Option ContentIdentity) → a.phase ≡ waiting → Step a (init_resumed identity a)
    destroyed : Step a (destroy a)
    registered : Step a (on_cleanup a)
    triggered : (target : VideoRefWithMeta N) → Step a (cursor_triggered target a)
    commanded :
        (cmd : AuthoritativeCommand N) → a.handles ≡ true → Step a (handle_page_command cmd a)

  pub data Reach : Adapter N → Type 0 where
    start : Reach new_adapter
    later : {a b : Adapter N} → Reach a → Step a b → Reach b
