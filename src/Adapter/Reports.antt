-- ===== src/Adapter/Reports.antt =====
-- What the adapters of extension/src/adapters/base.ts report of themselves, and what they leave behind.
use playback_sync.Base.{
  sym, ◌∙◌, ℕ, suc, ◌+◌, ◌≤◌, true, false, ◌≡◌, refl, ap, ◌∙◌, subst, none, some, List, [], ◌∷◌,
  ◌++◌, arith, if◌then◌else◌, ltb, ◌==◌, if-split,
}
use playback_sync.Messages.{play, pause, seek, nudge_rate, cursor_change}
use playback_sync.Adapter.{
  Output, fail, set_identity, emit_cursor_trigger, apply_cursor_change, cleaned, emit, Phase,
  waiting, over, Adapter, new_adapter, init, fail_init, announce, init_resumed, run_cleanups,
  destroy, on_cleanup, cursor_triggered, handle_page_command, Step, started, settled, destroyed,
  registered, triggered, commanded, Reach, start, later,
}

-- How often the adapter has said what became of its `init`.
abbrev pub verdicts : {N : Type 0} → List (Output N) → ℕ
verdicts [] = 0
verdicts (fail ∷ os) = suc (verdicts os)
verdicts (set_identity i ∷ os) = suc (verdicts os)
verdicts (_ ∷ os) = verdicts os

-- How often a callback has been called, and how often it waits.
abbrev pub called : {N : Type 0} → ℕ → List (Output N) → ℕ
called k [] = 0
called k (cleaned j ∷ os) = (if j == k then 1 else 0) + called k os
called k (_ ∷ os) = called k os

abbrev pub waits : ℕ → List ℕ → ℕ
waits k [] = 0
waits k (j ∷ js) = (if j == k then 1 else 0) + waits k js

waits-snoc :
    (k j : ℕ) (js : List ℕ) → waits k (js ++ j ∷ []) ≡ waits k js + (if j == k then 1 else 0)
waits-snoc k j [] = omega arith
waits-snoc k j (i ∷ js) = omega (arith, waits-snoc k j js)

-- How many verdicts there are at most, by how far `init` has come.
abbrev pub allowed : Phase → ℕ
allowed over = 1
allowed _ = 0

module _ {N : Type 0} where
  called-run_cleanups :
      (k : ℕ) (ks : List ℕ) (out : List (Output N))
      → called k (run_cleanups ks out) ≡ waits k ks + called k out
  unfolding run_cleanups
  called-run_cleanups k [] out = omega arith
  called-run_cleanups k (j ∷ js) out = omega (arith, called-run_cleanups k js (cleaned j ∷ out))

  verdicts-run_cleanups :
      (ks : List ℕ) (out : List (Output N)) → verdicts (run_cleanups ks out) ≡ verdicts out
  unfolding run_cleanups
  verdicts-run_cleanups [] out = refl
  verdicts-run_cleanups (j ∷ js) out = verdicts-run_cleanups js (cleaned j ∷ out)

  pub record IsOrderly (a : Adapter N) : Type 0 where
    pub verdict : verdicts a.out ≤ allowed a.phase
    pub settles : a.aborted ≡ false → verdicts a.out ≡ allowed a.phase
    pub context : a.aborted ≡ false → a.phase ≡ waiting → a.held ≡ true
    pub tidied : (k : ℕ) → called k a.out + waits k a.cleanups ≡ (if ltb k a.fresh then 1 else 0)

  -- A call that is no verdict and no callback.
  reported :
      (o : Output N) (a : Adapter N)
      → verdicts (o ∷ a.out) ≡ verdicts a.out
      → ((k : ℕ) → called k (o ∷ a.out) ≡ called k a.out)
      → IsOrderly a
      → IsOrderly (emit o a)
  reported o a v c h = record {
    verdict = omega (arith, v, h.verdict);
    settles = λ q. v ∙ h.settles q;
    context = h.context;
    tidied = λ k. omega (arith, c k, h.tidied k);
  }

  Step-IsOrderly : {a b : Adapter N} → Step a b → IsOrderly a → IsOrderly b
  unfolding init init_resumed fail_init announce destroy on_cleanup cursor_triggered
      handle_page_command
  Step-IsOrderly {a} (started e) h = record {
    verdict = subst (λ p. verdicts a.out ≤ allowed p) e h.verdict;
    settles = λ q. h.settles q ∙ ap allowed e;
    context = λ q r. refl;
    tidied = h.tidied;
  }
  Step-IsOrderly {a} (settled none e) h =
      let z : verdicts a.out ≤ 0 = subst (λ p. verdicts a.out ≤ allowed p) e h.verdict in
      record {
        verdict = ground arith;
        settles = λ q. ground arith;
        context = λ q r. ground arith;
        tidied = λ k. ground (arith, h.tidied k);
      }
  Step-IsOrderly {a} (settled (some i) e) h =
      let z : verdicts a.out ≤ 0 = subst (λ p. verdicts a.out ≤ allowed p) e h.verdict in
      record {
        verdict = ground arith;
        settles = λ q. ground arith;
        context = λ q r. ground arith;
        tidied = λ k. ground (arith, h.tidied k);
      }
  Step-IsOrderly {a} destroyed h = record {
    verdict = omega (arith, verdicts-run_cleanups a.cleanups a.out, h.verdict);
    settles = λ q. cc;
    context = λ q r. cc;
    tidied = λ k. omega (arith, called-run_cleanups k a.cleanups a.out, h.tidied k);
  }
  Step-IsOrderly {a} registered h = record {
    verdict = h.verdict;
    settles = h.settles;
    context = h.context;
    tidied = λ k. ground (arith, h.tidied k, waits-snoc k a.fresh a.cleanups);
  }
  Step-IsOrderly {a} (triggered target) h =
      if-split IsOrderly a.held _ a
        (λ e. reported (emit_cursor_trigger target) a refl (λ k. refl) h) (λ e. h)
  Step-IsOrderly (commanded play e) h = h
  Step-IsOrderly (commanded pause e) h = h
  Step-IsOrderly (commanded (seek time) e) h = h
  Step-IsOrderly (commanded (nudge_rate target_pos) e) h = h
  Step-IsOrderly {a} (commanded (cursor_change page_url) e) h =
      reported (apply_cursor_change page_url) a refl (λ k. refl) h

  -- The end of `init`: one verdict, or none of an adapter that was destroyed before.
  abbrev pub Settles : Adapter N → Type 0
  Settles a =
      (b : Adapter N)
      → Step a b
      → a.phase ≡ waiting
      → b.phase ≡ over
      → verdicts b.out ≡ (if a.aborted then 0 else 1)

  IsOrderly-Settles : (a : Adapter N) → IsOrderly a → Settles a
  unfolding init init_resumed fail_init announce destroy on_cleanup cursor_triggered
      handle_page_command
  IsOrderly-Settles a h b (started e) w o = cc
  IsOrderly-Settles a h b (settled none e) w o =
      let z : verdicts a.out ≤ 0 = subst (λ p. verdicts a.out ≤ allowed p) e h.verdict in
      ground (arith, h.context)
  IsOrderly-Settles a h b (settled (some i) e) w o =
      let z : verdicts a.out ≤ 0 = subst (λ p. verdicts a.out ≤ allowed p) e h.verdict in
      ground arith
  IsOrderly-Settles a h b destroyed w o = cc (sym w ∙ o)
  IsOrderly-Settles a h b registered w o = cc (sym w ∙ o)
  IsOrderly-Settles a h b (triggered target) w o =
      cc (sym w ∙ if-split (λ u. a.phase ≡ u.phase) a.held _ a (λ q. refl) (λ q. refl) ∙ o)
  IsOrderly-Settles a h b (commanded play e) w o = cc (sym w ∙ o)
  IsOrderly-Settles a h b (commanded pause e) w o = cc (sym w ∙ o)
  IsOrderly-Settles a h b (commanded (seek time) e) w o = cc (sym w ∙ o)
  IsOrderly-Settles a h b (commanded (nudge_rate target_pos) e) w o = cc (sym w ∙ o)
  IsOrderly-Settles a h b (commanded (cursor_change page_url) e) w o = cc (sym w ∙ o)

  Reach-IsOrderly_alone : {a : Adapter N} → Reach a → IsOrderly a
  unfolding new_adapter
  Reach-IsOrderly_alone start = record {
    verdict = omega arith;
    settles = λ q. refl;
    context = λ q r. cc;
    tidied = λ k. ground arith;
  }
  Reach-IsOrderly_alone (later r st) = Step-IsOrderly st (Reach-IsOrderly_alone r)

  -- In whatever order an adapter is started, settled, destroyed and called: it says at most once what became
  -- of its `init`, and not before its wait for the page is over. The step that ends `init` says it, a
  -- failure as well, unless the adapter was destroyed before: then it says nothing. It holds its context
  -- while it waits, unless it was destroyed; and each callback of `onCleanup` has been called or waits for
  -- its call, once in all.
  pub Reach-IsOrderly : {a : Adapter N} → Reach a → IsOrderly a × Settles a
  Reach-IsOrderly {a} r = let h = Reach-IsOrderly_alone r in (h, IsOrderly-Settles a h)
