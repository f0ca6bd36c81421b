-- ===== src/Toasts/Tidy.antt =====
-- What the stack of toasts of extension/src/ui/notifications.ts keeps to in any run.
use playback_sync.Base.{
  ℕ, suc, ◌≤◌, ◌<◌, true, ◌≡◌, refl, ap, sym, ◌∙◌, subst, Option, List, [], ◌∷◌, ◌++◌, String,
  arith, All, All-append, length, ltb, if-split, Option-split,
}
use playback_sync.Toasts.{
  Toast, Toasts, max_toasts, remove_child, retext, set_flag, invalidated, remove_toast,
  reset_toast_timer, evict, append_toast, add_toast, update_toast, existing, show_text,
  dismiss_toast, show_badge,
}
use playback_sync.Toasts.Runs.{element_gone}
use playback_sync.Toasts.Stack.{
  below_suc, length-map-retext, IsKeyed-retext, IsOrdered-retext, Goes, Goes-set_flag,
  Goes-dismissed, Goes-removed, IsOrdered, IsKeyed, remove_head, All-remove_child,
  length-remove_child, IsOrdered-remove_child, IsKeyed-keep, is_connected_last, IsKeyed-append,
  IsKeyed-keyed, All-map, IsOrdered-append,
}

module _ {N : Type 0} where
  pub record IsTidy (s : Toasts N) : Type 0 where
    pub bounded : length s.stack ≤ max_toasts
    pub alive : All (Goes s.ticking s.leaving) s.stack
    pub keyed : IsKeyed s.stack s.active_by_key
    pub ordered : IsOrdered s.stack
    pub below : All (λ t. t.id < s.next) s.stack

  -- A stack that the loop trims.
  record Trims (s u : Toasts N) : Type 1 where
    pub ticking : u.ticking ≡ s.ticking
    pub leaving : u.leaving ≡ s.leaving
    pub next : u.next ≡ s.next
    pub all : (P : Toast → Type 0) → All P s.stack → All P u.stack
    pub keyed : IsKeyed s.stack s.active_by_key → IsKeyed u.stack u.active_by_key
    pub ordered : IsOrdered s.stack → IsOrdered u.stack
    pub bounded : length u.stack ≤ max_toasts

  evict-Trims : (ts : List Toast) (s : Toasts N) → s.stack ≡ ts → Trims s (evict ts s)
  unfolding evict remove_toast
  evict-Trims [] s e = record {
    ticking = refl;
    leaving = refl;
    next = refl;
    all = λ P h. h;
    keyed = λ h. h;
    ordered = λ h. h;
    bounded = omega (arith, ap (length {A = Toast}) e);
  }
  evict-Trims (t ∷ ts) s e =
      if-split (Trims s) (ltb max_toasts (length (t ∷ ts))) _ s
        (λ q.
          let r =
            evict-Trims ts (remove_toast t.id s) (ap (remove_child t.id) e ∙ remove_head t ts) in
          record {
            ticking = r.ticking;
            leaving = r.leaving;
            next = r.next;
            all = λ P h. r.all P (All-remove_child P t.id s.stack h);
            keyed = λ h. r.keyed (IsKeyed-keep t.id s.stack s.active_by_key h);
            ordered = λ h. r.ordered (IsOrdered-remove_child t.id s.stack h);
            bounded = r.bounded;
          })
        (λ q. record {
          ticking = refl;
          leaving = refl;
          next = refl;
          all = λ P h. h;
          keyed = λ h. h;
          ordered = λ h. h;
          bounded = subst (λ xs. length xs ≤ max_toasts) (sym e) (ground arith);
        })

  pub add_toast-IsTidy :
      (key : Option String) (text : String) (s : Toasts N)
      → IsTidy s
      → IsTidy (add_toast key text s)
  unfolding add_toast append_toast reset_toast_timer
  add_toast-IsTidy key text s h =
      let t : Toast = record { id = s.next; text = text } in
      let u = append_toast key text s in
      let e = evict-Trims u.stack u refl in
      let all : All (Goes (set_flag s.next true s.ticking) s.leaving) (s.stack ++ t ∷ []) =
        All-append (Goes (set_flag s.next true s.ticking) s.leaving) s.stack (t ∷ [])
          (Goes-set_flag s.next s.ticking s.leaving s.stack h.alive) (ground arith, tt) in
      record {
        bounded = e.bounded;
        alive =
            subst
              (λ f.
                All (Goes (set_flag s.next true f) (evict u.stack u).leaving)
                  (evict u.stack u).stack)
              (sym e.ticking)
              (subst (λ g. All (Goes (set_flag s.next true s.ticking) g) (evict u.stack u).stack)
                (sym e.leaving) (e.all (Goes (set_flag s.next true s.ticking) s.leaving) all));
        keyed = e.keyed (
            IsKeyed-keyed key s.next (s.stack ++ t ∷ []) s.active_by_key
              (is_connected_last t s.stack)
              (IsKeyed-append s.stack (t ∷ []) s.active_by_key h.keyed));
        ordered = e.ordered (IsOrdered-append t s.stack h.below h.ordered);
        below =
            subst (λ n. All (λ x. x.id < n) (evict u.stack u).stack) (sym e.next)
              (e.all (λ x. x.id < suc s.next)
                (All-append (λ x. x.id < suc s.next) s.stack (t ∷ [])
                  (below_suc s.next s.stack h.below) (omega arith, tt)));
      }

  pub update_toast-IsTidy :
      (id : ℕ) (text : String) (s : Toasts N) → IsTidy s → IsTidy (update_toast id text s)
  unfolding update_toast reset_toast_timer
  update_toast-IsTidy id text s h = record {
    bounded = subst (λ n. n ≤ max_toasts) (sym (length-map-retext id text s.stack)) h.bounded;
    alive =
        All-map (Goes s.ticking s.leaving) (Goes (set_flag id true s.ticking) s.leaving)
          (retext id text) s.stack (λ t g. ground arith) h.alive;
    keyed = IsKeyed-retext id text s.stack s.active_by_key h.keyed;
    ordered = IsOrdered-retext id text s.stack h.ordered;
    below =
        All-map (λ t. t.id < s.next) (λ t. t.id < s.next) (retext id text) s.stack
          (λ t g. ground arith) h.below;
  }

  pub show_text-IsTidy :
      (key : Option String) (text : String) (s : Toasts N)
      → IsTidy s
      → IsTidy (show_text key text s)
  unfolding show_text
  show_text-IsTidy key text s h =
      Option-split IsTidy (existing key s) (add_toast key text s) (λ id. update_toast id text s)
        (add_toast-IsTidy key text s h) (λ id e. update_toast-IsTidy id text s h)

  pub show_badge-IsTidy :
      (nickname : String) (s : Toasts N) → IsTidy s → IsTidy (show_badge nickname s)
  unfolding show_badge
  show_badge-IsTidy nickname s h = record {
    bounded = h.bounded;
    alive = h.alive;
    keyed = h.keyed;
    ordered = h.ordered;
    below = below_suc s.next s.stack h.below;
  }

  pub dismiss_toast-IsTidy : (id : ℕ) (s : Toasts N) → IsTidy s → IsTidy (dismiss_toast id s)
  unfolding dismiss_toast
  dismiss_toast-IsTidy id s h = record {
    bounded = h.bounded;
    alive = Goes-dismissed id s.ticking s.leaving s.stack h.alive;
    keyed = h.keyed;
    ordered = h.ordered;
    below = h.below;
  }

  pub element_gone-IsTidy : (id : ℕ) (s : Toasts N) → IsTidy s → IsTidy (element_gone id s)
  unfolding element_gone remove_toast
  element_gone-IsTidy id s h =
      let l = length-remove_child id s.stack in
      let b = h.bounded in
      record {
        bounded = omega (arith, l, b);
        alive = Goes-removed id s.ticking s.leaving s.stack h.ordered h.alive;
        keyed = IsKeyed-keep id s.stack s.active_by_key h.keyed;
        ordered = IsOrdered-remove_child id s.stack h.ordered;
        below = All-remove_child (λ t. t.id < s.next) id s.stack h.below;
      }

  pub invalidated-IsTidy : (s : Toasts N) → IsTidy (invalidated s)
  unfolding invalidated
  invalidated-IsTidy s = record {
    bounded = omega arith;
    alive = tt;
    keyed = tt;
    ordered = tt;
    below = tt;
  }
