-- ===== src/Toasts.antt =====
-- The notices on a page: extension/src/ui/notifications.ts. An element is a number; `stack` are the
-- toasts in the page, oldest first. Calls of `requestAnimationFrame` and the styles are left out, and
-- a context that is invalidated takes its shadow root off the page, as WXT documents.
pub mod Format
pub mod Runs
pub mod Stack
pub mod Tidy
pub mod Steps
pub mod Queue
use text.Mathlib.Text.{◌==◌ as str_eq}
use playback_sync.Base.{
  ℕ, suc, Bool, true, false, not, Option, none, some, List, [], ◌∷◌, ◌++◌, String, if◌then◌else◌,
  ltb, ◌==◌, ◌||◌, ◌&&◌, length, any, keep, map,
}
use playback_sync.Messages.{Notice}

pub record Toast : Type 0 where
  pub id : ℕ
  pub text : String

-- The two lines of the welcome badge.
pub record Badge : Type 0 where
  pub id : ℕ
  pub label : String
  pub name : String

-- `ticking` are the toasts whose timer runs, `leaving` those on their way out, and so for badges. A key of
-- `active_by_key` is the actor of a seek.
pub record Toasts (N : Type 0) : Type 0 where
  pub registered : Bool
  pub mounting : Bool
  pub awaiting : Bool
  pub mounted : Bool
  pub pending : List (Notice N)
  pub stack : List Toast
  pub active_by_key : List (String × ℕ)
  pub badge : Option Badge
  pub ticking : ℕ → Bool
  pub leaving : ℕ → Bool
  pub badge_ticking : ℕ → Bool
  pub badge_leaving : ℕ → Bool
  pub next : ℕ

abbrev pub max_toasts : ℕ
max_toasts = 4

-- `element.remove()` on a child of the stack.
unfoldable pub remove_child : ℕ → List Toast → List Toast
remove_child id [] = []
remove_child id (t ∷ ts) = let rest = remove_child id ts in if t.id == id then ts else t ∷ rest

abbrev pub is_connected : ℕ → List Toast → Bool
is_connected id ts = any (λ t. t.id == id) ts

abbrev pub retext : ℕ → String → Toast → Toast
retext id text t = if t.id == id then record t { text = text } else t

-- `Map.get` and `Map.set` of the coalescing map.
unfoldable pub get_key : String → List (String × ℕ) → Option ℕ
get_key key [] = none
get_key key ((k, id) ∷ m) = if str_eq k key then some id else get_key key m

unfoldable pub set_key : String → ℕ → List (String × ℕ) → List (String × ℕ)
set_key key id [] = (key, id) ∷ []
set_key key id ((k, old) ∷ m) = if str_eq k key then (k, id) ∷ m else (k, old) ∷ set_key key id m

abbrev pub set_flag : ℕ → Bool → (ℕ → Bool) → ℕ → Bool
set_flag id b f j = if id == j then b else f j

abbrev pub keyed : Option String → ℕ → List (String × ℕ) → List (String × ℕ)
unfolding set_key
keyed none id m = m
keyed (some key) id m = set_key key id m

abbrev pub keep_badge : ℕ → Option Badge → Option Badge
keep_badge id none = none
keep_badge id (some b) = if b.id == id then none else some b

module _ {N : Type 0} where
  unfoldable pub new_toasts : Toasts N
  new_toasts = record {
    registered = false;
    mounting = false;
    awaiting = false;
    mounted = false;
    pending = [];
    stack = [];
    active_by_key = [];
    badge = none;
    ticking = λ j. false;
    leaving = λ j. false;
    badge_ticking = λ j. false;
    badge_leaving = λ j. false;
    next = 0;
  }

  unfoldable pub init_notifications : Toasts N → Toasts N
  init_notifications s = record s { registered = true }

  unfoldable pub invalidated : Toasts N → Toasts N
  invalidated s = record s {
    registered = false;
    mounted = false;
    stack = [];
    badge = none;
    active_by_key = [];
    ticking = λ j. false;
    badge_ticking = λ j. false;
  }

  unfoldable pub remove_toast : ℕ → Toasts N → Toasts N
  unfolding remove_child
  remove_toast id s = record s {
    stack = remove_child id s.stack;
    active_by_key = keep (λ e. not (e.1 == id)) s.active_by_key;
  }

  unfoldable pub reset_toast_timer : ℕ → Toasts N → Toasts N
  reset_toast_timer id s = record s { ticking = set_flag id true s.ticking }

  -- The loop of `showToast` over the children of the stack.
  unfoldable pub evict : List Toast → Toasts N → Toasts N
  unfolding remove_toast
  evict [] s = s
  evict (t ∷ ts) s =
      let rest = evict ts (remove_toast t.id s) in
      if ltb max_toasts (length (t ∷ ts)) then rest else s

  unfoldable pub append_toast : Option String → String → Toasts N → Toasts N
  unfolding set_key
  append_toast key text s = record s {
    stack = s.stack ++ record { id = s.next; text = text } ∷ [];
    active_by_key = keyed key s.next s.active_by_key;
    next = suc s.next;
  }

  unfoldable pub add_toast : Option String → String → Toasts N → Toasts N
  unfolding append_toast evict reset_toast_timer
  add_toast key text s =
      let u = append_toast key text s in reset_toast_timer s.next (evict u.stack u)

  unfoldable pub update_toast : ℕ → String → Toasts N → Toasts N
  unfolding reset_toast_timer
  update_toast id text s = reset_toast_timer id (record s { stack = map (retext id text) s.stack })

  -- The toast that the key stands for, if it is in the page.
  abbrev pub existing : Option String → Toasts N → Option ℕ
  unfolding get_key
  existing none s = none
  existing (some key) s = elim (get_key key s.active_by_key) [
    | none ↦ none
    | some id ↦ if is_connected id s.stack then some id else none
  ]

  unfoldable pub show_text : Option String → String → Toasts N → Toasts N
  unfolding get_key add_toast update_toast
  show_text key text s = elim (existing key s) [
    | none ↦ add_toast key text s
    | some id ↦ update_toast id text s
  ]

  unfoldable pub dismiss_toast : ℕ → Toasts N → Toasts N
  dismiss_toast id s = record s {
    ticking = set_flag id false s.ticking;
    leaving = set_flag id true s.leaving;
  }

  -- Only one badge at a time.
  unfoldable pub show_badge : String → Toasts N → Toasts N
  show_badge nickname s = record s {
    badge = some (record {
      id = s.next;
      label = if str_eq nickname "" then "You joined" else "You joined as";
      name = if str_eq nickname "" then "the watch party" else nickname;
    });
    badge_ticking = set_flag s.next true s.badge_ticking;
    next = suc s.next;
  }

  unfoldable pub dismiss_badge : ℕ → Toasts N → Toasts N
  dismiss_badge id s = record s {
    badge_ticking = set_flag id false s.badge_ticking;
    badge_leaving = set_flag id true s.badge_leaving;
  }

  unfoldable pub badge_removed : ℕ → Toasts N → Toasts N
  badge_removed id s = record s {
    badge = keep_badge id s.badge;
    badge_leaving = set_flag id false s.badge_leaving;
  }
