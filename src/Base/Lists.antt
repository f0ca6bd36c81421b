-- ===== src/Base/Lists.antt =====
-- Lists measured by native numbers, predicates over lists, and chains of optional results.
use Prim.Native.Nat.{ℕ, zero, suc, ◌+◌}
use mathlib.Core.Path.{◌≡◌, refl, ap, ◌∙◌, subst}
use mathlib.Core.Bool.{Bool, false, ◌||◌}
use mathlib.Core.Option.{Option, none, some}
use mathlib.Core.List.{List, [], ◌∷◌, ◌++◌}
use native.Mathlib.Omega.{arith}
use playback_sync.Base.Tests.{if◌then◌else◌}

module _ {ℓ} {A : Type ℓ} where
  abbrev pub length : List A → ℕ
  length [] = 0
  length (x ∷ xs) = suc (length xs)

  pub length-append : (xs ys : List A) → length (xs ++ ys) ≡ length xs + length ys
  length-append [] ys = omega arith
  length-append (x ∷ xs) ys = omega (arith, length-append xs ys)

  -- `Array.prototype.some`
  abbrev pub any : (A → Bool) → List A → Bool
  any p [] = false
  any p (x ∷ xs) = p x || any p xs

  -- `Array.prototype.filter`
  abbrev pub keep : (A → Bool) → List A → List A
  keep p [] = []
  keep p (x ∷ xs) = if p x then x ∷ keep p xs else keep p xs

  -- `Array.prototype.find`
  abbrev pub find : (A → Bool) → List A → Option A
  find p [] = none
  find p (x ∷ xs) = if p x then some x else find p xs

  abbrev pub or_else : Option A → A → A
  or_else none d = d
  or_else (some a) d = a

module _ {ℓ} {A : Type ℓ} where
  abbrev pub get_elem? : List A → ℕ → Option A
  get_elem? [] i = none
  get_elem? (x ∷ xs) zero = some x
  get_elem? (x ∷ xs) (suc i) = get_elem? xs i

  abbrev pub erase_idx : List A → ℕ → List A
  erase_idx [] i = []
  erase_idx (x ∷ xs) zero = xs
  erase_idx (x ∷ xs) (suc i) = x ∷ erase_idx xs i

module _ {ℓ κ} {A : Type ℓ} (P : A → Type κ) where
  abbrev pub All : List A → Type κ
  All [] = Unit
  All (x ∷ xs) = P x × All xs

  -- What holds of the value, if there is one.
  abbrev pub Ensures : Option A → Type κ
  Ensures none = Unit
  Ensures (some a) = P a

module _ {κ} {B : Type κ} where
  abbrev pub added : Option B → List B → List B
  added none bs = bs
  added (some b) bs = b ∷ bs

  added-append : (o : Option B) (bs cs : List B) → added o (bs ++ cs) ≡ added o bs ++ cs
  added-append none bs cs = refl
  added-append (some b) bs cs = refl

module _ {ℓ κ} {A : Type ℓ} {B : Type κ} where
  -- The values that `f` has for the members, in their order.
  abbrev pub gathered : (A → Option B) → List A → List B
  gathered f [] = []
  gathered f (x ∷ xs) = added (f x) (gathered f xs)

  pub gathered-append :
      (f : A → Option B) (xs ys : List A) → gathered f (xs ++ ys) ≡ gathered f xs ++ gathered f ys
  gathered-append f [] ys = refl
  gathered-append f (x ∷ xs) ys =
      ap (added (f x)) (gathered-append f xs ys)
      ∙ added-append (f x) (gathered f xs) (gathered f ys)

infixl 5 ◌>>=◌
unfoldable pub ◌>>=◌ {ℓ κ} : {A : Type ℓ} {B : Type κ} → Option A → (A → Option B) → Option B
none >>= k = none
some a >>= k = k a

pub some_inj {ℓ} : {A : Type ℓ} (a b : A) → some a ≡ some b → a ≡ b
some_inj a b e = cc

module _ {ℓ κ} {A : Type ℓ} (P : A → Type κ) where
  pub All-erase_idx : (xs : List A) (k : ℕ) → All P xs → All P (erase_idx xs k)
  All-erase_idx [] k h = tt
  All-erase_idx (x ∷ xs) zero (h, hs) = hs
  All-erase_idx (x ∷ xs) (suc k) (h, hs) = (h, All-erase_idx xs k hs)

  pub All-append : (xs ys : List A) → All P xs → All P ys → All P (xs ++ ys)
  All-append [] ys h k = k
  All-append (x ∷ xs) ys (h, hs) k = (h, All-append xs ys hs k)

  pub All-get_elem? : (xs : List A) (k : ℕ) (a : A) → All P xs → get_elem? xs k ≡ some a → P a
  All-get_elem? [] k a h e = cc
  All-get_elem? (x ∷ xs) zero a (h, hs) e = subst P (some_inj x a e) h
  All-get_elem? (x ∷ xs) (suc k) a (h, hs) e = All-get_elem? xs k a hs e

pub Ensures-map {ℓ κ μ} :
    {A : Type ℓ} {P : A → Type κ} {Q : A → Type μ} (o : Option A)
    → Ensures P o
    → ((a : A) → P a → Q a)
    → Ensures Q o
Ensures-map none h f = tt
Ensures-map (some a) h f = f a h

pub Ensures_or {ℓ κ} :
    {A : Type ℓ} (P : A → Type κ) (o : Option A) (d : A)
    → P d
    → Ensures P o
    → P (elim o [ none ↦ d | some a ↦ a ])
Ensures_or P none d h k = h
Ensures_or P (some a) d h k = k
