-- ===== src/Number.antt =====
-- The `number` type of JavaScript, which the sources do not implement: IEEE doubles with NaN and
-- the infinities. It is a parameter of every definition that computes with playback positions,
-- server times or other numbers off the wire. Wall-clock milliseconds of `Date.now()` are
-- non-negative integers and stay native numbers.
pub mod Fixed
use playback_sync.Base.{ℕ, ◌≤◌, ◌<◌, Bool, true, ◌≡◌}

pub record Number (N : Type 0) : Type 0 where
  pub lit : ℕ → N  -- an integer literal
  pub frac : ℕ → ℕ → N  -- the decimal literal p / q
  pub add : N → N → N
  pub sub : N → N → N
  pub mul : N → N → N
  pub div : N → N → N
  pub maximum : N → N → N  -- `Math.max`
  pub minimum : N → N → N  -- `Math.min`
  pub abs : N → N  -- `Math.abs`
  pub le : N → N → Bool  -- `<=`
  pub gt : N → N → Bool  -- `>`
  pub is_finite : N → Bool  -- `Number.isFinite`
  pub is_integer : N → Bool  -- `Number.isInteger`

infix 50 ◌≼◌
abbrev pub ◌≼◌ : {N : Type 0} ⦃num : Number N⦄ → N → N → Type 0
◌≼◌ ⦃num⦄ x y = num.le x y ≡ true

-- What the sources rely on, of IEEE arithmetic and of `Math.max` and `Math.abs`. Orders are stated
-- away from NaN and the infinities.
pub record IsIeee (N : Type 0) ⦃num : Number N⦄ : Type 0 where
  pub finite_of_integer : (x : N) → num.is_integer x ≡ true → num.is_finite x ≡ true
  pub lit_finite : (n : ℕ) → n < 9007199254740992 → num.is_finite (num.lit n) ≡ true
  pub lit_mono : (m n : ℕ) → m ≤ n → num.lit m ≼ num.lit n
  pub le_refl : (x : N) → num.is_finite x ≡ true → x ≼ x
  pub le_trans : (x y z : N) → x ≼ y → y ≼ z → x ≼ z
  pub maximum_finite :
      (x y : N)
      → num.is_finite x ≡ true
      → num.is_finite y ≡ true
      → num.is_finite (num.maximum x y) ≡ true
  pub le-maximum_left :
      (x y : N) → num.is_finite x ≡ true → num.is_finite y ≡ true → x ≼ num.maximum x y
  pub le-maximum_right :
      (x y : N) → num.is_finite x ≡ true → num.is_finite y ≡ true → y ≼ num.maximum x y
  pub abs-sub_self : (x : N) → num.is_finite x ≡ true → num.abs (num.sub x x) ≡ num.lit 0
