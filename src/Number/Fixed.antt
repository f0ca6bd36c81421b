-- ===== src/Number/Fixed.antt =====
-- A concrete `Number` for evaluation: signed thousandths, with `none` for NaN.
use playback_sync.Base.{
  ℕ, ◌+◌, ◌-◌, ◌*◌, ◌/◌, ◌%◌, Bool, true, false, not, Option, none, some, arith, leb, ◌==◌,
  if◌then◌else◌,
}
use playback_sync.Number.{Number, IsIeee}

pub data ℤ : Type 0 where
  pos : ℕ → ℤ
  negsuc : ℕ → ℤ

abbrev pub pos_part : ℤ → ℕ
pos_part (pos n) = n
pos_part (negsuc n) = 0

abbrev pub neg_part : ℤ → ℕ
neg_part (pos n) = 0
neg_part (negsuc n) = n + 1

abbrev sub_ℕ : ℕ → ℕ → ℤ
sub_ℕ a b = if leb b a then pos (a - b) else negsuc (b - a - 1)

abbrev pub le_ℤ : ℤ → ℤ → Bool
le_ℤ a b = leb (pos_part a + neg_part b) (pos_part b + neg_part a)

abbrev add_ℤ : ℤ → ℤ → ℤ
add_ℤ a b = sub_ℕ (pos_part a + pos_part b) (neg_part a + neg_part b)

abbrev sub_ℤ : ℤ → ℤ → ℤ
sub_ℤ a b = sub_ℕ (pos_part a + neg_part b) (neg_part a + pos_part b)

abbrev abs_ℤ : ℤ → ℤ
abs_ℤ a = pos (pos_part a + neg_part a)

abbrev mul_ℤ : ℤ → ℤ → ℤ
mul_ℤ a b =
    sub_ℕ ((pos_part a * pos_part b + neg_part a * neg_part b) / 1000)
      ((pos_part a * neg_part b + neg_part a * pos_part b) / 1000)

abbrev div_ℤ : ℤ → ℤ → ℤ
div_ℤ a b =
    let n = (pos_part a + neg_part a) * 1000 / (pos_part b + neg_part b) in
    if le_ℤ (pos 0) a
    then (if le_ℤ (pos 0) b then pos n else sub_ℕ 0 n)
    else (if le_ℤ (pos 0) b then sub_ℕ 0 n else pos n)

abbrev pub Fixed : Type 0
Fixed = Option ℤ

abbrev lift₂ : (ℤ → ℤ → ℤ) → Fixed → Fixed → Fixed
lift₂ f (some a) (some b) = some (f a b)
lift₂ f _ _ = none

abbrev test₂ : (ℤ → ℤ → Bool) → Fixed → Fixed → Bool
test₂ f (some a) (some b) = f a b
test₂ f _ _ = false

abbrev abs_fixed : Fixed → Fixed
abs_fixed (some a) = some (abs_ℤ a)
abs_fixed none = none

abbrev not_nan : Fixed → Bool
not_nan (some a) = true
not_nan none = false

abbrev whole : Fixed → Bool
whole (some a) = (pos_part a + neg_part a) % 1000 == 0
whole none = false

instance abbrev pub fixed_number : Number Fixed
fixed_number = record {
  lit = λ n. some (pos (n * 1000));
  frac = λ p q. some (pos (p * 1000 / q));
  add = lift₂ add_ℤ;
  sub = lift₂ sub_ℤ;
  mul = lift₂ mul_ℤ;
  div = lift₂ div_ℤ;
  maximum = lift₂ (λ a b. if le_ℤ a b then b else a);
  minimum = lift₂ (λ a b. if le_ℤ a b then a else b);
  abs = abs_fixed;
  le = test₂ le_ℤ;
  gt = test₂ (λ a b. not (le_ℤ a b));
  is_finite = not_nan;
  is_integer = whole;
}

-- The assumptions on `Number` hold of the fixed-point numbers.
pub Fixed-IsIeee : IsIeee Fixed
Fixed-IsIeee = ground arith
