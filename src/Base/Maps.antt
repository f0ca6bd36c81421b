-- ===== src/Base/Maps.antt =====
-- `Map<number, V>` as an association list with at most one entry for a key, newest last as in the
-- insertion order of a JavaScript `Map`.
use Prim.Native.Nat.{ℕ}
use mathlib.Core.Path.{◌≡◌, refl}
use mathlib.Core.Bool.{Bool, true, false}
use mathlib.Core.Option.{Option, none, some}
use mathlib.Core.List.{List, [], ◌∷◌}
use native.Mathlib.Omega.{arith}
use playback_sync.Base.Tests.{◌==◌, if◌then◌else◌}

abbrev pub NumMap {ℓ} : Type ℓ → Type ℓ
NumMap V = List (ℕ × V)

module _ {ℓ} {V : Type ℓ} where
  unfoldable pub has : ℕ → NumMap V → Bool
  has key [] = false
  has key ((other, _) ∷ rest) = if other == key then true else has key rest

  unfoldable pub remove : ℕ → NumMap V → NumMap V
  remove key [] = []
  remove key ((other, kept) ∷ rest) =
      if other == key then remove key rest else (other, kept) ∷ remove key rest

  unfoldable pub insert : ℕ → V → NumMap V → NumMap V
  insert key new [] = (key, new) ∷ []
  insert key new ((other, kept) ∷ rest) =
      if other == key then (other, new) ∷ rest else (other, kept) ∷ insert key new rest

  unfoldable pub lookup : ℕ → NumMap V → Option V
  lookup key [] = none
  lookup key ((other, found) ∷ rest) = if other == key then some found else lookup key rest

  pub lookup-remove :
      (key asked : ℕ) (rest : NumMap V)
      → lookup asked (remove key rest) ≡ (if key == asked then none else lookup asked rest)
  unfolding lookup remove
  lookup-remove key asked [] = ground arith
  lookup-remove key asked (e ∷ rest) = ground (arith, lookup-remove key asked rest)

  pub has-lookup :
      (key : ℕ) (rest : NumMap V)
      → has key rest ≡ elim (lookup key rest) [ none ↦ false | some _ ↦ true ]
  unfolding lookup has
  has-lookup key [] = refl
  has-lookup key (e ∷ rest) = ground (arith, has-lookup key rest)

  pub lookup-insert :
      (key asked : ℕ) (new : V) (rest : NumMap V)
      → lookup asked (insert key new rest) ≡ (if key == asked then some new else lookup asked rest)
  unfolding lookup insert
  lookup-insert key asked new [] = refl
  lookup-insert key asked new (e ∷ rest) = ground (arith, lookup-insert key asked new rest)
