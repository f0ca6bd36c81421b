-- ===== src/Miruro/Titles.antt =====
-- The numbers that extension/src/adapters/miruro/index.ts reads off titles and addresses: `EPISODE_TITLE_RE`
-- and `parseInt(text, 10)`.
use Prim.Native.Char.{Char, code}
use Prim.Native.Nat.{◌+◌, ◌-◌, ◌*◌}
use playback_sync.Base.{
  ℕ, Bool, true, false, ◌&&◌, ◌||◌, not, Option, none, some, [], ◌∷◌, String, if◌then◌else◌, leb,
  ◌==◌, any, ◌>>=◌,
}
use playback_sync.Number.{Number}
use playback_sync.Urls.Paths.{is_digit}

-- `\s`
abbrev is_space : Char → Bool
is_space c =
    (leb 9 (code c) && leb (code c) 13)
    || (leb 8192 (code c) && leb (code c) 8202)
    || any (λ s. code c == s) (32 ∷ 160 ∷ 5760 ∷ 8232 ∷ 8233 ∷ 8239 ∷ 8287 ∷ 12288 ∷ 65279 ∷ [])

-- `\w`
abbrev is_word : Char → Bool
is_word c =
    is_digit c
    || (leb b'A' (code c) && leb (code c) b'Z')
    || (leb b'a' (code c) && leb (code c) b'z')
    || code c == b'_'

unfoldable pub drop_spaces : String → String
drop_spaces String.[] = ""
drop_spaces (String.◌∷◌ c s) =
    let rest = drop_spaces s in if is_space c then rest else String.◌∷◌ c s

-- The digits in front, read behind the number `v`, and what follows them.
unfoldable pub read_digits : ℕ → String → ℕ × String
read_digits v String.[] = (v, "")
read_digits v (String.◌∷◌ c s) =
    let rest = read_digits (v * 10 + (code c - b'0')) s in
    if is_digit c then rest else (v, String.◌∷◌ c s)

-- At least one digit.
unfoldable pub numeral : String → Option (ℕ × String)
unfolding read_digits
numeral String.[] = none
numeral (String.◌∷◌ c s) = if is_digit c then some (read_digits 0 (String.◌∷◌ c s)) else none

-- A letter in either case.
unfoldable pub drop_letter : ℕ → ℕ → String → Option String
drop_letter upper lower String.[] = none
drop_letter upper lower (String.◌∷◌ c s) =
    if code c == upper || code c == lower then some s else none

-- At least one space, and all that follow.
unfoldable pub spaces : String → Option String
unfolding drop_spaces
spaces String.[] = none
spaces (String.◌∷◌ c s) = if is_space c then some (drop_spaces s) else none

-- No word goes on here.
unfoldable pub is_boundary : String → Bool
is_boundary String.[] = true
is_boundary (String.◌∷◌ c s) = not (is_word c)

-- The digits that `/^EP\s+(\d+)\b/i` captures, as a number. Fewer digits than all end at no boundary.
unfoldable pub captured : String → Option ℕ
unfolding drop_letter spaces numeral is_boundary
captured title = do
  behind_e ← drop_letter b'E' b'e' title
  behind_p ← drop_letter b'P' b'p' behind_e
  rest ← spaces behind_p
  (v, tail) ← numeral rest
  if is_boundary tail then some v else none

module _ {N : Type 0} ⦃n : Number N⦄ where
  -- `Number.isFinite` as a test on the way.
  abbrev pub finite : N → Option N
  finite x = if n.is_finite x then some x else none

  unfoldable pub extract_episode_number : String → Option N
  unfolding captured
  extract_episode_number title = elim (captured title) [ none ↦ none | some v ↦ finite (n.lit v) ]

  abbrev signed : Bool → Option (ℕ × String) → Option N
  signed negative none = none
  signed negative (some (v, _)) = some (if negative then n.sub (n.lit 0) (n.lit v) else n.lit v)

  abbrev from_sign : String → Option N
  unfolding numeral
  from_sign String.[] = none
  from_sign (String.◌∷◌ c s) =
      if code c == b'-'
      then signed true (numeral s)
      else if code c == b'+'
      then signed false (numeral s)
      else signed false (numeral (String.◌∷◌ c s))

  -- `parseInt(text, 10)`, `none` for NaN.
  unfoldable pub parse_int : String → Option N
  unfolding drop_spaces from_sign
  parse_int text = from_sign (drop_spaces text)
