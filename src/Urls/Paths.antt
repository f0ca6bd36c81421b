-- ===== src/Urls/Paths.antt =====
-- Texts taken apart at a slash or behind a prefix, as the regular expressions and the calls of
-- `startsWith` and `slice` in extension/src/adapters/miruro/url.ts do.
use Prim.Native.Char.{Char, code}
use Prim.Native.String.{String, ◌++◌}
use mathlib.Core.Path.{◌≡◌, refl, sym, ap, ◌∙◌}
use mathlib.Core.Bool.{Bool, true, false, ◌&&◌}
use mathlib.Core.Option.{Option, none, some}
use mathlib.Core.Logic.{inl, inr}
use text.Mathlib.TextLemmas.{nil-append, cons-append, append-nil}
use playback_sync.Base.Tests.{leb, ◌==◌, ==-refl, Bool-cases, if-true, if-false, if◌then◌else◌}

-- The longest prefix with no slash, and the rest.
unfoldable pub span : String → String × String
span String.[] = ("", "")
span (String.◌∷◌ c s) =
    let (a, b) = span s in if code c == b'/' then ("", String.◌∷◌ c s) else (String.◌∷◌ c a, b)

-- The rest behind a prefix.
unfoldable pub strip : String → String → Option String
strip String.[] s = some s
strip (String.◌∷◌ c p) String.[] = none
strip (String.◌∷◌ c p) (String.◌∷◌ d s) = if code c == code d then strip p s else none

pub strip-append : (p s : String) → strip p (p ++ s) ≡ some s
unfolding strip
strip-append String.[] s = rw nil-append
strip-append (String.◌∷◌ c p) s = rw cons-append (rw (==-refl (code c)) (strip-append p s))

unfoldable pub no_slash : String → Bool
no_slash String.[] = true
no_slash (String.◌∷◌ c s) = if code c == b'/' then false else no_slash s

pub no_slash-span : (s : String) → no_slash (span s).0 ≡ true
unfolding span no_slash
no_slash-span String.[] = refl
no_slash-span (String.◌∷◌ c s) = elim (Bool-cases (code c == b'/')) [
  | inl e ↦ rw e refl
  | inr e ↦ rw e (rw e (no_slash-span s))
]

-- A text with no slash is passed over whole.
pub span-append : (a t : String) → no_slash a ≡ true → span (a ++ t) ≡ (a ++ (span t).0, (span t).1)
unfolding span no_slash
span-append String.[] t h = rw (nil-append, nil-append)
span-append (String.◌∷◌ c a) t h = elim (Bool-cases (code c == b'/')) [
  | inl e ↦ cc (if-true false (no_slash a) e)
  | inr e ↦
      rw (cons-append, cons-append)
        (rw e (rw (span-append a t (sym (if-false false (no_slash a) e) ∙ h)) refl))
]

-- Such a text alone.
pub span-no_slash : (a : String) → no_slash a ≡ true → span a ≡ (a, "")
span-no_slash a h =
    ap span (sym (append-nil a)) ∙ span-append a "" h ∙ unfold span in rw (append-nil a)

abbrev pub is_digit : Char → Bool
is_digit c = leb b'0' (code c) && leb (code c) b'9'
