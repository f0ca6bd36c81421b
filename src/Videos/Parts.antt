-- ===== src/Videos/Parts.antt =====
-- The texts that src/util/parseVideoUrl.ts takes apart with `split`, `endsWith` and regular expressions.
use Prim.Native.Char.{code}
use text.Mathlib.Text.{◌==◌ as str_eq}
use playback_sync.Base.{
  Bool, true, not, ◌&&◌, ◌||◌, Option, none, some, List, [], ◌∷◌, String, if◌then◌else◌, ◌==◌, keep,
}
use playback_sync.Urls.Paths.{is_digit, span, strip}

-- `replace(/^www\./, '')`
unfoldable pub drop_www : String → String
unfolding strip
drop_www host = elim (strip "www." host) [ none ↦ host | some rest ↦ rest ]

-- `replace(/^\/+/, '')`
unfoldable pub drop_slashes : String → String
drop_slashes String.[] = ""
drop_slashes (String.◌∷◌ c s) =
    let rest = drop_slashes s in if code c == b'/' then rest else String.◌∷◌ c s

-- `replace(/^\/+/, '').split('/')[0]`
unfoldable pub first_segment : String → String
unfolding drop_slashes span
first_segment path = (span (drop_slashes path)).0

-- `split('/')`, by the segment that is being read.
unfoldable pub split_slash : String → String × List String
split_slash String.[] = ("", [])
split_slash (String.◌∷◌ c s) =
    let (t, ts) = split_slash s in if code c == b'/' then ("", t ∷ ts) else (String.◌∷◌ c t, ts)

unfoldable pub segments : String → List String
unfolding split_slash
segments path = let (t, ts) = split_slash path in keep (λ s. not (str_eq s "")) (t ∷ ts)

unfoldable pub last : List String → Option String
last [] = none
last (t ∷ []) = some t
last (t ∷ u ∷ ts) = last (u ∷ ts)

unfoldable pub all_digits : String → Bool
all_digits String.[] = true
all_digits (String.◌∷◌ c s) = is_digit c && all_digits s

-- `/^\d+$/`
unfoldable pub is_digits : String → Bool
unfolding all_digits
is_digits t = not (str_eq t "") && all_digits t

unfoldable pub group_of : Option String → Option String
unfolding span
group_of none = none
group_of (some rest) = let id = (span rest).0 in if str_eq id "" then none else some id

-- The group of the first match of `/\/watch\/([^/]+)/`.
unfoldable pub watch_id : String → Option String
unfolding group_of strip
watch_id String.[] = none
watch_id (String.◌∷◌ c s) =
    let later = watch_id s in
    elim (group_of (strip "/watch/" (String.◌∷◌ c s))) [ none ↦ later | some id ↦ some id ]

unfoldable pub ends_with : String → String → Bool
ends_with suffix String.[] = str_eq "" suffix
ends_with suffix (String.◌∷◌ c s) = str_eq (String.◌∷◌ c s) suffix || ends_with suffix s

-- `split(/\r?\n/)`, by the line that is being read.
unfoldable pub split_lines : String → String × List String
unfolding strip
split_lines String.[] = ("", [])
split_lines (String.◌∷◌ c s) =
    let (t, ts) = split_lines s in
    if code c == b'\n'
    then ("", t ∷ ts)
    else elim (strip "\r\n" (String.◌∷◌ c s)) [ none ↦ (String.◌∷◌ c t, ts) | some _ ↦ (t, ts) ]

unfoldable pub lines_of : String → List String
unfolding split_lines
lines_of text = let (t, ts) = split_lines text in t ∷ ts
