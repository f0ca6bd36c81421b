-- ===== src/Protocol/Json.antt =====
-- The values that `JSON.parse` returns, which `decode` inspects as `unknown`, and the coercion
-- helpers at the end of extension/src/background/protocol.ts. `undefined` is `none`.
use text.Mathlib.Text.{◌==◌ as str_eq}
use playback_sync.Base.{Bool, Option, none, some, String, if◌then◌else◌}
use playback_sync.Number.{Number}
use playback_sync.Protocol.Frames.{PlayerState, playing, paused, buffering}

mutual
  pub data Json (N : Type 0) : Type 0 where
    null : Json N
    bool : Bool → Json N
    num : N → Json N
    str : String → Json N
    arr : Items N → Json N
    obj : Fields N → Json N

  pub data Items (N : Type 0) : Type 0 where
    nil : Items N
    cons : Json N → Items N → Items N

  pub data Fields (N : Type 0) : Type 0 where
    end : Fields N
    field : String → Json N → Fields N → Fields N

module _ {N : Type 0} where
  -- `o['k']`, or `undefined`.
  unfoldable pub get : String → Fields N → Option (Json N)
  get k end = none
  get k (field j v o) = if str_eq j k then some v else get k o

  unfoldable pub is_obj : Option (Json N) → Option (Fields N)
  is_obj (some (obj o)) = some o
  is_obj _ = none

  unfoldable pub as_string : Option (Json N) → Option String
  as_string (some (str s)) = some s
  as_string _ = none

  -- `null` and any value that is no string are the same to the caller.
  unfoldable pub as_nullable_string : Option (Json N) → Option String
  as_nullable_string none = none
  as_nullable_string (some null) = none
  as_nullable_string (some (str s)) = some s
  as_nullable_string _ = none

  unfoldable pub as_bool : Option (Json N) → Option Bool
  as_bool (some (bool b)) = some b
  as_bool _ = none

  unfoldable pub as_player_state : Option (Json N) → Option PlayerState
  as_player_state (some (str s)) =
      if str_eq s "playing"
      then some playing
      else if str_eq s "paused"
      then some paused
      else if str_eq s "buffering"
      then some buffering
      else none
  as_player_state _ = none

module _ {N : Type 0} ⦃n : Number N⦄ where
  unfoldable pub as_number : Option (Json N) → Option N
  as_number (some (num x)) = if n.is_finite x then some x else none
  as_number _ = none

  unfoldable pub as_int : Option (Json N) → Option N
  as_int (some (num x)) = if n.is_integer x then some x else none
  as_int _ = none

  unfoldable pub as_nullable_int : Option (Json N) → Option N
  unfolding as_int
  as_nullable_int none = none
  as_nullable_int (some null) = none
  as_nullable_int v = as_int v
