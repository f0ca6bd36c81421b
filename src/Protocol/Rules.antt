-- ===== src/Protocol/Rules.antt =====
-- What holds of a decoded value when decoding succeeds: a predicate on results and a rule for each
-- step of a decoder of extension/src/background/protocol.ts.
use mathlib.Core.Path.{subst}
use playback_sync.Base.{
  Option, none, some, String, Bool, true, false, ◌≡◌, refl, ◌>>=◌, if◌then◌else◌,
}
use playback_sync.Protocol.Parts.{DecodeErrorKind, Decoded, ok, bad, or_shape, and_then}

-- What holds of an optional value, and of a decoded one, if there is one. Families, so that the
-- rules below find their arguments.
pub data Sure {A : Type 0} (P : A → Type 0) : Option A → Type 0 where
  missing : Sure P none
  here : {a : A} → P a → Sure P (some a)

pub data Good {A : Type 0} (P : A → Type 0) : Decoded A → Type 0 where
  refused : {e : DecodeErrorKind} {d : String} → Good P (bad e d)
  fine : {a : A} → P a → Good P (ok a)

pub Sure-bind :
    {A B : Type 0} {P : B → Type 0} (m : Option A) (k : A → Option B)
    → ((a : A) → m ≡ some a → Sure P (k a))
    → Sure P (m >>= k)
unfolding ◌>>=◌
Sure-bind none k h = missing
Sure-bind (some a) k h = h a refl

pub Good-or_shape :
    {A : Type 0} {P : A → Type 0} (d : String) (o : Option A) → Sure P o → Good P (or_shape d o)
unfolding or_shape
Good-or_shape d none h = refused
Good-or_shape d (some a) (here h) = fine h

pub Good-and_then :
    {A B : Type 0} (Q : A → Type 0) {P : B → Type 0} (m : Decoded A) (k : A → Decoded B)
    → Good Q m
    → ((a : A) → Q a → Good P (k a))
    → Good P (and_then m k)
unfolding and_then
Good-and_then Q (ok a) k (fine q) h = h a q
Good-and_then Q (bad e d) k q h = refused

-- A step of which nothing needs to be known.
pub Good-skip :
    {A B : Type 0} {P : B → Type 0} (m : Decoded A) (k : A → Decoded B)
    → ((a : A) → Good P (k a))
    → Good P (and_then m k)
unfolding and_then
Good-skip (ok a) k h = h a
Good-skip (bad e d) k h = refused

pub Good-if :
    {A : Type 0} {P : A → Type 0} {m m' : Decoded A} (b : Bool)
    → Good P m
    → Good P m'
    → Good P (if b then m else m')
Good-if true p q = p
Good-if false p q = q

pub Good-value : {A : Type 0} {P : A → Type 0} {m : Decoded A} {a : A} → Good P m → m ≡ ok a → P a
Good-value {P} (fine q) e = subst P (cc) q
Good-value refused e = cc
