-- ===== src/Popup/Ports.antt =====
-- The ports that a broadcast of extension/src/background/popupBroadcast.ts reaches.
use playback_sync.Base.{
  ℕ, Bool, true, false, not, ◌≡◌, refl, ◌∙◌, ap, Option, none, some, List, [], ◌∷◌, ◌++◌, arith,
  if-split, if◌then◌else◌, any, keep, ◌==◌, ==-refl, ◌&&◌, ◌||◌,
}
use playback_sync.Popup.{PopupSnapshot, is_bound, post_all}

-- The snapshot that the port was last sent.
abbrev pub last_shown : ℕ → List (ℕ × PopupSnapshot) → Option PopupSnapshot
last_shown port [] = none
last_shown port ((q, s) ∷ out) = if q == port then some s else last_shown port out

abbrev pub has_port : ℕ → List ℕ → Bool
has_port port ports = any (λ q. q == port) ports

pub some_inj : (a b : ℕ) → some a ≡ some b → a ≡ b
some_inj a b q = cc

last_true : {b : Bool} (a : Bool) → b ≡ true → (a || b) ≡ true
last_true a h = ground arith

first_true : {a : Bool} (b : Bool) → a ≡ true → (a || b) ≡ true
first_true b h = ground arith

pub flip : (a b : ℕ) → (a == b) ≡ false → (b == a) ≡ false
flip a b t = ground arith

abbrev pub added : ℕ → List ℕ → List ℕ
added port ports = if has_port port ports then ports else ports ++ port ∷ []

has_port-append :
    (q port : ℕ) (ports : List ℕ)
    → has_port q (ports ++ port ∷ []) ≡ (has_port q ports || port == q)
has_port-append q port [] = ground arith
has_port-append q port (r ∷ ports) = ground (arith, has_port-append q port ports)

pub has_port-added : (port : ℕ) (ports : List ℕ) → has_port port (added port ports) ≡ true
has_port-added port ports =
    if-split (λ ps. has_port port ps ≡ true) (has_port port ports) ports (ports ++ port ∷ [])
      (λ t. t)
      (λ t. has_port-append port port ports ∙ last_true (has_port port ports) (==-refl port))

pub has_port-kept :
    (q port : ℕ) (ports : List ℕ) → has_port q ports ≡ true → has_port q (added port ports) ≡ true
has_port-kept q port ports h =
    if-split (λ ps. has_port q ps ≡ true) (has_port port ports) ports (ports ++ port ∷ []) (λ t. h)
      (λ t. has_port-append q port ports ∙ first_true (port == q) h)

pub has_port-keep :
    (q port : ℕ) (ports : List ℕ)
    → (port == q) ≡ false
    → has_port q (keep (λ r. not (r == port)) ports) ≡ has_port q ports
has_port-keep q port [] h = refl
has_port-keep q port (r ∷ ports) h = ground (arith, has_port-keep q port ports h)

last_shown-if :
    (b : Bool) (port q : ℕ) (s : PopupSnapshot) (out : List (ℕ × PopupSnapshot))
    → last_shown port (if b then (q, s) ∷ out else out)
      ≡ (if b && q == port then some s else last_shown port out)
last_shown-if true port q s out = refl
last_shown-if false port q s out = refl

pub equal : (a b : ℕ) → (a == b) ≡ true → a ≡ b
equal a b t = ground arith

combine :
    (h i b t : Bool) (x y : Option PopupSnapshot)
    → (t ≡ true → b ≡ i)
    → (if h && i then x else (if b && t then x else y)) ≡ (if (t || h) && i then x else y)
combine true true b t x y k = ground arith
combine true false true true x y k = cc (k refl)
combine true false false true x y k = refl
combine true false true false x y k = refl
combine true false false false x y k = refl
combine false true b true x y k = rw (k refl) refl
combine false true true false x y k = refl
combine false true false false x y k = refl
combine false false b true x y k = rw (k refl) refl
combine false false true false x y k = refl
combine false false false false x y k = refl

pub last_shown-post_all :
    (port tab : ℕ) (s : PopupSnapshot) (bound : ℕ → Option ℕ) (ports : List ℕ)
    (out : List (ℕ × PopupSnapshot))
    → last_shown port (post_all tab s bound ports out)
      ≡ (if has_port port ports && is_bound tab (bound port) then some s else last_shown port out)
unfolding post_all
last_shown-post_all port tab s bound [] out = refl
last_shown-post_all port tab s bound (q ∷ ports) out =
    last_shown-post_all port tab s bound ports
      (if is_bound tab (bound q) then (q, s) ∷ out else out)
    ∙ ap (λ z. if has_port port ports && is_bound tab (bound port) then some s else z)
        (last_shown-if (is_bound tab (bound q)) port q s out)
    ∙ combine (has_port port ports) (is_bound tab (bound port)) (is_bound tab (bound q)) (q == port)
        (some s) (last_shown port out) (λ t. ap (λ z. is_bound tab (bound z)) (equal q port t))
