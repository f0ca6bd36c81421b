-- ===== src/Toasts/Stack.antt =====
-- The stack of toasts of extension/src/ui/notifications.ts.
use text.Mathlib.Text.{◌==◌ as str_eq}
use playback_sync.Base.{
  ℕ, suc, ◌≤◌, ◌<◌, Bool, true, false, not, ◌||◌, ◌≡◌, refl, ap, sym, ◌∙◌, subst, Option, none,
  some, List, [], ◌∷◌, ◌++◌, String, map, arith, All, All-append, keep, length, ◌==◌, if-split,
  if-true, ==-refl,
}
use playback_sync.Toasts.{
  Toast, remove_child, is_connected, retext, set_flag, set_key, keyed, set_flag,
}

-- From the oldest on, by the numbers of the elements.
abbrev pub IsOrdered : List Toast → Type 0
IsOrdered [] = Unit
IsOrdered (t ∷ ts) = All (λ u. t.id < u.id) ts × IsOrdered ts

abbrev pub IsKeyed : List Toast → List (String × ℕ) → Type 0
IsKeyed ts m = All (λ (e : String × ℕ). is_connected e.1 ts ≡ true) m

pub remove_head : (t : Toast) (ts : List Toast) → remove_child t.id (t ∷ ts) ≡ ts
unfolding remove_child
remove_head t ts = if-true ts _ (==-refl t.id)

pub All-remove_child :
    (P : Toast → Type 0) (id : ℕ) (ts : List Toast) → All P ts → All P (remove_child id ts)
unfolding remove_child
All-remove_child P id [] h = tt
All-remove_child P id (t ∷ ts) (h, hs) =
    if-split (All P) (t.id == id) ts _ (λ q. hs) (λ q. (h, All-remove_child P id ts hs))

pub length-remove_child : (id : ℕ) (ts : List Toast) → length (remove_child id ts) ≤ length ts
unfolding remove_child
length-remove_child id [] = omega arith
length-remove_child id (t ∷ ts) = ground (arith, length-remove_child id ts)

pub IsOrdered-remove_child :
    (id : ℕ) (ts : List Toast) → IsOrdered ts → IsOrdered (remove_child id ts)
unfolding remove_child
IsOrdered-remove_child id [] h = tt
IsOrdered-remove_child id (t ∷ ts) (h, hs) =
    if-split IsOrdered (t.id == id) ts _ (λ q. hs)
      (λ q. (All-remove_child (λ u. t.id < u.id) id ts h, IsOrdered-remove_child id ts hs))

is_connected-remove_child :
    (j id : ℕ) (ts : List Toast)
    → (j == id) ≡ false
    → is_connected j (remove_child id ts) ≡ is_connected j ts
unfolding remove_child
is_connected-remove_child j id [] h = refl
is_connected-remove_child j id (t ∷ ts) h = ground (arith, is_connected-remove_child j id ts)

pub IsKeyed-keep :
    (id : ℕ) (ts : List Toast) (m : List (String × ℕ))
    → IsKeyed ts m
    → IsKeyed (remove_child id ts) (keep (λ e. not (e.1 == id)) m)
IsKeyed-keep id ts [] h = tt
IsKeyed-keep id ts (e ∷ m) (h, hs) =
    if-split (IsKeyed (remove_child id ts)) (not (e.1 == id)) _ _
      (λ q. (is_connected-remove_child e.1 id ts (ground arith) ∙ h, IsKeyed-keep id ts m hs))
      (λ q. IsKeyed-keep id ts m hs)

is_connected-append :
    (j : ℕ) (ts us : List Toast) → is_connected j ts ≡ true → is_connected j (ts ++ us) ≡ true
is_connected-append j [] us h = cc
is_connected-append j (t ∷ ts) us h = ground (arith, is_connected-append j ts us)

pub is_connected_last : (t : Toast) (ts : List Toast) → is_connected t.id (ts ++ t ∷ []) ≡ true
is_connected_last t [] = ground arith
is_connected_last t (u ∷ ts) = ground (arith, is_connected_last t ts)

pub IsKeyed-append :
    (ts us : List Toast) (m : List (String × ℕ)) → IsKeyed ts m → IsKeyed (ts ++ us) m
IsKeyed-append ts us [] h = tt
IsKeyed-append ts us (e ∷ m) (h, hs) = (is_connected-append e.1 ts us h, IsKeyed-append ts us m hs)

IsKeyed-set_key :
    (key : String) (id : ℕ) (ts : List Toast) (m : List (String × ℕ))
    → is_connected id ts ≡ true
    → IsKeyed ts m
    → IsKeyed ts (set_key key id m)
unfolding set_key
IsKeyed-set_key key id ts [] c h = (c, tt)
IsKeyed-set_key key id ts (e ∷ m) c (h, hs) =
    if-split (IsKeyed ts) (str_eq e.0 key) ((e.0, id) ∷ m) (e ∷ set_key key id m) (λ q. (c, hs))
      (λ q. (h, IsKeyed-set_key key id ts m c hs))

pub IsKeyed-keyed :
    (key : Option String) (id : ℕ) (ts : List Toast) (m : List (String × ℕ))
    → is_connected id ts ≡ true
    → IsKeyed ts m
    → IsKeyed ts (keyed key id m)
unfolding keyed set_key
IsKeyed-keyed none id ts m c h = h
IsKeyed-keyed (some key) id ts m c h = IsKeyed-set_key key id ts m c h

pub is_connected-retext :
    (j id : ℕ) (text : String) (ts : List Toast)
    → is_connected j (map (retext id text) ts) ≡ is_connected j ts
is_connected-retext j id text [] = refl
is_connected-retext j id text (t ∷ ts) = ground (arith, is_connected-retext j id text ts)

pub All-map :
    (P Q : Toast → Type 0) (f : Toast → Toast) (ts : List Toast)
    → ((t : Toast) → P t → Q (f t))
    → All P ts
    → All Q (map f ts)
All-map P Q f [] g h = tt
All-map P Q f (t ∷ ts) g (h, hs) = (g t h, All-map P Q f ts g hs)

pub IsOrdered-append :
    (t : Toast) (ts : List Toast)
    → All (λ u. u.id < t.id) ts
    → IsOrdered ts
    → IsOrdered (ts ++ t ∷ [])
IsOrdered-append t [] b h = (tt, tt)
IsOrdered-append t (u ∷ ts) (b, bs) (h, hs) =
    (All-append (λ v. u.id < v.id) ts (t ∷ []) h (b, tt), IsOrdered-append t ts bs hs)

-- The dismissal of the toast is under way.
abbrev pub Goes : (ℕ → Bool) → (ℕ → Bool) → Toast → Type 0
Goes ticking leaving t = (ticking t.id || leaving t.id) ≡ true

pub Goes-set_flag :
    (id : ℕ) (f g : ℕ → Bool) (ts : List Toast)
    → All (Goes f g) ts
    → All (Goes (set_flag id true f) g) ts
Goes-set_flag id f g [] h = tt
Goes-set_flag id f g (t ∷ ts) (h, hs) = (ground arith, Goes-set_flag id f g ts hs)

pub Goes-dismissed :
    (id : ℕ) (f g : ℕ → Bool) (ts : List Toast)
    → All (Goes f g) ts
    → All (Goes (set_flag id false f) (set_flag id true g)) ts
Goes-dismissed id f g [] h = tt
Goes-dismissed id f g (t ∷ ts) (h, hs) = (ground arith, Goes-dismissed id f g ts hs)

pub Goes-others :
    (id : ℕ) (f g : ℕ → Bool) (ts : List Toast)
    → All (λ t. id < t.id) ts
    → All (Goes f g) ts
    → All (Goes f (set_flag id false g)) ts
Goes-others id f g [] l h = tt
Goes-others id f g (t ∷ ts) (l, ls) (h, hs) = (ground arith, Goes-others id f g ts ls hs)

pub Goes-removed :
    (id : ℕ) (f g : ℕ → Bool) (ts : List Toast)
    → IsOrdered ts
    → All (Goes f g) ts
    → All (Goes f (set_flag id false g)) (remove_child id ts)
unfolding remove_child
Goes-removed id f g [] o h = tt
Goes-removed id f g (t ∷ ts) (o, os) (h, hs) =
    if-split (All (Goes f (set_flag id false g))) (t.id == id) ts (t ∷ remove_child id ts)
      (λ q. Goes-others id f g ts (subst (λ k. All (λ u. k < u.id) ts) (equal t.id id q) o) hs)
      (λ q. (ground arith, Goes-removed id f g ts os hs))
  where
    equal : (a b : ℕ) → (a == b) ≡ true → a ≡ b
    equal a b q = ground arith

pub below_suc : (n : ℕ) (ts : List Toast) → All (λ t. t.id < n) ts → All (λ t. t.id < suc n) ts
below_suc n [] h = tt
below_suc n (t ∷ ts) (h, hs) = (omega arith, below_suc n ts hs)

pub length-map-retext :
    (id : ℕ) (text : String) (ts : List Toast) → length (map (retext id text) ts) ≡ length ts
length-map-retext id text [] = refl
length-map-retext id text (t ∷ ts) = ap suc (length-map-retext id text ts)

pub IsKeyed-retext :
    (id : ℕ) (text : String) (ts : List Toast) (m : List (String × ℕ))
    → IsKeyed ts m
    → IsKeyed (map (retext id text) ts) m
IsKeyed-retext id text ts [] h = tt
IsKeyed-retext id text ts (e ∷ m) (h, hs) =
    (is_connected-retext e.1 id text ts ∙ h, IsKeyed-retext id text ts m hs)

retext_id : (id : ℕ) (text : String) (t : Toast) → (retext id text t).id ≡ t.id
retext_id id text t = ground arith

above_retext :
    (n id : ℕ) (text : String) (ts : List Toast)
    → All (λ t. n < t.id) ts
    → All (λ t. n < t.id) (map (retext id text) ts)
above_retext n id text ts =
    All-map (λ t. n < t.id) (λ t. n < t.id) (retext id text) ts (λ t g. ground arith)

pub IsOrdered-retext :
    (id : ℕ) (text : String) (ts : List Toast) → IsOrdered ts → IsOrdered (map (retext id text) ts)
IsOrdered-retext id text [] h = tt
IsOrdered-retext id text (t ∷ ts) (h, hs) = (
  subst (λ n. All (λ u. n < u.id) (map (retext id text) ts)) (sym (retext_id id text t))
      (above_retext t.id id text ts h),
  IsOrdered-retext id text ts hs,
)
