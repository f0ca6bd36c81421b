-- ===== src/Storage/Progress.antt =====
-- What is known of the slots while the wipe of extension/src/background/storage.ts goes on.
use playback_sync.Base.{
  false, none, lookup, ℕ, true, ◌≡◌, ◌⊎◌, inl, inr, refl, sym, ap, ◌∙◌, some, List, [], ◌∷◌, arith,
  any, has, insert, remove, NumMap, ◌==◌, Bool-cases,
}
use playback_sync.Protocol.Json.{Json, is_obj}
use playback_sync.Ws.{Creds}
use playback_sync.Storage.{Event, creds_of, load_creds, slot_value}
use playback_sync.Storage.Saved.{WasSaved, later, SlotsHold, SlotsSaved, inserted, removed}
use playback_sync.Storage.Wipe.{
  Wipe, idle, checking, listing, removing, marking, keys, listed, remove_all,
}

-- The credentials were saved, or their slot is among those listed.
abbrev SavedOr : List Event → List ℕ → ℕ → Creds → Type 0
SavedOr es ks tab c = WasSaved tab c es ⊎ (any (λ k. k == tab) ks ≡ true)

missing {ℓ} : {A : Type ℓ} (key : ℕ) (m : NumMap A) → has key m ≡ false → lookup key m ≡ none
unfolding lookup has
missing key [] h = refl
missing key (e ∷ m) h = ground (arith, missing key m)

module _ {N : Type 0} where
  has-keys : (tab : ℕ) (slots : NumMap (Json N)) → has tab slots ≡ any (λ k. k == tab) (keys slots)
  unfolding has
  has-keys tab [] = refl
  has-keys tab (e ∷ slots) = ground (arith, has-keys tab slots)

  pub loaded_has :
      (tab : ℕ) (c : Creds) (slots : NumMap (Json N))
      → load_creds tab slots ≡ some c
      → any (λ k. k == tab) (keys slots) ≡ true
  unfolding load_creds creds_of is_obj
  loaded_has tab c slots e = elim (Bool-cases (any (λ k. k == tab) (keys slots))) [
    | inl q ↦ q
    | inr q ↦ cc (sym e ∙ ap creds_of (missing tab slots (has-keys tab slots ∙ q)))
  ]

  pub remove_all-SlotsHold :
      (P : ℕ → Creds → Type 0) (ks : List ℕ) (slots : NumMap (Json N))
      → SlotsHold (λ tab c. P tab c ⊎ (any (λ k. k == tab) ks ≡ true)) slots
      → SlotsHold P (remove_all ks slots)
  unfolding remove_all
  remove_all-SlotsHold P [] slots h = λ tab c e. elim (h tab c e) [ inl p ↦ p | inr q ↦ cc ]
  remove_all-SlotsHold P (k ∷ ks) slots h = remove_all-SlotsHold P ks (remove k slots) (
      removed (λ tab c. P tab c ⊎ (any (λ j. j == tab) (k ∷ ks) ≡ true))
        (λ tab c. P tab c ⊎ (any (λ j. j == tab) ks ≡ true)) k slots
        (λ tab c q o. elim o [ inl p ↦ inl p | inr r ↦ inr (ground arith) ]) h)

  -- What is known of the slots while the wipe goes on.
  abbrev pub Progress : List Event → Wipe → NumMap (Json N) → Type 0
  Progress es (removing ks) slots = SlotsHold (SavedOr es ks) slots
  Progress es marking slots = SlotsSaved es slots
  Progress es _ slots = Unit

  -- An operation that only adds to what was saved.
  pub grown :
      (e : Event) (es : List Event) (w : Wipe) (slots : NumMap (Json N))
      → Progress es w slots
      → Progress (e ∷ es) w slots
  grown e es (removing ks) slots h =
      λ tab c q. elim (h tab c q) [ inl s ↦ inl (later tab c e es s) | inr k ↦ inr k ]
  grown e es marking slots h = λ tab c q. later tab c e es (h tab c q)
  grown e es idle slots h = tt
  grown e es checking slots h = tt
  grown e es listing slots h = tt

  pub Progress-insert :
      (es : List Event) (w : Wipe) (t : ℕ) (c : Creds) (slots : NumMap (Json N))
      → WasSaved t c es
      → Progress es w slots
      → Progress es w (insert t (slot_value c) slots)
  Progress-insert es (removing ks) t c slots s h = inserted (SavedOr es ks) t c slots (inl s) h
  Progress-insert es marking t c slots s h = inserted (λ u d. WasSaved u d es) t c slots s h
  Progress-insert es idle t c slots s h = tt
  Progress-insert es checking t c slots s h = tt
  Progress-insert es listing t c slots s h = tt

  pub Progress-remove :
      (es : List Event) (w : Wipe) (t : ℕ) (slots : NumMap (Json N))
      → Progress es w slots
      → Progress es w (remove t slots)
  Progress-remove es (removing ks) t slots h =
      removed (SavedOr es ks) (SavedOr es ks) t slots (λ u d q s. s) h
  Progress-remove es marking t slots h =
      removed (λ u d. WasSaved u d es) (λ u d. WasSaved u d es) t slots (λ u d q s. s) h
  Progress-remove es idle t slots h = tt
  Progress-remove es checking t slots h = tt
  Progress-remove es listing t slots h = tt

  pub listed-Progress :
      (es : List Event) (ks : List ℕ) (slots : NumMap (Json N))
      → SlotsHold (SavedOr es ks) slots
      → Progress es (listed ks) slots
  listed-Progress es [] slots h = λ tab c e. elim (h tab c e) [ inl s ↦ s | inr q ↦ cc ]
  listed-Progress es (k ∷ ks) slots h = h
