-- ===== src/Storage/Saved.antt =====
-- Whose credentials a slot of extension/src/background/storage.ts holds.
use playback_sync.Base.{
  get_elem?, erase_idx, All-get_elem?, All-erase_idx, some_inj, ℕ, Bool, true, false, ◌≡◌, ◌⊎◌, inl,
  inr, refl, ◌∙◌, sym, ap, subst, Option, none, some, List, [], ◌∷◌, String, All, lookup, insert,
  remove, lookup-insert, lookup-remove, if◌then◌else◌, ◌==◌, Bool-cases, if-true, if-false, arith,
  Option-split_eq, NumMap,
}
use playback_sync.Protocol.Json.{Json, get, as_string, is_obj}
use playback_sync.Ws.{Creds}
use playback_sync.Storage.{
  Write, Storage, Event, saved, cleared, assigned, written, creds_of, load_creds, slot_value,
  save_creds, clear_creds, save_client_id, client_id_resumed, step, after, client_field,
}

-- The URL and the password were saved for the tab.
abbrev pub WasSaved : ℕ → Creds → List Event → Type 0
WasSaved tab c [] = ⊥
WasSaved tab c (saved t url password ∷ es) =
    ((t ≡ tab) × (url ≡ c.sync_url) × (password ≡ c.sync_password)) ⊎ WasSaved tab c es
WasSaved tab c (_ ∷ es) = WasSaved tab c es

abbrev pub WriteSaved : List Event → Write → Type 0
WriteSaved es w = (c : Creds) → w.current ≡ some c → WasSaved w.tab c es

pub later :
    (tab : ℕ) (c : Creds) (e : Event) (es : List Event)
    → WasSaved tab c es
    → WasSaved tab c (e ∷ es)
later tab c (saved t u p) es h = inr h
later tab c (cleared t) es h = h
later tab c (assigned t id) es h = h
later tab c (written k) es h = h

pub equal : (a b : ℕ) → (a == b) ≡ true → a ≡ b
equal a b t = ground arith

All-later :
    (e : Event) (es : List Event) (ws : List Write)
    → All (WriteSaved es) ws
    → All (WriteSaved (e ∷ es)) ws
All-later e es [] h = tt
All-later e es (w ∷ ws) (h, hs) = ((λ c q. later w.tab c e es (h c q)), All-later e es ws hs)

client_id-slot_value :
    (N : Type 0) (o : Option String) → as_string (get "clientId" (client_field {N = N} o)) ≡ o
unfolding get as_string
client_id-slot_value N none = refl
client_id-slot_value N (some id) = refl

abbrev with_id : Creds → Option String → Creds
with_id c o = record c { client_id = o }

creds_of-slot_value : (N : Type 0) (c : Creds) → creds_of (some (slot_value {N = N} c)) ≡ some c
unfolding creds_of slot_value
creds_of-slot_value N c = ap (λ o. some (with_id c o)) (client_id-slot_value N c.client_id)

pub creds_of-if :
    (N : Type 0) (b : Bool) (x y : Option (Json N))
    → creds_of (if b then x else y) ≡ (if b then creds_of x else creds_of y)
creds_of-if N true x y = refl
creds_of-if N false x y = refl

named :
    (w : Write) (es : List Event) (c : Creds)
    → WasSaved w.tab c es
    → WasSaved w.tab (record c { client_id = some w.id }) es
named w [] c h = h
named w (saved t u p ∷ es) c (inl q) = inl q
named w (saved t u p ∷ es) c (inr h) = inr (named w es c h)
named w (cleared t ∷ es) c h = named w es c h
named w (assigned t id ∷ es) c h = named w es c h
named w (written k ∷ es) c h = named w es c h

module _ {N : Type 0} where
  -- What holds of all credentials that can be loaded.
  abbrev pub SlotsHold : (ℕ → Creds → Type 0) → NumMap (Json N) → Type 0
  SlotsHold P slots = (tab : ℕ) (c : Creds) → load_creds tab slots ≡ some c → P tab c

  abbrev pub SlotsSaved : List Event → NumMap (Json N) → Type 0
  SlotsSaved es slots = SlotsHold (λ tab c. WasSaved tab c es) slots

  load_creds-insert :
      (t tab : ℕ) (c : Creds) (slots : NumMap (Json N))
      → load_creds tab (insert t (slot_value c) slots)
        ≡ (if t == tab then some c else load_creds tab slots)
  unfolding load_creds
  load_creds-insert t tab c slots =
      ap creds_of (lookup-insert t tab (slot_value c) slots)
      ∙ creds_of-if N (t == tab) (some (slot_value c)) (lookup tab slots)
      ∙ ap (λ o. if t == tab then o else creds_of (lookup tab slots)) (creds_of-slot_value N c)

  load_creds-remove :
      (t tab : ℕ) (slots : NumMap (Json N))
      → load_creds tab (remove t slots) ≡ (if t == tab then none else load_creds tab slots)
  unfolding load_creds
  load_creds-remove t tab slots =
      ap creds_of (lookup-remove t tab slots)
      ∙ creds_of-if N (t == tab) none (lookup tab slots)
      ∙ ap (λ o. if t == tab then o else creds_of (lookup tab slots))
          (unfold creds_of is_obj in refl)

  pub inserted :
      (P : ℕ → Creds → Type 0) (t : ℕ) (c : Creds) (slots : NumMap (Json N))
      → P t c
      → SlotsHold P slots
      → SlotsHold P (insert t (slot_value c) slots)
  inserted P t c slots w h tab d e = elim (Bool-cases (t == tab)) [
    | inl q ↦
        let same : c ≡ d =
          some_inj c d (sym (load_creds-insert t tab c slots ∙ if-true _ _ q) ∙ e) in
        subst (P tab) same (subst (λ x. P x c) (equal t tab q) w)
    | inr q ↦ h tab d (sym (load_creds-insert t tab c slots ∙ if-false _ _ q) ∙ e)
  ]

  -- Another slot than the one removed is as it was.
  pub removed :
      (P Q : ℕ → Creds → Type 0) (t : ℕ) (slots : NumMap (Json N))
      → ((tab : ℕ) (c : Creds) → (t == tab) ≡ false → P tab c → Q tab c)
      → SlotsHold P slots
      → SlotsHold Q (remove t slots)
  removed P Q t slots f h tab d e = elim (Bool-cases (t == tab)) [
    | inl q ↦ cc (sym (load_creds-remove t tab slots ∙ if-true none (load_creds tab slots) q) ∙ e)
    | inr q ↦ f tab d q (h tab d (sym (load_creds-remove t tab slots ∙ if-false _ _ q) ∙ e))
  ]

  abbrev pub IsSaved : List Event → Storage N → Type 0
  IsSaved es st = SlotsSaved es st.slots × All (WriteSaved es) st.pending

  aged : (e : Event) (es : List Event) (st : Storage N) → IsSaved es st → IsSaved (e ∷ es) st
  aged e es st (h, w) = (λ tab c q. later tab c e es (h tab c q), All-later e es st.pending w)

  client_id_resumed-IsSaved :
      (w : Write) (es : List Event) (st : Storage N)
      → WriteSaved es w
      → IsSaved es st
      → IsSaved es (client_id_resumed w st)
  unfolding client_id_resumed
  client_id_resumed-IsSaved w es st k (h, p) =
      Option-split_eq (IsSaved es) w.current st _ (λ q. (h, p))
        (λ c q. (
          inserted (λ tab d. WasSaved tab d es) w.tab (record c { client_id = some w.id }) st.slots
              (named w es c (k c q)) h,
          p,
        ))

  pub step-IsSaved :
      (e : Event) (es : List Event) (st : Storage N) → IsSaved es st → IsSaved (e ∷ es) (step st e)
  unfolding step save_creds clear_creds save_client_id
  step-IsSaved (saved tab url password) es st v =
      let u = aged (saved tab url password) es st v in
      let c : Creds = record { sync_url = url; sync_password = password; client_id = none } in
      (
        inserted (λ t d. WasSaved t d (saved tab url password ∷ es)) tab c st.slots
            (inl (refl, refl, refl)) u.0,
        u.1,
      )
  step-IsSaved (cleared tab) es st v =
      let u = aged (cleared tab) es st v in
      (
        removed (λ t d. WasSaved t d es) (λ t d. WasSaved t d es) tab st.slots (λ t d q w. w) u.0,
        u.1,
      )
  step-IsSaved (assigned tab id) es st v =
      let u = aged (assigned tab id) es st v in (u.0, ((λ c q. u.0 tab c q), u.1))
  step-IsSaved (written k) es st v =
      let u = aged (written k) es st v in
      Option-split_eq (IsSaved (written k ∷ es)) (get_elem? st.pending k) st _ (λ q. u)
        (λ w q.
          client_id_resumed-IsSaved w (written k ∷ es)
            (record st { pending = erase_idx st.pending k })
            (All-get_elem? (WriteSaved (written k ∷ es)) st.pending k w u.1 q)
            (u.0, All-erase_idx (WriteSaved (written k ∷ es)) st.pending k u.1))

after-IsSaved : (N : Type 0) (es : List Event) → IsSaved es (after {N = N} es)
unfolding after
after-IsSaved N [] = (unfold load_creds lookup creds_of is_obj in λ tab c q. cc, tt)
after-IsSaved N (e ∷ es) = step-IsSaved e es (after es) (after-IsSaved N es)

-- Whatever the order in which operations and awaited writes run, the credentials that are loaded
-- for a tab have a URL and a password that were saved together, for this tab.
load_creds-after :
    (N : Type 0) (es : List Event) (tab : ℕ) (c : Creds)
    → load_creds tab (after {N = N} es).slots ≡ some c
    → WasSaved tab c es
load_creds-after N es tab c e = (after-IsSaved N es).0 tab c e
