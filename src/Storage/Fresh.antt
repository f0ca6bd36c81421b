-- ===== src/Storage/Fresh.antt =====
-- What is loaded behind the wipe of a fresh browser session, in extension/src/background/storage.ts.
use playback_sync.Base.{
  ℕ, true, false, ◌≡◌, ◌≢◌, ◌⊎◌, inl, inr, refl, sym, ◌∙◌, subst, none, some, List, [], ◌∷◌, String,
  All, NumMap, if-split,
}
use playback_sync.Protocol.Json.{Json}
use playback_sync.Ws.{Creds}
use playback_sync.Storage.{
  Storage, Event, saved, cleared, assigned, written, load_creds, save_creds, clear_creds, step,
}
use playback_sync.Storage.Saved.{WasSaved, WriteSaved, IsSaved, step-IsSaved}
use playback_sync.Storage.Wipe.{
  Wipe, idle, checking, listing, removing, marking, Boot, BootEvent, did, woke, resumed, keys,
  resume, boot_step, boot,
}
use playback_sync.Storage.Progress.{
  loaded_has, remove_all-SlotsHold, Progress, grown, Progress-insert, Progress-remove,
  listed-Progress,
}

-- The operations on the slots, newest first.
abbrev pub operations : List BootEvent → List Event
operations [] = []
operations (did e ∷ es) = e ∷ operations es
operations (_ ∷ es) = operations es

module _ {N : Type 0} where
  -- No client id came before the wipe was over.
  abbrev pub IsCalm : NumMap (Json N) → List BootEvent → Type 0
  IsCalm left [] = Unit
  IsCalm left (did (assigned tab id) ∷ es) = (boot left es).booted ≡ true × IsCalm left es
  IsCalm left (_ ∷ es) = IsCalm left es

  -- Behind the wipe all is saved; before it no write waits.
  abbrev IsFresh : List Event → Boot N → Type 0
  IsFresh es b =
      ((b.booted ≡ true) × IsSaved es b.storage)
      ⊎ ((b.booted ≡ false) × (b.storage.pending ≡ []) × Progress es b.wipe b.storage.slots)

  resume-IsFresh :
      (w : Wipe) (b : Boot N) (es : List Event)
      → b.wipe ≡ w
      → IsFresh es b
      → IsFresh es (resume w b)
  unfolding resume
  resume-IsFresh idle b es e h = h
  resume-IsFresh checking b es e (inl h) =
      if-split (IsFresh es) b.booted _ _ (λ q. inl h) (λ q. inl h)
  resume-IsFresh checking b es e (inr (nb, np, p)) =
      if-split (IsFresh es) b.booted _ _ (λ q. inr (nb, np, tt)) (λ q. inr (nb, np, tt))
  resume-IsFresh listing b es e (inl h) = inl h
  resume-IsFresh listing b es e (inr (nb, np, p)) = inr (
    nb,
    np,
    listed-Progress es (keys b.storage.slots) b.storage.slots
        (λ tab c q. inr (loaded_has tab c b.storage.slots q)),
  )
  resume-IsFresh (removing ks) b es e (inl (y, (s, w))) = inl (
    y,
    (
      remove_all-SlotsHold (λ tab c. WasSaved tab c es) ks b.storage.slots
          (λ tab c q. inl (s tab c q)),
      w,
    ),
  )
  resume-IsFresh (removing ks) b es e (inr (nb, np, p)) = inr (
    nb,
    np,
    remove_all-SlotsHold (λ tab c. WasSaved tab c es) ks b.storage.slots
        (subst (λ v. Progress es v b.storage.slots) e p),
  )
  resume-IsFresh marking b es e (inl (y, s)) = inl (refl, s)
  resume-IsFresh marking b es e (inr (nb, np, p)) = inl (
    refl,
    (subst (λ v. Progress es v b.storage.slots) e p, subst (All (WriteSaved es)) (sym np) tt),
  )

  unwritten : (st : Storage N) (k : ℕ) → st.pending ≡ [] → step st (written k) ≡ st
  unfolding step
  unwritten st k e = rw e refl

  -- An operation before the wipe is over; no client id comes then.
  early-IsFresh :
      (e : Event) (b : Boot N) (es : List Event)
      → ((tab : ℕ) (id : String) → e ≢ assigned tab id)
      → b.booted ≡ false
      → b.storage.pending ≡ []
      → Progress es b.wipe b.storage.slots
      → IsFresh (e ∷ es) (boot_step b (did e))
  unfolding boot_step step save_creds clear_creds
  early-IsFresh (saved tab url password) b es calm nb np p = inr (
    nb,
    np,
    Progress-insert (saved tab url password ∷ es) b.wipe tab
        (record { sync_url = url; sync_password = password; client_id = none }) b.storage.slots
        (inl (refl, refl, refl)) (grown (saved tab url password) es b.wipe b.storage.slots p),
  )
  early-IsFresh (cleared tab) b es calm nb np p = inr (
    nb,
    np,
    Progress-remove (cleared tab ∷ es) b.wipe tab b.storage.slots
        (grown (cleared tab) es b.wipe b.storage.slots p),
  )
  early-IsFresh (assigned tab id) b es calm nb np p = absurd (calm tab id refl)
  early-IsFresh (written k) b es calm nb np p =
      subst (λ t. IsFresh (written k ∷ es) (record b { storage = t }))
        (sym (unwritten b.storage k np))
        (inr (nb, np, grown (written k) es b.wipe b.storage.slots p))

  IsCalm-before :
      (left : NumMap (Json N)) (e : Event) (es : List BootEvent)
      → IsCalm left (did e ∷ es)
      → IsCalm left es
        × ((tab : ℕ) (id : String) → e ≡ assigned tab id → (boot left es).booted ≡ true)
  IsCalm-before left (saved tab url password) es h = (h, λ t i q. cc)
  IsCalm-before left (cleared tab) es h = (h, λ t i q. cc)
  IsCalm-before left (assigned tab id) es (y, h) = (h, λ t i q. y)
  IsCalm-before left (written k) es h = (h, λ t i q. cc)

  boot-IsFresh :
      (left : NumMap (Json N)) (es : List BootEvent)
      → IsCalm left es
      → IsFresh (operations es) (boot left es)
  unfolding boot boot_step
  boot-IsFresh left [] h = inr (refl, refl, tt)
  boot-IsFresh left (woke ∷ es) h = elim (boot-IsFresh left es h) [
    | inl s ↦ inl s
    | inr (nb, np, p) ↦ inr (nb, np, tt)
  ]
  boot-IsFresh left (resumed ∷ es) h =
      resume-IsFresh (boot left es).wipe (boot left es) (operations es) refl
        (boot-IsFresh left es h)
  boot-IsFresh left (did e ∷ es) h =
      let (before, calm) = IsCalm-before left e es h in
      elim (boot-IsFresh left es before) [
        | inl (y, s) ↦ inl (y, step-IsSaved e (operations es) (boot left es).storage s)
        | inr (nb, np, p) ↦
            early-IsFresh e (boot left es) (operations es) (λ tab id q. cc (sym nb ∙ calm tab id q))
              nb np p
      ]

-- Behind the wipe of a fresh browser session, whatever an earlier session left: the credentials that are
-- loaded for a tab have a URL and a password that were saved together, for this tab, since the browser
-- started. The operations come in any order, also between the awaits of the wipe, but no client id is
-- assigned before the wipe is over.
pub load_creds-boot :
    (N : Type 0) (left : NumMap (Json N)) (es : List BootEvent) (tab : ℕ) (c : Creds)
    → IsCalm left es
    → (boot left es).booted ≡ true
    → load_creds tab (boot left es).storage.slots ≡ some c
    → WasSaved tab c (operations es)
load_creds-boot N left es tab c calm booted e = elim (boot-IsFresh left es calm) [
  | inl (y, s) ↦ s.0 tab c e
  | inr (nb, np, p) ↦ cc
]
