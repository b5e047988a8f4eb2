-- ===== src/Storage/Memory/Installations/Latest.antt =====
-- mocks_installations.go of pkg/storage: which installation the Get functions give.
use relaymesh.Prelude.{
  ◌≡◌, refl, sym, ◌∙◌, ◌≤◌, ◌⊎◌, inl, inr, Bool, true, false, false≢true, ◌&&◌, Option, none, some,
  List, [], ◌∷◌, ltb, All, Bool-cases, arith,
}
use relaymesh.Prelude.Text.{Text, same}
use relaymesh.Storage.Records.{InstallRecord}
use relaymesh.Storage.Tenant.{Context}
use relaymesh.Storage.Memory.{visible, select}
use relaymesh.Storage.Memory.Keyed.{Has}
use relaymesh.Storage.Memory.Installations.{
  InstallMap, latest, get_installation, get_by_installation_id, get_by_instance_key,
}

-- No record of a list was updated later.
abbrev pub IsNewest : InstallRecord → List InstallRecord → Type 0
IsNewest r = All (λ s. s.updated_at ≤ r.updated_at)

latest-IsNewest :
    (best : InstallRecord) (l : List InstallRecord)
    → (r : InstallRecord) × (latest (some best) l ≡ some r)
      × ((best ≡ r) ⊎ Has r l)
      × (best.updated_at ≤ r.updated_at)
      × IsNewest r l
unfolding latest
latest-IsNewest best [] = (best, refl, inl refl, (omega arith), tt)
latest-IsNewest best (x ∷ xs) = elim (Bool-cases (ltb best.updated_at x.updated_at)) [
  | inl y ↦
      let (r, found, from, over, all) = latest-IsNewest x xs in
      (r, rw (y, latest) found, inr from, ground (arith, y, over), (over, all))
  | inr n ↦
      let (r, found, from, over, all) = latest-IsNewest best xs in
      (r, rw (n, latest) found, skip from, over, (ground (arith, n, over), all))
]
  where
    skip : {r : InstallRecord} → (best ≡ r) ⊎ Has r xs → (best ≡ r) ⊎ ((x ≡ r) ⊎ Has r xs)
    skip (inl e) = inl e
    skip (inr h) = inr (inr h)

-- What a search for the newest record that passes a test gives.
pub data Newest (test : InstallRecord → Bool) (m : InstallMap) : Option InstallRecord → Type 0 where
  nothing : All (λ e. test e.1 ≡ false) m → Newest test m none
  newest :
      (r : InstallRecord)
      → test r ≡ true
      → Has r (select test m)
      → All (λ e. test e.1 ≡ true → e.1.updated_at ≤ r.updated_at) m
      → Newest test m (some r)

module _ (test : InstallRecord → Bool) where
  select-passes : (m : InstallMap) (r : InstallRecord) → Has r (select test m) → test r ≡ true
  unfolding select
  select-passes [] r h = absurd h
  select-passes ((k, s) ∷ m) r h = elim (Bool-cases (test s)) [
    | inl y ↦ here y (select-passes m r) (rw (y, select) at h)
    | inr n ↦ select-passes m r (rw (n, select) at h)
  ]
    where
      here :
          test s ≡ true
          → (Has r (select test m) → test r ≡ true)
          → (s ≡ r) ⊎ Has r (select test m)
          → test r ≡ true
      here y later (inl e) = rw⁻¹ e y
      here y later (inr x) = later x

  select-newest :
      (m : InstallMap) (r : InstallRecord)
      → IsNewest r (select test m)
      → All (λ e. test e.1 ≡ true → e.1.updated_at ≤ r.updated_at) m
  unfolding select
  select-newest [] r h = tt
  select-newest ((k, s) ∷ m) r h = elim (Bool-cases (test s)) [
    | inl y ↦ let both = rw (y, select) at h in (λ t. both.0, select-newest m r both.1)
    | inr n ↦ (λ t. absurd (false≢true (sym n ∙ t)), select-newest m r (rw (n, select) at h))
  ]

  select-empty : (m : InstallMap) → select test m ≡ [] → All (λ e. test e.1 ≡ false) m
  unfolding select
  select-empty [] h = tt
  select-empty ((k, s) ∷ m) h = elim (Bool-cases (test s)) [
    | inl y ↦ absurd (cc (rw (y, select) at h))
    | inr n ↦ (n, select-empty m (rw (n, select) at h))
  ]

  latest-Newest : (m : InstallMap) → Newest test m (latest none (select test m))
  unfolding latest
  latest-Newest m = go (select test m) refl
    where
      go : (l : List InstallRecord) → select test m ≡ l → Newest test m (latest none l)
      go [] e = nothing (select-empty m e)
      go (x ∷ xs) e =
          let (r, found, from, over, all) = latest-IsNewest x xs in
          let listed : Has r (select test m) = rw e from in
          rw found
            (newest r (select-passes m r listed) listed (select-newest m r (rw e (over, all))))

-- Each of the three searches for an installation gives none if no record fits that the context may
-- see, and otherwise one that fits and that was updated last among those.
pub get_installation-Newest :
    (ctx : Context) (provider account_id installation_id instance_key : Text) (m : InstallMap)
    → Newest
        (λ r.
          (same r.provider provider
            && same r.account_id account_id
            && same r.installation_id installation_id)
          && visible ctx r.tenant_id)
        m
        (get_installation ctx provider account_id installation_id m)
      × Newest
          (λ r.
            (same r.provider provider && same r.installation_id installation_id)
            && visible ctx r.tenant_id)
          m
          (get_by_installation_id ctx provider installation_id m)
      × Newest
          (λ r.
            (same r.provider provider
              && same r.installation_id installation_id
              && same r.provider_instance_key instance_key)
            && visible ctx r.tenant_id)
          m
          (get_by_instance_key ctx provider installation_id instance_key m)
unfolding get_installation get_by_installation_id get_by_instance_key
get_installation-Newest ctx provider account_id installation_id instance_key m =
    (latest-Newest _ m, latest-Newest _ m, latest-Newest _ m)
