-- ===== src/Storage/Memory/Drivers/Single.antt =====
-- UpsertDriver of mocks_drivers.go, pkg/storage: a tenant keeps one driver.
use relaymesh.Prelude.{
  ◌≡◌, ◌≢◌, refl, sym, ap, ◌∙◌, ℕ, Bool, true, false, not, ◌&&◌, [], ◌∷◌, ◌++◌, ◌==◌, All,
  Bool-cases, inl, inr, arith, and-eq-true,
}
use relaymesh.Prelude.Text.{Text, same, same_iff, same_refl, same_ne}
use relaymesh.Prelude.Table.{Table, insert}
use relaymesh.Storage.Records.{DriverRecord}
use relaymesh.Storage.Tenant.{Context, tenant_from_context}
use relaymesh.Storage.Memory.{select, delete_where}
use relaymesh.Storage.Memory.Keyed.{has, IsKeyed, delete_where-IsKeyed}
use relaymesh.Storage.Memory.Drivers.{
  DriverMap, driver_key, list_drivers, kept_driver, upsert_driver,
}

module _ {V : Type 0} (test : V → Bool) (k : Text) where
  -- Only the value under `k` may pass the test.
  abbrev Alone : Table V → Type 0
  Alone = All (λ e. test e.1 ≡ true → e.0 ≡ k)

  -- The value under `k` does not pass the test.
  abbrev Failing : Table V → Type 0
  Failing = All (λ e. e.0 ≡ k → test e.1 ≡ false)

  select-Alone : (m : Table V) → Alone m → has k m ≡ false → select test m ≡ []
  unfolding select
  select-Alone [] a h = refl
  select-Alone ((j, w) ∷ m) a h = elim (Bool-cases (test w)) [
    | inl t ↦ absurd (ground (arith, h, same_iff j k, a.0 t))
    | inr f ↦ rw (f, select) (select-Alone m a.1 (ground (arith, h)))
  ]

  -- An inserted value is the only one that passes.
  pub select-insert-Alone :
      (key : V → Text) (v : V) (m : Table V)
      → test v ≡ true
      → Alone m
      → IsKeyed key m
      → select test (insert k v m) ≡ v ∷ []
  unfolding select insert
  select-insert-Alone key v [] t a h = rw (t, select) refl
  select-insert-Alone key v ((j, w) ∷ m) t a h = elim (Bool-cases (same j k)) [
    | inl y ↦
        rw (y, t, insert, select)
          (ap (λ x. v ∷ x) (select-Alone m a.1 (rw⁻¹ ((same_iff j k).0 y) h.1)))
    | inr n ↦ elim (Bool-cases (test w)) [
      | inl s ↦ absurd (ground (arith, n, same_iff j k, a.0 s))
      | inr f ↦ rw (n, f, insert, select) (select-insert-Alone key v m t a.1 h.2)
    ]
  ]

  -- An inserted value that does not pass changes nothing, nor does what it replaces.
  pub select-insert-Failing :
      (v : V) (m : Table V)
      → test v ≡ false
      → Failing m
      → select test (insert k v m) ≡ select test m
  unfolding select insert
  select-insert-Failing v [] t a = rw (t, select) refl
  select-insert-Failing v ((j, w) ∷ m) t a = elim (Bool-cases (same j k)) [
    | inl y ↦ rw (y, t, a.0 ((same_iff j k).0 y), insert, select) refl
    | inr n ↦ elim (Bool-cases (test w)) [
      | inl s ↦ rw (n, s, insert, select) (ap (λ x. w ∷ x) (select-insert-Failing v m t a.1))
      | inr f ↦ rw (n, f, insert, select) (select-insert-Failing v m t a.1)
    ]
  ]

module _ {V : Type 0} (test gone : V → Bool) where
  -- What is deleted would not pass.
  select-delete_where :
      (m : Table V)
      → ((v : V) → gone v ≡ true → test v ≡ false)
      → select test (delete_where gone m) ≡ select test m
  unfolding select delete_where
  select-delete_where [] h = refl
  select-delete_where ((j, w) ∷ m) h = ground (arith, h w, select-delete_where m h)

  -- What holds of the rest.
  All-delete_where :
      (Q P : Text × V → Type 0) (m : Table V)
      → ((j : Text) (v : V) → gone v ≡ false → Q (j, v) → P (j, v))
      → All Q m
      → All P (delete_where gone m)
  unfolding delete_where
  All-delete_where Q P [] h q = tt
  All-delete_where Q P ((j, w) ∷ m) h q = elim (Bool-cases (gone w)) [
    | inl y ↦ rw (y, delete_where) (All-delete_where Q P m h q.1)
    | inr n ↦ rw (n, delete_where) (h j w n q.0, All-delete_where Q P m h q.1)
  ]

-- The key of a driver.
abbrev pub key_of : DriverRecord → Text
key_of r = driver_key r.tenant_id r.name

-- No bar, which ends the tenant in a key.
abbrev pub no_bar : Text → Bool
no_bar [] = true
no_bar (c ∷ cs) = not (c == b'|') && no_bar cs

driver_key-inj :
    (t u n p : Text) → no_bar t ≡ true → no_bar u ≡ true → driver_key t n ≡ driver_key u p → t ≡ u
unfolding driver_key
driver_key-inj [] [] n p ht hu e = refl
driver_key-inj [] (c ∷ u) n p ht hu e = absurd (ground (arith, hu, e))
driver_key-inj (c ∷ t) [] n p ht hu e = absurd (ground (arith, ht, e))
driver_key-inj (c ∷ t) (d ∷ u) n p ht hu e =
    let same_head : c ≡ d = cc e in
    let same_tail : t ++ (b'|' ∷ n) ≡ u ++ (b'|' ∷ p) = cc e in
    let rest : t ≡ u =
      driver_key-inj t u n p (and-eq-true (not (c == b'|')) (no_bar t) ht).1
        (and-eq-true (not (d == b'|')) (no_bar u) hu).1 same_tail in
    cc (same_head, rest)

-- Each record stands under its own key, and its tenant has no bar.
abbrev Separate : DriverMap → Type 0
Separate = All (λ e. (e.0 ≡ key_of e.1) × (no_bar e.1.tenant_id ≡ true))

separate :
    (m : DriverMap) → IsKeyed key_of m → All (λ e. no_bar e.1.tenant_id ≡ true) m → Separate m
separate [] h bars = tt
separate ((j, r) ∷ m) h bars = ((h.0, bars.0), separate m h.2 bars.1)

-- The drivers that an upsert deletes.
abbrev others_of : Text → Text → DriverRecord → Bool
others_of t name s = same s.tenant_id t && not (same s.name name)

left-Alone :
    (t name : Text) (m : DriverMap)
    → Separate m
    → Alone (λ s. same s.tenant_id t) (driver_key t name) (delete_where (others_of t name) m)
left-Alone t name m sep =
    All-delete_where (λ s. same s.tenant_id t) (others_of t name) _ _ m one sep
  where
    one :
        (j : Text) (v : DriverRecord)
        → others_of t name v ≡ false
        → (j ≡ key_of v) × (no_bar v.tenant_id ≡ true)
        → same v.tenant_id t ≡ true
        → j ≡ driver_key t name
    one j v kept own mine =
        let tenant : v.tenant_id ≡ t = (same_iff v.tenant_id t).0 mine in
        let same_name : same v.name name ≡ true = ground (arith, kept, mine) in
        own.0 ∙ cc (tenant, (same_iff v.name name).0 same_name)

left-Failing :
    (t u name : Text) (m : DriverMap)
    → no_bar t ≡ true
    → t ≢ u
    → Separate m
    → Failing (λ s. same s.tenant_id u) (driver_key t name) (delete_where (others_of t name) m)
left-Failing t u name m bar ne sep =
    All-delete_where (λ s. same s.tenant_id u) (others_of t name) _ _ m one sep
  where
    one :
        (j : Text) (v : DriverRecord)
        → others_of t name v ≡ false
        → (j ≡ key_of v) × (no_bar v.tenant_id ≡ true)
        → j ≡ driver_key t name
        → same v.tenant_id u ≡ false
    one j v kept own at_key =
        let tenant : v.tenant_id ≡ t =
          driver_key-inj v.tenant_id t v.name name own.1 bar (sym own.0 ∙ at_key) in
        rw tenant (same_ne t u ne)

-- A driver that is upserted is the only one of its tenant from then on. The drivers of another tenant
-- stay, where the tenants' names have no bar, which the keys of the store separate them by.
pub upsert_driver_single :
    (ctx other : Context) (t1 t2 : ℕ) (r : DriverRecord) (m : DriverMap)
    → IsKeyed key_of m
    → no_bar (tenant_from_context ctx) ≡ true
    → All (λ e. no_bar e.1.tenant_id ≡ true) m
    → tenant_from_context ctx ≢ tenant_from_context other
    → (list_drivers ctx (upsert_driver ctx t1 t2 r m).1 ≡ kept_driver ctx t1 t2 r ∷ [])
      × (list_drivers other (upsert_driver ctx t1 t2 r m).1 ≡ list_drivers other m)
unfolding list_drivers upsert_driver kept_driver
upsert_driver_single ctx other t1 t2 r m h bar bars ne =
    let t = tenant_from_context ctx in
    let u = tenant_from_context other in
    let left = delete_where (others_of t r.name) m in
    let sep = separate m h bars in
    (
      select-insert-Alone (λ s. same s.tenant_id t) (driver_key t r.name) key_of
          (kept_driver ctx t1 t2 r) left (same_refl t) (left-Alone t r.name m sep)
          (delete_where-IsKeyed key_of (others_of t r.name) m h),
      select-insert-Failing (λ s. same s.tenant_id u) (driver_key t r.name)
            (kept_driver ctx t1 t2 r) left (same_ne t u ne) (left-Failing t u r.name m bar ne sep)
          ∙ select-delete_where (λ s. same s.tenant_id u) (others_of t r.name) m
              (λ v deleted.
                let tenant : v.tenant_id ≡ t =
                  (same_iff v.tenant_id t).0
                    (and-eq-true (same v.tenant_id t) (not (same v.name r.name)) deleted).0 in
                rw tenant (same_ne t u ne)),
    )
