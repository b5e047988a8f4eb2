-- ===== src/Access/Instances/Refresh.antt =====
-- Refresh of pkg/providerinstance/cache.go: the tenants that it changes.
use relaymesh.Prelude.{
  ◌≡◌, ◌≢◌, refl, sym, ◌∙◌, true, false, false≢true, Option, none, some, List, [], ◌∷◌, is_empty,
  All, Bool-cases, inl, inr, arith,
}
use relaymesh.Prelude.Text.{Text, same, same_iff, same_ne}
use relaymesh.Prelude.Table.{Table, lookup, lookup-insert, lookup-remove}
use relaymesh.Prelude.Outcome.{Outcome, ok, fail}
use relaymesh.Storage.Records.{ProviderInstanceRecord}
use relaymesh.Access.Providers.{ProviderConfig}
use relaymesh.Access.Instances.{
  Configs, group_records, delete_stale, build_configs, set_configs, refresh_instances,
  refresh_groups, refresh_with,
}

lookup-delete_stale :
    (id : Text) (grouped : Table (List ProviderInstanceRecord)) (items : Table Configs)
    → lookup id grouped ≡ none
    → lookup id (delete_stale grouped items) ≡ none
unfolding delete_stale lookup
lookup-delete_stale id grouped [] h = refl
lookup-delete_stale id grouped ((j, configs) ∷ items) h =
    go (lookup j grouped) refl (lookup-delete_stale id grouped items h)
  where
    go :
        (o : Option (List ProviderInstanceRecord))
        → lookup j grouped ≡ o
        → lookup id (delete_stale grouped items) ≡ none
        → lookup id (elim o as (λ x. Table Configs) [
          | some rs ↦ (j, configs) ∷ delete_stale grouped items
          | none ↦ delete_stale grouped items
        ])
          ≡ none
    go none e rest = rest
    go (some rs) e rest = elim (Bool-cases (same j id)) [
      | inl y ↦ absurd (cc (h, e, (same_iff j id).0 y))
      | inr n ↦ rw (n, lookup) rest
    ]

lookup-group_records :
    (id : Text) (records : List ProviderInstanceRecord)
    (grouped : Table (List ProviderInstanceRecord))
    → All (λ r. same r.tenant_id id ≡ false) records
    → lookup id grouped ≡ none
    → lookup id (group_records records grouped) ≡ none
unfolding group_records
lookup-group_records id [] grouped h g = g
lookup-group_records id (r ∷ rs) grouped h g =
    lookup-group_records id rs _ h.1 (lookup-insert r.tenant_id id _ grouped ∙ rw h.0 g)

module _ (config_of : ProviderInstanceRecord → Outcome ProviderConfig) where
  set_configs_apart :
      (tenant k : Text) (items : Table Configs) (o : Outcome Configs)
      → tenant ≢ k
      → lookup k (set_configs config_of tenant items o).1 ≡ lookup k items
  unfolding set_configs
  set_configs_apart tenant k items (fail e) ne = refl
  set_configs_apart tenant k items (ok configs) ne = ground (
    arith,
    same_ne tenant k ne,
    lookup-insert tenant k configs items,
    lookup-remove tenant k items,
  )

  -- A refresh for one tenant leaves what the cache has for every other tenant.
  pub refresh_with_apart :
      (tenant k : Text) (listed : Outcome (List ProviderInstanceRecord)) (items : Table Configs)
      → tenant ≢ k
      → same tenant [] ≡ false
      → lookup k (refresh_with config_of tenant listed items).1 ≡ lookup k items
  unfolding refresh_with refresh_instances
  refresh_with_apart tenant k (fail e) items ne full = refl
  refresh_with_apart tenant k (ok records) items ne full =
      rw (full, refresh_with)
        (set_configs_apart tenant k items (build_configs config_of records []) ne)

  -- A refresh without a tenant that returns no error leaves the cache nothing for a tenant that has
  -- no instance of a provider any more.
  pub refresh_with_stale :
      (id : Text) (records : List ProviderInstanceRecord) (items : Table Configs)
      → is_empty (refresh_with config_of [] (ok records) items).0 ≡ true
      → All (λ r. same r.tenant_id id ≡ false) records
      → lookup id (refresh_with config_of [] (ok records) items).1 ≡ none
  unfolding refresh_with same lookup
  refresh_with_stale id records items h gone =
      elim (Bool-cases (is_empty (refresh_groups config_of (group_records records []) items).0)) [
        | inl y ↦
            rw (y, refresh_with)
              (lookup-delete_stale id _ _ (lookup-group_records id records [] gone refl))
        | inr n ↦ absurd (false≢true (sym n ∙ (rw (n, refresh_with) at h)))
      ]
