-- ===== src/Access/Instances.antt =====
-- pkg/providerinstance: the instances of providers of each tenant, and their cache. encoding/json is a
-- parameter: into the wire structs, and of a configuration. The tenant cache is a table; its lock and
-- the logger are left out.
pub mod Wire
pub mod Refresh
use relaymesh.Prelude.{
  Bool, true, false, not, ◌&&◌, ◌||◌, Option, none, some, List, [], ◌∷◌, ◌++◌, is_empty,
  if◌then◌else◌,
}
use relaymesh.Prelude.Int.{is_zero}
use relaymesh.Prelude.Text.{Text, text, same, is_blank}
use relaymesh.Prelude.Table.{Table, lookup, insert, remove}
use relaymesh.Prelude.Outcome.{Errors, Outcome, ok, fail, ◌>>=◌}
use relaymesh.Storage.Records.{ProviderInstanceRecord}
use relaymesh.Storage.Tenant.{Context, tenant_from_context}
use relaymesh.Access.Providers.{ProviderConfig, AuthConfig}

-- hasProviderConfig
unfoldable pub has_provider_config : ProviderConfig → Bool
has_provider_config cfg =
    cfg.enabled
    || not (is_blank cfg.webhook.path)
    || not (is_blank cfg.webhook.secret)
    || not (is_zero cfg.app.app_id)
    || not (is_blank cfg.app.private_key_path)
    || not (is_blank cfg.app.private_key_pem)
    || not (is_blank cfg.app.app_slug)
    || not (is_blank cfg.oauth.client_id)
    || not (is_blank cfg.oauth.client_secret)
    || not (is_empty cfg.oauth.scopes)
    || not (is_blank cfg.api.base_url)
    || not (is_blank cfg.api.web_base_url)

module _ (marshal : ProviderConfig → Outcome Text) where
  -- instanceRecord
  unfoldable pub instance_record : Text → ProviderConfig → Outcome ProviderInstanceRecord
  instance_record provider cfg = do
    raw ← marshal (record cfg { key = [] })
    ok (record {
      id = [];
      tenant_id = [];
      provider = provider;
      key = [];
      config_json = raw;
      redirect_base_url = [];
      enabled = true;
      created_at = 0;
      updated_at = 0;
    })

  -- instanceRecordFromConfig, as the records that it adds
  unfoldable pub instance_from_config :
      Text → ProviderConfig → Outcome (List ProviderInstanceRecord)
  instance_from_config provider cfg =
      if has_provider_config cfg then (do r ← instance_record provider cfg; ok (r ∷ [])) else ok []

  -- The instance of Atlassian: its own, or else the one of Jira under its name.
  unfoldable pub atlassian_instance : AuthConfig → Outcome (List ProviderInstanceRecord)
  atlassian_instance cfg =
      if has_provider_config cfg.atlassian
      then instance_from_config (text "atlassian") cfg.atlassian
      else instance_from_config (text "atlassian") cfg.jira

  -- RecordsFromConfig
  unfoldable pub instances_from_config : AuthConfig → Outcome (List ProviderInstanceRecord)
  instances_from_config cfg = do
    github ← instance_from_config (text "github") cfg.github
    gitlab ← instance_from_config (text "gitlab") cfg.gitlab
    bitbucket ← instance_from_config (text "bitbucket") cfg.bitbucket
    slack ← instance_from_config (text "slack") cfg.slack
    atlassian ← atlassian_instance cfg
    ok (github ++ (gitlab ++ (bitbucket ++ (slack ++ atlassian))))

-- ListProviderInstances of a storage.ProviderInstanceStore, for all providers
abbrev pub ListInstances : Type 0 → Type 0
ListInstances W = Context → W → Outcome (List ProviderInstanceRecord) × W

-- The configurations of a tenant, by provider and key.
abbrev pub Configs : Type 0
Configs = Table ProviderConfig

-- Cache
pub record InstanceCache (W : Type 0) : Type 0 where
  pub store : Option (ListInstances W)
  pub items : Table Configs

-- `record.Provider + ":" + record.Key`
unfoldable pub config_key : Text → Text → Text
config_key provider key = provider ++ (b':' ∷ key)

-- `grouped[id]`, nil where the id is missing.
unfoldable pub group_at : Text → Table (List ProviderInstanceRecord) → List ProviderInstanceRecord
group_at id grouped = elim (lookup id grouped) [ some rs ↦ rs | none ↦ [] ]

-- The records by their tenants.
unfoldable pub group_records :
    List ProviderInstanceRecord
    → Table (List ProviderInstanceRecord)
    → Table (List ProviderInstanceRecord)
group_records [] grouped = grouped
group_records (r ∷ rs) grouped =
    group_records rs (insert r.tenant_id (group_at r.tenant_id grouped ++ (r ∷ [])) grouped)

-- Deletes the tenants that are not among the groups.
unfoldable pub delete_stale : Table (List ProviderInstanceRecord) → Table Configs → Table Configs
delete_stale grouped [] = []
delete_stale grouped ((id, configs) ∷ items) =
    let rest = delete_stale grouped items in
    elim (lookup id grouped) [ some rs ↦ (id, configs) ∷ rest | none ↦ rest ]

-- `config_of` is ProviderConfigFromRecord.
module _ (config_of : ProviderInstanceRecord → Outcome ProviderConfig) where
  -- The loop of refreshTenant.
  unfoldable pub build_configs : List ProviderInstanceRecord → Configs → Outcome Configs
  build_configs [] configs = ok configs
  build_configs (r ∷ rs) configs = do
    cfg ← config_of r
    build_configs rs (insert (config_key r.provider r.key) cfg configs)

  set_configs : Text → Table Configs → Outcome Configs → Errors × Table Configs
  set_configs tenant_id items (fail e) = (e, items)
  set_configs tenant_id items (ok configs) =
      if is_empty configs
      then ([], remove tenant_id items)
      else ([], insert tenant_id configs items)

  -- refreshTenant
  unfoldable pub refresh_instances :
      Text → List ProviderInstanceRecord → Table Configs → Errors × Table Configs
  unfolding set_configs
  refresh_instances tenant_id records items = set_configs tenant_id items (build_configs records [])

  -- The loop of Refresh over the groups.
  unfoldable pub refresh_groups :
      Table (List ProviderInstanceRecord) → Table Configs → Errors × Table Configs
  refresh_groups [] items = ([], items)
  refresh_groups ((id, records) ∷ rest) items =
      let (e, after) = refresh_instances id records items in
      let later = refresh_groups rest after in if is_empty e then later else (e, after)

  -- Refresh behind the listing of the records.
  unfoldable pub refresh_with :
      Text → Outcome (List ProviderInstanceRecord) → Table Configs → Errors × Table Configs
  refresh_with tenant_id (fail e) items = (e, items)
  refresh_with tenant_id (ok records) items =
      let grouped = group_records records [] in
      let (e, after) = refresh_groups grouped items in
      if not (same tenant_id [])
      then refresh_instances tenant_id records items
      else if is_empty e
      then ([], delete_stale grouped after)
      else (e, after)

  module _ (W : Type 0) where
    -- Refresh
    unfoldable pub refresh_cache : Context → InstanceCache W → W → Errors × InstanceCache W × W
    refresh_cache ctx c w = elim (c.store) [
      | none ↦ ([], c, w)
      | some list ↦
          let (listed, after) = list ctx w in
          let (e, items) = refresh_with (tenant_from_context ctx) listed c.items in
          (e, record c { items = items }, after)
    ]

    -- `configs[provider+":"+key]` of a tenant that the cache has.
    unfoldable pub cached_config :
        Text → Text → Text → InstanceCache W → Option (Option ProviderConfig)
    cached_config tenant_id provider key c = elim (lookup tenant_id c.items) [
      | none ↦ none
      | some configs ↦ some (lookup (config_key provider key) configs)
    ]

    -- What ConfigFor gives behind a refresh.
    unfoldable pub config_after :
        Text
        → Text
        → Text
        → Errors × InstanceCache W × W
        → Outcome (Option ProviderConfig) × InstanceCache W × W
    config_after tenant_id provider key (e, c, w) =
        let found : Option ProviderConfig = elim (cached_config tenant_id provider key c) [
          | some o ↦ o
          | none ↦ none
        ] in
        if is_empty e then (ok found, c, w) else (fail e, c, w)

    -- ConfigFor
    unfoldable pub config_for :
        Context
        → Text
        → Text
        → InstanceCache W
        → W
        → Outcome (Option ProviderConfig) × InstanceCache W × W
    config_for ctx provider key c w =
        let tenant_id = tenant_from_context ctx in
        let refreshed = config_after tenant_id provider key (refresh_cache ctx c w) in
        elim (cached_config tenant_id provider key c) [
          | some o ↦ (ok o, c, w)
          | none ↦ elim (c.store) [
            | none ↦ (fail (text "provider instance store not configured" ∷ []), c, w)
            | some list ↦ refreshed
          ]
        ]

    -- Close
    unfoldable pub close_instances : InstanceCache W → InstanceCache W
    close_instances c = record c { items = [] }
