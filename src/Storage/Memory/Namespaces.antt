-- ===== src/Storage/Memory/Namespaces.antt =====
-- mocks_namespaces.go and mocks_provider_instances.go of pkg/storage: the namespaces and the instances
-- of providers in memory.
use relaymesh.Prelude.{ℕ, Bool, ◌&&◌, Option, List, [], ◌∷◌, ◌++◌, if◌then◌else◌}
use relaymesh.Prelude.Text.{Text, same}
use relaymesh.Prelude.Table.{Table, lookup, insert, remove}
use relaymesh.Storage.Records.{NamespaceRecord, ProviderInstanceRecord}
use relaymesh.Storage.Tenant.{Context, tenant_from_context}
use relaymesh.Storage.Identity.{namespace_record_id, provider_instance_record_id}
use relaymesh.Storage.Memory.{own_tenant, matches, visible, or_now, select, delete_where}

-- NamespaceFilter
pub record NamespaceFilter : Type 0 where
  pub tenant_id : Text
  pub provider : Text
  pub provider_instance_key : Text
  pub account_id : Text
  pub installation_id : Text
  pub repo_id : Text
  pub owner : Text
  pub repo_name : Text
  pub full_name : Text

-- MockNamespaceStore
abbrev pub NamespaceMap : Type 0
NamespaceMap = Table NamespaceRecord

-- namespaceKey
unfoldable pub namespace_key : Text → Text → Text → Text → Text
namespace_key tenant_id provider instance_key repo_id =
    tenant_id ++ (b'|' ∷ provider ++ (b'|' ∷ instance_key ++ (b'|' ∷ repo_id)))

-- GetNamespace
unfoldable pub get_namespace : Context → Text → Text → Text → NamespaceMap → Option NamespaceRecord
get_namespace ctx provider repo_id instance_key m =
    lookup (namespace_key (tenant_from_context ctx) provider instance_key repo_id) m

-- The tests of ListNamespaces on one record.
unfoldable pub passes : Context → NamespaceFilter → NamespaceRecord → Bool
passes ctx f r =
    matches (own_tenant ctx f.tenant_id) r.tenant_id
    && matches f.provider r.provider
    && matches f.provider_instance_key r.provider_instance_key
    && matches f.account_id r.account_id
    && matches f.installation_id r.installation_id
    && matches f.repo_id r.repo_id
    && matches f.owner r.owner
    && matches f.repo_name r.repo_name
    && matches f.full_name r.full_name

-- ListNamespaces
unfoldable pub list_namespaces : Context → NamespaceFilter → NamespaceMap → List NamespaceRecord
unfolding passes
list_namespaces ctx f m = select (passes ctx f) m

-- DeleteNamespace
unfoldable pub delete_namespace : Context → Text → Text → Text → NamespaceMap → NamespaceMap
delete_namespace ctx provider repo_id instance_key m =
    delete_where
      (λ r.
        (same r.provider provider && same r.repo_id repo_id)
        && matches instance_key r.provider_instance_key
        && visible ctx r.tenant_id)
      m

-- MockProviderInstanceStore
abbrev pub InstanceMap : Type 0
InstanceMap = Table ProviderInstanceRecord

-- providerInstanceKey
unfoldable pub instance_key : Text → Text → Text → Text
instance_key tenant_id provider key = tenant_id ++ (b'|' ∷ provider ++ (b'|' ∷ key))

-- ListProviderInstances
unfoldable pub list_instances : Context → Text → InstanceMap → List ProviderInstanceRecord
list_instances ctx provider m =
    select (λ r. visible ctx r.tenant_id && matches provider r.provider) m

-- GetProviderInstance
unfoldable pub get_instance : Context → Text → Text → InstanceMap → Option ProviderInstanceRecord
get_instance ctx provider key m = lookup (instance_key (tenant_from_context ctx) provider key) m

-- DeleteProviderInstance
unfoldable pub delete_instance : Context → Text → Text → InstanceMap → InstanceMap
delete_instance ctx provider key m = remove (instance_key (tenant_from_context ctx) provider key) m

module _ (sha256_hex : Text → Text) where
  -- The record as UpsertNamespace stores it, from two readings of the clock.
  unfoldable pub kept_namespace : Context → ℕ → ℕ → NamespaceRecord → NamespaceRecord
  kept_namespace ctx t1 t2 r =
      let owned = record r { tenant_id = own_tenant ctx r.tenant_id } in
      record owned {
        id = if same r.id [] then namespace_record_id sha256_hex owned else r.id;
        created_at = or_now r.created_at t1;
        updated_at = t2;
      }

  -- UpsertNamespace
  unfoldable pub upsert_namespace : Context → ℕ → ℕ → NamespaceRecord → NamespaceMap → NamespaceMap
  upsert_namespace ctx t1 t2 r m =
      let k = kept_namespace ctx t1 t2 r in
      insert (namespace_key k.tenant_id k.provider k.provider_instance_key k.repo_id) k m

  -- The record as UpsertProviderInstance stores it, from two readings of the clock.
  unfoldable pub kept_instance : Context → ℕ → ℕ → ProviderInstanceRecord → ProviderInstanceRecord
  kept_instance ctx t1 t2 r =
      let owned = record r { tenant_id = own_tenant ctx r.tenant_id } in
      record owned {
        id = if same r.id [] then provider_instance_record_id sha256_hex owned else r.id;
        created_at = or_now r.created_at t1;
        updated_at = t2;
      }

  -- UpsertProviderInstance
  unfoldable pub upsert_instance :
      Context → ℕ → ℕ → ProviderInstanceRecord → InstanceMap → ProviderInstanceRecord × InstanceMap
  upsert_instance ctx t1 t2 r m =
      let kept = kept_instance ctx t1 t2 r in
      (kept, insert (instance_key kept.tenant_id kept.provider kept.key) kept m)
