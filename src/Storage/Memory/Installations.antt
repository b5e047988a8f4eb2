-- ===== src/Storage/Memory/Installations.antt =====
-- mocks_installations.go of pkg/storage: the installations in memory.
pub mod Latest
use relaymesh.Prelude.{ℕ, Bool, ◌&&◌, Option, none, some, List, [], ◌∷◌, ◌++◌, ltb, if◌then◌else◌}
use relaymesh.Prelude.Text.{Text, same}
use relaymesh.Prelude.Table.{Table, insert}
use relaymesh.Storage.Records.{InstallRecord}
use relaymesh.Storage.Tenant.{Context}
use relaymesh.Storage.Identity.{install_record_id}
use relaymesh.Storage.Memory.{own_tenant, matches, visible, or_now, select, delete_where}

-- MockStore
abbrev pub InstallMap : Type 0
InstallMap = Table InstallRecord

-- installKey
unfoldable pub install_key : InstallRecord → Text
install_key r =
    r.tenant_id
    ++ (b'|' ∷ r.provider
        ++ (b'|' ∷ r.account_id ++ (b'|' ∷ r.installation_id ++ (b'|' ∷ r.provider_instance_key))))

-- The loops of the three Get functions: a record that was updated later replaces the one found.
unfoldable pub latest : Option InstallRecord → List InstallRecord → Option InstallRecord
latest found [] = found
latest none (r ∷ rs) = latest (some r) rs
latest (some best) (r ∷ rs) =
    let kept = latest (some best) rs in
    let newer = latest (some r) rs in if ltb best.updated_at r.updated_at then newer else kept

-- GetInstallation
unfoldable pub get_installation : Context → Text → Text → Text → InstallMap → Option InstallRecord
get_installation ctx provider account_id installation_id m = latest none (
    select
      (λ r.
        (same r.provider provider
          && same r.account_id account_id
          && same r.installation_id installation_id)
        && visible ctx r.tenant_id)
      m)

-- GetInstallationByInstallationID
unfoldable pub get_by_installation_id : Context → Text → Text → InstallMap → Option InstallRecord
get_by_installation_id ctx provider installation_id m = latest none (
    select
      (λ r.
        (same r.provider provider && same r.installation_id installation_id)
        && visible ctx r.tenant_id)
      m)

-- GetInstallationByInstallationIDAndInstanceKey
unfoldable pub get_by_instance_key :
    Context → Text → Text → Text → InstallMap → Option InstallRecord
get_by_instance_key ctx provider installation_id instance_key m = latest none (
    select
      (λ r.
        (same r.provider provider
          && same r.installation_id installation_id
          && same r.provider_instance_key instance_key)
        && visible ctx r.tenant_id)
      m)

-- ListInstallations
unfoldable pub list_installations : Context → Text → Text → InstallMap → List InstallRecord
list_installations ctx provider account_id m =
    select
      (λ r.
        (same r.provider provider && matches account_id r.account_id) && visible ctx r.tenant_id)
      m

-- DeleteInstallation
unfoldable pub delete_installation : Context → Text → Text → Text → Text → InstallMap → InstallMap
delete_installation ctx provider account_id installation_id instance_key m =
    delete_where
      (λ r.
        (same r.provider provider
          && same r.account_id account_id
          && same r.installation_id installation_id)
        && matches instance_key r.provider_instance_key
        && visible ctx r.tenant_id)
      m

module _ (sha256_hex : Text → Text) where
  -- The record as UpsertInstallation stores it, from two readings of the clock.
  unfoldable pub kept_installation : Context → ℕ → ℕ → InstallRecord → InstallRecord
  kept_installation ctx t1 t2 r =
      let owned = record r { tenant_id = own_tenant ctx r.tenant_id } in
      record owned {
        id = if same r.id [] then install_record_id sha256_hex owned else r.id;
        created_at = or_now r.created_at t1;
        updated_at = t2;
      }

  -- UpsertInstallation
  unfoldable pub upsert_installation : Context → ℕ → ℕ → InstallRecord → InstallMap → InstallMap
  upsert_installation ctx t1 t2 r m =
      let kept = kept_installation ctx t1 t2 r in insert (install_key kept) kept m
