-- ===== src/Storage/Identity.antt =====
-- The deterministic identifiers of pkg/storage/store.go.
pub mod Distinct
use relaymesh.Prelude.{List, [], ◌∷◌, ◌++◌}
use relaymesh.Prelude.Text.{Text, trim_space}
use relaymesh.Storage.Records.{InstallRecord, NamespaceRecord, ProviderInstanceRecord}

-- What hashID writes to the hasher: each part, trimmed, with a colon behind it.
unfoldable pub hashed_parts : List Text → Text
hashed_parts [] = []
hashed_parts (part ∷ parts) = trim_space part ++ b':' ∷ hashed_parts parts

-- `sha256_hex` is the hexadecimal SHA-256 of all that is written to the hasher.
module _ (sha256_hex : Text → Text) where
  -- hashID
  unfoldable pub hash_id : List Text → Text
  hash_id parts = sha256_hex (hashed_parts parts)

  -- NamespaceRecordID
  unfoldable pub namespace_record_id : NamespaceRecord → Text
  namespace_record_id r =
      hash_id (r.tenant_id ∷ r.provider ∷ r.provider_instance_key ∷ r.repo_id ∷ [])

  -- InstallRecordID
  unfoldable pub install_record_id : InstallRecord → Text
  install_record_id r = hash_id (r.tenant_id ∷ r.provider ∷ r.account_id ∷ r.installation_id ∷ [])

  -- ProviderInstanceRecordID
  unfoldable pub provider_instance_record_id : ProviderInstanceRecord → Text
  provider_instance_record_id r = hash_id (r.tenant_id ∷ r.provider ∷ r.key ∷ [])
