-- ===== src/Storage/Records.antt =====
-- The records of pkg/storage/store.go. A time.Time is a number of nanoseconds, 0 for its zero value.
use relaymesh.Prelude.{ℕ, Bool, Option, List}
use relaymesh.Prelude.Int.{ℤ}
use relaymesh.Prelude.Text.{Text}
use relaymesh.Prelude.Table.{Table}

-- RuleRecord
pub record RuleRecord : Type 0 where
  pub tenant_id : Text
  pub id : Text
  pub when_expr : Text
  pub emit : List Text
  pub driver_id : Text
  pub transform_js : Text
  pub driver_name : Text
  pub driver_config_json : Text
  pub driver_enabled : Bool
  pub created_at : ℕ
  pub updated_at : ℕ

-- DriverRecord
pub record DriverRecord : Type 0 where
  pub tenant_id : Text
  pub id : Text
  pub name : Text
  pub config_json : Text
  pub enabled : Bool
  pub created_at : ℕ
  pub updated_at : ℕ

-- EventLogRecord
pub record EventLogRecord : Type 0 where
  pub tenant_id : Text
  pub id : Text
  pub provider : Text
  pub name : Text
  pub request_id : Text
  pub state_id : Text
  pub installation_id : Text
  pub namespace_id : Text
  pub namespace_name : Text
  pub topic : Text
  pub rule_id : Text
  pub rule_when : Text
  pub drivers : List Text
  pub headers : Option (Table (List Text))
  pub body : Text
  pub transformed_body : Text
  pub body_hash : Text
  pub matched : Bool
  pub created_at : ℕ
  pub updated_at : ℕ
  pub status : Text
  pub error_message : Text
  pub latency_ms : ℤ

-- InstallRecord; a nil time is `none`.
pub record InstallRecord : Type 0 where
  pub id : Text
  pub tenant_id : Text
  pub provider : Text
  pub account_id : Text
  pub account_name : Text
  pub installation_id : Text
  pub provider_instance_key : Text
  pub enterprise_id : Text
  pub enterprise_slug : Text
  pub enterprise_name : Text
  pub access_token : Text
  pub refresh_token : Text
  pub expires_at : Option ℕ
  pub metadata_json : Text
  pub created_at : ℕ
  pub updated_at : ℕ

-- NamespaceRecord
pub record NamespaceRecord : Type 0 where
  pub id : Text
  pub tenant_id : Text
  pub provider : Text
  pub account_id : Text
  pub installation_id : Text
  pub provider_instance_key : Text
  pub repo_id : Text
  pub owner : Text
  pub repo_name : Text
  pub full_name : Text
  pub visibility : Text
  pub default_branch : Text
  pub http_url : Text
  pub ssh_url : Text
  pub webhooks_enabled : Bool
  pub created_at : ℕ
  pub updated_at : ℕ

-- ProviderInstanceRecord
pub record ProviderInstanceRecord : Type 0 where
  pub id : Text
  pub tenant_id : Text
  pub provider : Text
  pub key : Text
  pub config_json : Text
  pub redirect_base_url : Text
  pub enabled : Bool
  pub created_at : ℕ
  pub updated_at : ℕ
