-- ===== src/Core/Event.antt =====
-- pkg/core/event.go: a webhook event.
use relaymesh.Prelude.{Option, List}
use relaymesh.Prelude.Text.{Text}
use relaymesh.Prelude.Table.{Table}
use relaymesh.Core.Value.{Value, Fields}

-- Event. `none` is the nil map of `payload_fields` (Data) and `headers`, and `Value.null` the nil
-- interface of `raw_object`.
pub record Event : Type 0 where
  pub provider : Text
  pub provider_type : Text
  pub name : Text
  pub event_type : Text
  pub action : Text
  pub resource_type : Text
  pub resource_id : Text
  pub resource_name : Text
  pub actor_id : Text
  pub actor_name : Text
  pub occurred_at : Text
  pub request_id : Text
  pub log_id : Text
  pub headers : Option (Table (List Text))
  pub payload_fields : Option Fields
  pub raw_payload : Text
  pub raw_object : Value
  pub state_id : Text
  pub tenant_id : Text
  pub installation_id : Text
  pub provider_instance_key : Text
  pub namespace_id : Text
  pub namespace_name : Text
