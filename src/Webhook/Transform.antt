-- ===== src/Webhook/Transform.antt =====
-- pkg/webhook/transform.go: the script of a rule rewrites the payload of an event. The time limit on
-- a script is part of what `call` may return.
use relaymesh.Prelude.{not, Option, none, some, List, [], ◌++◌, is_empty, if◌then◌else◌}
use relaymesh.Prelude.Text.{Text, text, same, trim_space}
use relaymesh.Prelude.Table.{Table}
use relaymesh.Prelude.Outcome.{Outcome, ok, ◌>>=◌}
use relaymesh.Core.Value.{Value, Fields, null, str, obj, end, field, get_field}
use relaymesh.Core.Event.{Event}
use relaymesh.Core.Resolve.{is_nil}

-- goja and encoding/json: compiling a script and finding its function, calling it on a value and a
-- context, and marshalling a value.
pub record Scripts : Type 1 where
  pub Script : Type 0
  pub compile : Text → Outcome Script
  pub call : Script → Value → Value → Outcome Value
  pub unmarshal : Text → Outcome Value
  pub marshal : Value → Outcome Text
  -- the headers of an event, as a value
  pub headers_value : Option (Table (List Text)) → Value

-- transformOutputPayload: the `payload` of the result, where the result is a map that has one.
unfoldable pub transform_output_payload : Value → Value
transform_output_payload (obj m) = elim (get_field (text "payload") m) [ some v ↦ v | none ↦ obj m ]
transform_output_payload v = v

module _ (js : Scripts) where
  data_value : Option Fields → Value
  data_value none = null
  data_value (some m) = obj m

  -- transformEventContext
  unfoldable pub transform_event_context : Event → Value → Value
  unfolding data_value
  transform_event_context event payload = obj (
      field (text "provider") (str event.provider) (
        field (text "name") (str event.name) (
          field (text "request_id") (str event.request_id) (
            field (text "state_id") (str event.state_id) (
              field (text "tenant_id") (str event.tenant_id) (
                field (text "installation_id") (str event.installation_id) (
                  field (text "provider_instance_key") (str event.provider_instance_key) (
                    field (text "namespace_id") (str event.namespace_id) (
                      field (text "namespace_name") (str event.namespace_name) (
                        field (text "headers") (js.headers_value event.headers) (
                          field (text "data") (data_value event.payload_fields)
                            (field (text "payload") payload end))))))))))))

  -- eventPayloadJSON
  unfoldable pub event_payload_json : Event → Outcome Text
  event_payload_json event =
      if not (is_empty event.raw_payload)
      then ok event.raw_payload
      else if not (is_nil event.raw_object)
      then js.marshal event.raw_object
      else elim (event.payload_fields) [ some m ↦ js.marshal (obj m) | none ↦ ok (text "{}") ]

  transformed_payload : Event → Text → Outcome Text
  transformed_payload event script_text = do
    payload ← event_payload_json event
    script ← js.compile (text "var transform = " ++ script_text)
    input ← js.unmarshal payload
    result ← js.call script input (transform_event_context event input)
    js.marshal (transform_output_payload result)

  -- applyRuleTransform
  unfoldable pub apply_rule_transform : Event → Text → Outcome Event
  unfolding transformed_payload
  apply_rule_transform event transform_js =
      let trimmed = trim_space transform_js in
      if same trimmed [] then ok event else (do
        out ← transformed_payload event trimmed
        ok (record event { raw_payload = out; raw_object = null }))
