-- ===== src/Worker/Codec.antt =====
-- codec.go of sdk/go/worker: the event of a message. protobuf and encoding/json are parameters.
pub mod RoundTrip
use relaymesh.Prelude.{Option, none, some, [], ◌∷◌, is_empty, if◌then◌else◌}
use relaymesh.Prelude.Text.{Text, text, same, is_blank}
use relaymesh.Prelude.Table.{Table, lookup}
use relaymesh.Prelude.Outcome.{Errors, Outcome, ok, fail}
use relaymesh.Core.Value.{Value, Fields, null, str, obj, get_field}
use relaymesh.Core.Publisher.{Message}
use relaymesh.Worker.{WorkerEvent}

-- The fields of a cloudv1.EventPayload
pub record EventPayload : Type 0 where
  pub provider : Text
  pub name : Text
  pub payload : Text

pub record Formats : Type 0 where
  -- proto.Unmarshal of an EventPayload
  pub unmarshal_payload : Text → Outcome EventPayload
  -- json.Unmarshal into an interface{}
  pub unmarshal_json : Text → Outcome Value

-- metadataValue, and an index of the map: "" where the key is missing.
unfoldable pub metadata_value : Table Text → Text → Text
metadata_value meta key = elim (lookup key meta) [ some value ↦ value | none ↦ [] ]

-- resolveTopic
unfoldable pub resolve_topic : Text → Option Message → Text
resolve_topic topic msg =
    if is_blank topic then elim msg [ some m ↦ m.topic | none ↦ [] ] else topic

-- `legacy[key].(string)`, "" where it is not a string.
unfoldable pub string_field : Text → Fields → Text
string_field key fields = elim (get_field key fields) [ some (str value) ↦ value | _ ↦ [] ]

-- `legacy["data"].(map[string]interface{})`
unfoldable pub data_field : Fields → Option Fields
data_field fields = elim (get_field (text "data") fields) [
  | some (obj data_) ↦ some data_
  | _ ↦ none
]

-- json.Unmarshal into a map that is nil: null leaves it nil, and no other value but an object fits.
unfoldable pub map_of : Outcome Value → Outcome (Option Fields)
map_of (ok (obj fields)) = ok (some fields)
map_of (ok null) = ok none
map_of (ok _) =
    fail (text "json: cannot unmarshal into Go value of type map[string]interface {}" ∷ [])
map_of (fail e) = fail e

-- The map of raw bytes, nil where they have none.
unfoldable pub normalized_of : Outcome Value → Option Fields
unfolding map_of
normalized_of parsed = elim (map_of parsed) [ ok fields ↦ fields | fail e ↦ none ]

-- What the two branches of Decode read from a message.
pub record Parts : Type 0 where
  pub provider : Text
  pub event_name : Text
  pub raw : Text
  pub normalized : Option Fields

module _ (C : Type 0) (formats : Formats) where
  open formats use {unmarshal_payload, unmarshal_json}

  envelope_parts : EventPayload → Parts
  envelope_parts env = record {
    provider = env.provider;
    event_name = env.name;
    raw = env.payload;
    normalized = if is_empty env.payload then none else normalized_of (unmarshal_json env.payload);
  }

  legacy_parts : Errors → Text → Outcome (Option Fields) → Outcome Parts
  legacy_parts proto_error payload (fail e) = fail proto_error
  legacy_parts proto_error payload (ok none) =
      ok (record { provider = []; event_name = []; raw = payload; normalized = none })
  legacy_parts proto_error payload (ok (some legacy)) = ok (record {
    provider = string_field (text "provider") legacy;
    event_name = string_field (text "name") legacy;
    raw = payload;
    normalized = data_field legacy;
  })

  parts_of : Text → Outcome EventPayload → Outcome Parts
  parts_of payload (ok env) = ok (envelope_parts env)
  parts_of payload (fail e) = legacy_parts e payload (map_of (unmarshal_json payload))

  -- `normalized`, from the raw bytes where it is still nil.
  or_raw : Option Fields → Text → Option Fields
  or_raw (some fields) raw = some fields
  or_raw none raw = if is_empty raw then none else normalized_of (unmarshal_json raw)

  event_of : Text → Message → Parts → WorkerEvent C
  event_of topic msg parts = record {
    provider =
        if same parts.provider []
        then metadata_value msg.metadata (text "provider")
        else parts.provider;
    type_ =
        if same parts.event_name []
        then metadata_value msg.metadata (text "event")
        else parts.event_name;
    topic = resolve_topic topic (some msg);
    metadata = msg.metadata;
    payload = parts.raw;
    normalized = or_raw parts.normalized parts.raw;
    client = none;
  }

  decode_parts : Text → Message → Outcome Parts → Outcome (WorkerEvent C)
  decode_parts topic msg (fail e) = fail e
  decode_parts topic msg (ok parts) = ok (event_of topic msg parts)

  -- DefaultCodec.Decode
  unfoldable pub decode : Text → Option Message → Outcome (WorkerEvent C)
  unfolding parts_of legacy_parts envelope_parts decode_parts event_of or_raw
  decode topic none = fail (text "message is nil" ∷ [])
  decode topic (some msg) =
      decode_parts topic msg (parts_of msg.payload (unmarshal_payload msg.payload))
