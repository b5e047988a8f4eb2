-- ===== src/Core/Publisher/Encode.antt =====
-- relaybusPublisher of pkg/core/publisher.go: one event as one message.
pub mod Sent
use relaymesh.Prelude.{ℕ, not, ◌&&◌, [], is_empty, if◌then◌else◌}
use relaymesh.Prelude.Text.{Text, text, same, is_blank}
use relaymesh.Prelude.Table.{Table, insert}
use relaymesh.Prelude.Outcome.{Errors, Outcome, ok, fail, ◌>>=◌}
use relaymesh.Core.Event.{Event}
use relaymesh.Core.Resolve.{is_nil}
use relaymesh.Core.Publisher.{Message, Publisher, RelayPublisher, Brokers}

-- `if value != "" { metadata[key] = value }`
unfoldable pub put_present : Text → Text → Table Text → Table Text
put_present key value m = if same value [] then m else insert key value m

-- The metadata of a message.
unfoldable pub event_metadata : Event → Table Text
event_metadata event =
    let m1 = put_present (text "provider") event.provider [] in
    let m2 = put_present (text "event") event.name m1 in
    let m3 = put_present (text "request_id") event.request_id m2 in
    let m4 = put_present (text "state_id") event.state_id m3 in
    let m5 = put_present (text "installation_id") event.installation_id m4 in
    let m6 = put_present (text "provider_instance_key") event.provider_instance_key m5 in
    let m7 = put_present (text "tenant_id") event.tenant_id m6 in
    let m8 = put_present (text "log_id") event.log_id m7 in
    insert (text "schema") (text "cloud.v1.EventPayload")
      (insert (text "content_type") (text "application/x-protobuf") m8)

module _ (W : Type 0) (net : Brokers W) where
  open net use {marshal_value, marshal_event, marshal_payload, now, new_uuid}

  -- The payload from the raw bytes, or else from the raw object if that can be marshalled.
  payload_of_object : Event → Text
  payload_of_object event =
      if is_empty event.raw_payload && not (is_nil event.raw_object)
      then elim (marshal_value event.raw_object) [ ok bytes ↦ bytes | fail e ↦ event.raw_payload ]
      else event.raw_payload

  -- `rawPayload` where it is marshalled into the message.
  unfoldable pub message_payload : Event → Outcome Text
  unfolding payload_of_object
  message_payload event =
      let raw = payload_of_object event in if is_empty raw then marshal_event event else ok raw

  encode_event : Event → Outcome Text
  encode_event event = do raw ← message_payload event; marshal_payload event.provider event.name raw

  make_message : Text → Event → Text → ℕ → Text → Message
  make_message topic event payload timestamp id = record {
    id = id;
    topic = topic;
    payload = payload;
    timestamp = timestamp;
    content_type = text "application/x-protobuf";
    metadata = event_metadata event;
    schema_version = text "v1";
  }

  -- `msg.ID`: the log id, or a new one where that is blank.
  message_id : Event → W → Text × W
  message_id event w = if is_blank event.log_id then new_uuid w else (event.log_id, w)

  send_encoded : RelayPublisher W → Text → Event → Outcome Text → W → Errors × W
  send_encoded pub_ topic event (fail e) w = (e, w)
  send_encoded pub_ topic event (ok payload) w =
      let (timestamp, w1) = now w in
      let (id, w2) = message_id event w1 in
      pub_.send topic (make_message topic event payload timestamp id) w2

  -- relaybusPublisher.Publish
  unfoldable pub relaybus_publish : RelayPublisher W → Text → Event → W → Errors × W
  unfolding encode_event make_message message_id send_encoded
  relaybus_publish pub_ topic event w = send_encoded pub_ topic event (encode_event event) w

  -- relaybusPublisher as a Publisher; its fields are never nil.
  unfoldable pub relaybus_publisher : RelayPublisher W → Publisher W
  unfolding relaybus_publish
  relaybus_publisher pub_ = record {
    publish = relaybus_publish pub_;
    publish_for_drivers = λ topic event drivers. relaybus_publish pub_ topic event;
    close = pub_.shut;
  }
