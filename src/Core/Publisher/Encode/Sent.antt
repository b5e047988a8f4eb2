-- ===== src/Core/Publisher/Encode/Sent.antt =====
-- The messages that relaybusPublisher of pkg/core/publisher.go sends.
use relaymesh.Prelude.{◌≡◌, refl, false, not, ◌&&◌, Option, none, some, [], if◌then◌else◌, arith}
use relaymesh.Prelude.Text.{Text, text, same, is_blank}
use relaymesh.Prelude.Table.{Table, lookup, lookup-insert}
use relaymesh.Prelude.Outcome.{ok}
use relaymesh.Core.Event.{Event}
use relaymesh.Core.Publisher.{Message, RelayPublisher, Brokers}
use relaymesh.Core.Publisher.Encode.{
  put_present, event_metadata, message_payload, relaybus_publish, send_encoded, make_message,
  message_id, encode_event,
}

-- A value that is not empty, under its key.
abbrev pub present : Text → Option Text
present value = if same value [] then none else some value

lookup-put_present :
    (k key value : Text) (m : Table Text)
    → lookup k (put_present key value m)
      ≡ (if same key k && not (same value []) then some value else lookup k m)
unfolding put_present
lookup-put_present k key value m = ground (arith, lookup-insert key k value m)

lookup-nothing : (k : Text) → lookup {V = Text} k [] ≡ none
unfolding lookup
lookup-nothing k = refl

present_if : (v : Text) → (if not (same v []) then some v else none) ≡ present v
present_if v = ground arith

-- The metadata names each value of the event that is not empty, and no empty one. It has no driver.
pub record Describes (event : Event) (m : Table Text) : Type 0 where
  pub provider : lookup (text "provider") m ≡ present event.provider
  pub event_name : lookup (text "event") m ≡ present event.name
  pub request : lookup (text "request_id") m ≡ present event.request_id
  pub state : lookup (text "state_id") m ≡ present event.state_id
  pub installation : lookup (text "installation_id") m ≡ present event.installation_id
  pub instance_key : lookup (text "provider_instance_key") m ≡ present event.provider_instance_key
  pub tenant : lookup (text "tenant_id") m ≡ present event.tenant_id
  pub log : lookup (text "log_id") m ≡ present event.log_id
  pub no_driver : lookup (text "driver") m ≡ none

pub event_metadata-Describes : (event : Event) → Describes event (event_metadata event)
unfolding event_metadata same
event_metadata-Describes event = record {
  provider = simp (lookup-insert, lookup-put_present, lookup-nothing) (present_if event.provider);
  event_name = simp (lookup-insert, lookup-put_present, lookup-nothing) (present_if event.name);
  request = simp (lookup-insert, lookup-put_present, lookup-nothing) (present_if event.request_id);
  state = simp (lookup-insert, lookup-put_present, lookup-nothing) (present_if event.state_id);
  installation =
      simp (lookup-insert, lookup-put_present, lookup-nothing) (present_if event.installation_id);
  instance_key =
      simp (lookup-insert, lookup-put_present, lookup-nothing)
        (present_if event.provider_instance_key);
  tenant = simp (lookup-insert, lookup-put_present, lookup-nothing) (present_if event.tenant_id);
  log = simp (lookup-insert, lookup-put_present, lookup-nothing) (present_if event.log_id);
  no_driver = simp (lookup-insert, lookup-put_present, lookup-nothing);
}

-- The message for an event: its topic, its payload, its metadata, and the log id where it has one.
pub record Carries (event : Event) (topic payload : Text) (message : Message) : Type 0 where
  pub at_topic : message.topic ≡ topic
  pub with_payload : message.payload ≡ payload
  pub described : Describes event message.metadata
  pub logged : is_blank event.log_id ≡ false → message.id ≡ event.log_id

module _ (W : Type 0) (net : Brokers W) where
  message_id_log :
      (event : Event) (w : W)
      → is_blank event.log_id ≡ false
      → (message_id W net event w).0 ≡ event.log_id
  unfolding message_id
  message_id_log event w h = rw h refl

  pub relaybus_publish-Carries :
      (broker : RelayPublisher W) (topic : Text) (event : Event) (w : W) (raw payload : Text)
      → message_payload W net event ≡ ok raw
      → net.marshal_payload event.provider event.name raw ≡ ok payload
      → (message : Message) × (v : W) × (relaybus_publish W net broker topic event w
          ≡ broker.send topic message v)
        × Carries event topic payload message
  unfolding relaybus_publish encode_event send_encoded make_message
  relaybus_publish-Carries broker topic event w raw payload hr hp =
      rw (hr, hp)
        (
          _,
          _,
          refl,
          record {
            at_topic = refl;
            with_payload = refl;
            described = event_metadata-Describes event;
            logged = message_id_log event (net.now w).1;
          },
        )
