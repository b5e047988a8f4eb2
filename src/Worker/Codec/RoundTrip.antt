-- ===== src/Worker/Codec/RoundTrip.antt =====
-- Decode of codec.go, sdk/go/worker, on what relaybusPublisher of pkg/core/publisher.go sends.
use relaymesh.Prelude.{◌≡◌, refl, none, some, [], is_empty, if◌then◌else◌, arith}
use relaymesh.Prelude.Text.{Text, text, same, same_iff, is_blank}
use relaymesh.Prelude.Table.{Table, lookup}
use relaymesh.Prelude.Outcome.{ok}
use relaymesh.Core.Event.{Event}
use relaymesh.Core.Publisher.{Message, Brokers, RelayPublisher}
use relaymesh.Core.Publisher.Encode.{message_payload, relaybus_publish}
use relaymesh.Core.Publisher.Encode.Sent.{present, Carries, relaybus_publish-Carries}
use relaymesh.Worker.{WorkerEvent}
use relaymesh.Worker.Codec.{
  Formats, metadata_value, resolve_topic, normalized_of, decode, or_raw, event_of, decode_parts,
  parts_of, envelope_parts,
}

-- What a worker reads from the message of an event.
pub record Received (C : Type 0) (event : Event) (topic raw : Text) (formats : Formats)
    (e : WorkerEvent C) : Type 0 where
  pub provider : e.provider ≡ event.provider
  pub name_ : e.type_ ≡ event.name
  pub at_topic : e.topic ≡ topic
  pub raw_payload : e.payload ≡ raw
  pub object :
      e.normalized ≡ (if is_empty raw then none else normalized_of (formats.unmarshal_json raw))
  pub log : metadata_value e.metadata (text "log_id") ≡ event.log_id
  pub tenant : metadata_value e.metadata (text "tenant_id") ≡ event.tenant_id
  pub installation : metadata_value e.metadata (text "installation_id") ≡ event.installation_id

metadata_value-present :
    (meta : Table Text) (key value : Text)
    → lookup key meta ≡ present value
    → metadata_value meta key ≡ value
unfolding metadata_value
metadata_value-present meta key value h = rw (h, metadata_value) (ground (arith, same_iff value []))

or_raw_same :
    (C : Type 0) (formats : Formats) (raw : Text)
    → or_raw C formats
        (if is_empty raw then none else normalized_of (formats.unmarshal_json raw))
        raw
      ≡ (if is_empty raw then none else normalized_of (formats.unmarshal_json raw))
unfolding or_raw
or_raw_same C formats raw = ground arith

or_metadata : (a b : Text) → b ≡ a → (if same a [] then b else a) ≡ a
or_metadata a b h = ground (arith, same_iff a [])

module _ (C W : Type 0) (net : Brokers W) (formats : Formats) where
  decode-Received :
      (event : Event) (topic subscription raw payload : Text) (message : Message)
      → Carries event topic payload message
      → formats.unmarshal_payload payload
        ≡ ok (record { provider = event.provider; name = event.name; payload = raw })
      → (e : WorkerEvent C) × (decode C formats subscription (some message) ≡ ok e)
        × Received C event (if is_blank subscription then topic else subscription) raw formats e
  unfolding decode parts_of decode_parts envelope_parts event_of resolve_topic
  decode-Received event topic subscription raw payload message c h =
      rw (c.with_payload, h)
        (
          _,
          refl,
          record {
            provider = or_metadata event.provider _ (
                metadata_value-present message.metadata (text "provider") event.provider
                  c.described.provider);
            name_ = or_metadata event.name _ (
                metadata_value-present message.metadata (text "event") event.name
                  c.described.event_name);
            at_topic = rw c.at_topic refl;
            raw_payload = refl;
            object = or_raw_same C formats raw;
            log =
                metadata_value-present message.metadata (text "log_id") event.log_id
                  c.described.log;
            tenant =
                metadata_value-present message.metadata (text "tenant_id") event.tenant_id
                  c.described.tenant;
            installation =
                metadata_value-present message.metadata (text "installation_id")
                  event.installation_id c.described.installation;
          },
        )

  -- An event that relaybusPublisher publishes is the event that the default codec of a worker reads
  -- from the message it sent: with the same provider, name, raw payload, log, tenant and installation,
  -- where protobuf decodes what it encoded. Its topic is the one that the worker subscribed to, or
  -- the message's if that is blank.
  pub decode-relaybus_publish :
      (broker : RelayPublisher W) (topic subscription : Text) (event : Event) (w : W)
      (raw payload : Text)
      → message_payload W net event ≡ ok raw
      → net.marshal_payload event.provider event.name raw ≡ ok payload
      → formats.unmarshal_payload payload
        ≡ ok (record { provider = event.provider; name = event.name; payload = raw })
      → (message : Message) × (v : W) × (e : WorkerEvent C) × (relaybus_publish W net broker topic
            event w
          ≡ broker.send topic message v)
        × (decode C formats subscription (some message) ≡ ok e)
        × Received C event (if is_blank subscription then topic else subscription) raw formats e
  decode-relaybus_publish broker topic subscription event w raw payload hr hp hu =
      let (message, v, sent, c) =
        relaybus_publish-Carries W net broker topic event w raw payload hr hp in
      let (e, decoded, received) =
        decode-Received event topic subscription raw payload message c hu in
      (message, v, e, sent, decoded, received)
