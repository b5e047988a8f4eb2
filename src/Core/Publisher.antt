-- ===== src/Core/Publisher.antt =====
-- pkg/core/publisher.go: publishing events to brokers.
--
-- A call that reaches a broker, a clock or a context acts on a world W, which it is given and
-- returns. The interfaces of this repository are records of functions; what the Relaybus library,
-- uuid, encoding/json and protobuf do is a record of parameters.
pub mod Encode
pub mod Retry
pub mod Build
pub mod Mux
use relaymesh.Prelude.{ℕ, List, Option}
use relaymesh.Prelude.Int.{ℤ}
use relaymesh.Prelude.Text.{Text}
use relaymesh.Prelude.Table.{Table}
use relaymesh.Prelude.Outcome.{Errors, Outcome}
use relaymesh.Core.Value.{Value}
use relaymesh.Core.Event.{Event}
use relaymesh.Core.Relaybus.{KafkaConfig, NatsConfig, AmqpConfig, RelaybusConfig}

-- relaymessage.Message
pub record Message : Type 0 where
  pub id : Text
  pub topic : Text
  pub payload : Text
  pub timestamp : ℕ
  pub content_type : Text
  pub metadata : Table Text
  pub schema_version : Text

-- relaycore.RetryPolicy
pub record RetryPolicy : Type 0 where
  pub max_attempts : ℤ
  pub base_delay : ℤ
  pub max_delay : ℤ

-- relaycore.Config, as far as this package fills it in, and httpadapter.Config.
pub data Destination : Type 0 where
  kafka : RetryPolicy → List Text → Text → Destination
  nats : RetryPolicy → Text → Text → Destination
  amqp : RetryPolicy → AmqpConfig → Destination
  http : Text → Table Text → Destination

module _ (W : Type 0) where
  -- An action on the world that returns an error.
  abbrev pub Act : Type 0
  Act = W → Errors × W

  -- Publisher
  pub record Publisher : Type 0 where
    pub publish : Text → Event → Act
    pub publish_for_drivers : Text → Event → List Text → Act
    pub close : Act

  -- relaycore.Publisher
  pub record RelayPublisher : Type 0 where
    pub send : Text → Message → Act
    pub shut : Act

  pub record Brokers : Type 0 where
    -- strings.ToLower of text that is not ASCII
    pub wide_lower : Text → Text
    -- relaycore.NewPublisher and httpadapter.NewPublisher
    pub connect : Destination → W → Outcome RelayPublisher × W
    -- publisherFactories
    pub factories : Table (RelaybusConfig → W → Outcome Publisher × W)
    -- `select` on ctx.Done() and time.After(delay), in nanoseconds: no error where the timer fires
    -- first, and ctx.Err() where the context ends first.
    pub wait : ℤ → Act
    -- json.Marshal of RawObject and of an Event, and proto.Marshal of an EventPayload
    pub marshal_value : Value → Outcome Text
    pub marshal_event : Event → Outcome Text
    pub marshal_payload : Text → Text → Text → Outcome Text
    -- time.Now().UTC() and uuid.NewString()
    pub now : W → ℕ × W
    pub new_uuid : W → Text × W
