-- ===== src/Worker/Subscribers.antt =====
-- subscriber.go, driver_config.go and config.go of sdk/go/worker: subscribers from a configuration. The
-- adapters of the Relaybus library and encoding/json are parameters.
pub mod Served
pub mod Requeue
use relaymesh.Prelude.{
  Bool, true, false, not, ◌&&◌, ◌||◌, Option, none, some, List, [], ◌∷◌, ◌++◌, is_empty,
  if◌then◌else◌,
}
use relaymesh.Prelude.Int.{ℤ, pos}
use relaymesh.Prelude.Text.{Text, text, same, trim_space, to_lower}
use relaymesh.Prelude.Table.{Table, insert}
use relaymesh.Prelude.Outcome.{Errors, Outcome, ok, fail, ◌>>=◌}
use relaymesh.Core.Publisher.{Message, Act}
use relaymesh.Worker.{CallContext, MessageHandler, Subscriber}
use relaymesh.Worker.Topics.{contains}

-- KafkaConfig
pub record KafkaSource : Type 0 where
  pub brokers : List Text
  pub broker : Text
  pub group_id : Text
  pub topic_prefix : Text
  pub max_messages : ℤ

-- NATSConfig
pub record NatsSource : Type 0 where
  pub url : Text
  pub subject_prefix : Text
  pub max_messages : ℤ

-- AMQPConfig
pub record AmqpSource : Type 0 where
  pub url : Text
  pub exchange : Text
  pub routing_key_template : Text
  pub queue : Text
  pub auto_ack : Bool
  pub max_messages : ℤ

-- SubscriberConfig
pub record SubscriberConfig : Type 0 where
  pub driver : Text
  pub drivers : List Text
  pub kafka : KafkaSource
  pub nats : NatsSource
  pub amqp : AmqpSource

-- The zero SubscriberConfig
unfoldable pub no_config : SubscriberConfig
no_config = record {
  driver = [];
  drivers = [];
  kafka = record {
    brokers = [];
    broker = [];
    group_id = [];
    topic_prefix = [];
    max_messages = pos 0;
  };
  nats = record { url = []; subject_prefix = []; max_messages = pos 0 };
  amqp = record {
    url = [];
    exchange = [];
    routing_key_template = [];
    queue = [];
    auto_ack = false;
    max_messages = pos 0;
  };
}

-- The three drivers, and any other name.
pub data Broker : Type 0 where
  amqp nats kafka other : Broker

unfoldable pub broker_of : Text → Broker
broker_of name =
    if same name (text "amqp")
    then amqp
    else if same name (text "nats")
    then nats
    else if same name (text "kafka")
    then kafka
    else other

unfoldable pub unsupported : Text → Errors
unsupported driver = (text "unsupported subscriber driver: " ++ driver) ∷ []

-- encoding/json on the configurations, into the value that is there, and strings.ToLower beyond ASCII.
pub record SourceCodecs : Type 0 where
  pub wide_lower : Text → Text
  pub decode_amqp : Text → AmqpSource → Outcome AmqpSource
  pub decode_nats : Text → NatsSource → Outcome NatsSource
  pub decode_kafka : Text → KafkaSource → Outcome KafkaSource

-- unmarshalJSON
unfoldable pub unmarshal_source : {A : Type 0} → (Text → A → Outcome A) → Text → A → Outcome A
unmarshal_source decode raw target =
    let trimmed = trim_space raw in if same trimmed [] then ok target else decode trimmed target

module _ (W : Type 0) where
  -- multiSubscriber: each subscriber with the name of its driver.
  abbrev pub MultiSubscriber : Type 0
  MultiSubscriber = List (Text × Subscriber W)

  -- The handler that Start hands to one of the subscribers.
  unfoldable pub tagged : Text → MessageHandler W → MessageHandler W
  tagged driver handler ctx msg = handler ctx (
      if same driver []
      then msg
      else record msg { metadata = insert (text "driver") driver msg.metadata })

  -- Close of multiSubscriber: all are closed, and the first error is returned.
  unfoldable pub close_multi : MultiSubscriber → Errors → Act W
  close_multi [] first_err world = (first_err, world)
  close_multi ((driver, sub) ∷ rest) first_err world =
      let (e, after) = sub.close world in
      close_multi rest (if is_empty first_err then e else first_err) after

module _ (json : SourceCodecs) where
  -- uniqueStrings, with `seen` the keys of its map
  unfoldable pub unique_names : List Text → List Text → List Text
  unique_names seen [] = []
  unique_names seen (value ∷ values) =
      let name = to_lower json.wide_lower (trim_space value) in
      let skipped = unique_names seen values in
      let kept = unique_names (name ∷ seen) values in
      if same name [] then skipped else if contains name seen then skipped else name ∷ kept

  -- isSubscriberDriverSupported
  unfoldable pub is_supported : Text → Bool
  is_supported driver = elim (broker_of (to_lower json.wide_lower driver)) [
    | other ↦ false
    | _ ↦ true
  ]

  apply_source : Broker → Text → Text → SubscriberConfig → Outcome SubscriberConfig
  apply_source amqp name raw cfg = do
    c ← unmarshal_source json.decode_amqp raw cfg.amqp
    ok (record cfg { amqp = c })
  apply_source nats name raw cfg = do
    c ← unmarshal_source json.decode_nats raw cfg.nats
    ok (record cfg { nats = c })
  apply_source kafka name raw cfg = do
    c ← unmarshal_source json.decode_kafka raw cfg.kafka
    ok (record cfg { kafka = c })
  apply_source other name raw cfg = fail ((text "unsupported driver: " ++ name) ∷ [])

  -- applyDriverConfig
  unfoldable pub apply_driver_source : SubscriberConfig → Text → Text → Outcome SubscriberConfig
  unfolding apply_source
  apply_driver_source cfg name raw =
      apply_source (broker_of (to_lower json.wide_lower (trim_space name))) name raw cfg

  -- SubscriberConfigFromDriver
  unfoldable pub config_from_source : Text → Text → Outcome SubscriberConfig
  config_from_source driver raw =
      let name = to_lower json.wide_lower (trim_space driver) in
      if same name []
      then fail (text "driver is required" ∷ [])
      else apply_driver_source (record no_config { driver = name }) name raw

  module _ (W : Type 0) where
    -- What the adapters do: a subscriber is made and started on a topic.
    pub record Adapters : Type 0 where
      pub start_amqp : AmqpSource → CallContext → Text → MessageHandler W → Act W
      pub start_nats : NatsSource → CallContext → Text → MessageHandler W → Act W
      pub start_kafka : KafkaSource → CallContext → Text → MessageHandler W → Act W

    module _ (net : Adapters) where
      start_broker :
          Broker → Text → SubscriberConfig → CallContext → Text → MessageHandler W → Act W
      start_broker amqp driver cfg ctx topic handler world =
          if same cfg.amqp.url []
          then (text "amqp url is required" ∷ [], world)
          else net.start_amqp cfg.amqp ctx topic handler world
      start_broker nats driver cfg ctx topic handler world =
          if same cfg.nats.url []
          then (text "nats url is required" ∷ [], world)
          else net.start_nats cfg.nats ctx topic handler world
      start_broker kafka driver cfg ctx topic handler world =
          net.start_kafka cfg.kafka ctx
            (if same cfg.kafka.topic_prefix [] then topic else cfg.kafka.topic_prefix ++ topic)
            handler world
      start_broker other driver cfg ctx topic handler world = (unsupported driver, world)

      -- relaybusSubscriber
      unfoldable pub relaybus_subscriber : Text → SubscriberConfig → Subscriber W
      unfolding start_broker
      relaybus_subscriber driver cfg = record {
        start = start_broker (broker_of driver) driver cfg;
        close = λ world. ([], world);
      }

      -- newSingleSubscriber
      unfoldable pub new_single_subscriber : SubscriberConfig → Text → Outcome (Subscriber W)
      new_single_subscriber cfg driver =
          let name = to_lower json.wide_lower (trim_space driver) in
          if is_supported name then ok (relaybus_subscriber name cfg) else fail (unsupported name)

      unfoldable pub build_multi : SubscriberConfig → List Text → Outcome (MultiSubscriber W)
      build_multi cfg [] = ok []
      build_multi cfg (driver ∷ rest) = do
        sub ← new_single_subscriber cfg driver
        others ← build_multi cfg rest
        ok ((driver, sub) ∷ others)

      -- What BuildSubscriber makes: one subscriber, or several.
      pub data Built : Type 0 where
        single : Subscriber W → Built
        multi : MultiSubscriber W → Built

      -- `drivers` of BuildSubscriber
      unfoldable pub wanted_drivers : SubscriberConfig → List Text
      wanted_drivers cfg =
          let drivers = unique_names [] cfg.drivers in
          if same cfg.driver [] then drivers else unique_names [] (drivers ++ (cfg.driver ∷ []))

      build_for : SubscriberConfig → List Text → Outcome Built
      build_for cfg [] = fail (text "at least one driver is required" ∷ [])
      build_for cfg (driver ∷ []) = do sub ← new_single_subscriber cfg driver; ok (single sub)
      build_for cfg (driver ∷ second ∷ rest) = do
        subs ← build_multi cfg (driver ∷ second ∷ rest)
        ok (multi subs)

      -- BuildSubscriber
      unfoldable pub build_subscriber : SubscriberConfig → Outcome Built
      unfolding build_for wanted_drivers
      build_subscriber cfg = build_for cfg (wanted_drivers cfg)
