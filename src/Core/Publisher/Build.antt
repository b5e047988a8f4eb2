-- ===== src/Core/Publisher/Build.antt =====
-- The construction and the validation of publishers in pkg/core/publisher.go.
pub mod Validate
use relaymesh.Prelude.{
  Bool, true, false, not, ◌&&◌, Option, none, some, List, [], ◌∷◌, ◌++◌, is_empty, if◌then◌else◌,
}
use relaymesh.Prelude.Int.{ℤ, is_positive, is_one}
use relaymesh.Prelude.Text.{Text, text, same, trim_space, is_blank, to_lower}
use relaymesh.Prelude.Table.{Table, lookup, insert}
use relaymesh.Prelude.Outcome.{Errors, Outcome, ok, fail}
use relaymesh.Core.Relaybus.{
  KafkaConfig, NatsConfig, AmqpConfig, HttpConfig, PublishRetryConfig, RelaybusConfig,
}
use relaymesh.Core.Publisher.{
  Destination, kafka, nats, amqp, http, Publisher, RelayPublisher, Brokers,
}
use relaymesh.Core.Publisher.Encode.{relaybus_publisher}
use relaymesh.Core.Publisher.Retry.{milliseconds, relaybus_retry_policy, retrying_publisher}

-- The drivers that the switches name; any other is looked up among the factories.
pub data Kind : Type 0 where
  kafka_driver nats_driver amqp_driver http_driver : Kind
  custom : Kind

-- `switch name { case "kafka": … }`
unfoldable pub kind_of : Text → Kind
unfolding same
kind_of name =
    if same name (text "kafka")
    then kafka_driver
    else if same name (text "nats")
    then nats_driver
    else if same name (text "amqp")
    then amqp_driver
    else if same name (text "http")
    then http_driver
    else custom

-- The brokers of a Kafka configuration: the list, or else the single one.
unfoldable pub kafka_brokers : KafkaConfig → List Text
kafka_brokers cfg =
    if is_empty cfg.brokers && not (same cfg.broker []) then cfg.broker ∷ [] else cfg.brokers

abbrev pub unsupported : Text → Errors
unsupported driver = (text "unsupported relaybus driver: " ++ driver) ∷ []

-- The retry count of a driver, where it is configured, in place of the common one.
override : ℤ → PublishRetryConfig → PublishRetryConfig
override count retry = if is_positive count then record retry { attempts = count } else retry

module _ (W : Type 0) (net : Brokers W) where
  open net use {wide_lower, connect, factories}

  override_for : RelaybusConfig → Kind → PublishRetryConfig
  override_for cfg kafka_driver = override cfg.kafka.retry_count cfg.publish_retry
  override_for cfg nats_driver = override cfg.nats.retry_count cfg.publish_retry
  override_for cfg amqp_driver = override cfg.amqp.retry_count cfg.publish_retry
  override_for cfg http_driver = override cfg.http.retry_count cfg.publish_retry
  override_for cfg custom = cfg.publish_retry

  -- driverRetryConfig
  unfoldable pub driver_retry_config : RelaybusConfig → Text → PublishRetryConfig
  unfolding override override_for
  driver_retry_config cfg driver =
      override_for cfg (kind_of (to_lower wide_lower (trim_space driver)))

  wrapped : Outcome (RelayPublisher W) × W → Outcome (Publisher W) × W
  wrapped (ok p, w) = (ok (relaybus_publisher W net p), w)
  wrapped (fail e, w) = (fail e, w)

  -- The publisher of the `http` case, with retries of its own.
  wrapped_http : PublishRetryConfig → Outcome (RelayPublisher W) × W → Outcome (Publisher W) × W
  wrapped_http retry (ok p, w) = (
    ok (
        if is_positive retry.attempts && not (is_one retry.attempts)
        then retrying_publisher W net.wait (relaybus_publisher W net p) retry.attempts
            (milliseconds retry.delay_ms)
        else relaybus_publisher W net p),
    w,
  )
  wrapped_http retry (fail e, w) = (fail e, w)

  http_headers : HttpConfig → Table Text
  http_headers cfg =
      let token = trim_space cfg.webhook_token in
      if same token [] then [] else (text "X-Webhook-Token", token) ∷ []

  from_factory : RelaybusConfig → Text → Text → W → Outcome (Publisher W) × W
  from_factory cfg driver name w = elim (lookup name factories) [
    | some factory ↦ factory cfg w
    | none ↦ (fail (unsupported driver), w)
  ]

  build_kind : Kind → RelaybusConfig → Text → PublishRetryConfig → W → Outcome (Publisher W) × W
  unfolding wrapped wrapped_http http_headers from_factory
  build_kind kafka_driver cfg driver retry w =
      let brokers = kafka_brokers cfg.kafka in
      if is_empty brokers
      then (fail (text "kafka brokers are required" ∷ []), w)
      else wrapped (connect (kafka (relaybus_retry_policy retry) brokers cfg.kafka.topic_prefix) w)
  build_kind nats_driver cfg driver retry w =
      if same cfg.nats.url []
      then (fail (text "nats url is required" ∷ []), w)
      else wrapped
          (connect (nats (relaybus_retry_policy retry) cfg.nats.url cfg.nats.subject_prefix) w)
  build_kind amqp_driver cfg driver retry w =
      if same cfg.amqp.url []
      then (fail (text "amqp url is required" ∷ []), w)
      else wrapped (connect (amqp (relaybus_retry_policy retry) cfg.amqp) w)
  build_kind http_driver cfg driver retry w =
      if is_blank cfg.http.endpoint
      then (fail (text "http endpoint is required" ∷ []), w)
      else wrapped_http retry (connect (http cfg.http.endpoint (http_headers cfg.http)) w)
  build_kind custom cfg driver retry w = from_factory cfg driver (to_lower wide_lower driver) w

  -- newSinglePublisher
  unfoldable pub new_single_publisher :
      RelaybusConfig → Text → PublishRetryConfig → W → Outcome (Publisher W) × W
  unfolding build_kind
  new_single_publisher cfg driver retry w =
      build_kind (kind_of (to_lower wide_lower driver)) cfg driver retry w

  validate_kind : Kind → RelaybusConfig → Text → Outcome (Unit {0})
  validate_kind amqp_driver cfg driver =
      if same cfg.amqp.url [] then fail (text "amqp url is required" ∷ []) else ok tt
  validate_kind nats_driver cfg driver =
      if same cfg.nats.url [] then fail (text "nats url is required" ∷ []) else ok tt
  validate_kind kafka_driver cfg driver =
      if is_empty (kafka_brokers cfg.kafka)
      then fail (text "kafka brokers are required" ∷ [])
      else ok tt
  validate_kind http_driver cfg driver =
      if is_blank cfg.http.endpoint then fail (text "http endpoint is required" ∷ []) else ok tt
  validate_kind custom cfg driver = elim (lookup (to_lower wide_lower driver) factories) [
    | some factory ↦ ok tt
    | none ↦ fail (unsupported driver)
  ]

  -- validatePublisherDriver
  unfoldable pub validate_publisher_driver : RelaybusConfig → Text → Outcome (Unit {0})
  unfolding validate_kind
  validate_publisher_driver cfg driver =
      validate_kind (kind_of (to_lower wide_lower (trim_space driver))) cfg driver

  validate_all : RelaybusConfig → List Text → Outcome (Unit {0})
  validate_all cfg [] = ok tt
  validate_all cfg (driver ∷ drivers) = elim (validate_publisher_driver cfg driver) [
    | ok _ ↦ validate_all cfg drivers
    | fail e ↦ fail e
  ]

-- `drivers`: the configured list, or else the single driver.
unfoldable pub configured_drivers : RelaybusConfig → List Text
configured_drivers cfg =
    if is_empty cfg.drivers && not (same cfg.driver []) then cfg.driver ∷ [] else cfg.drivers

-- ValidatePublisherConfig
unfoldable pub validate_publisher_config :
    (W : Type 0) → Brokers W → RelaybusConfig → Outcome (Unit {0})
unfolding validate_all configured_drivers
validate_publisher_config W net cfg = validate_all W net cfg (configured_drivers cfg)
