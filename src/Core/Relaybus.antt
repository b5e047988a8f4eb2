-- ===== src/Core/Relaybus.antt =====
-- The publisher configuration of pkg/core/config.go.
use relaymesh.Prelude.{Bool, List}
use relaymesh.Prelude.Int.{ℤ}
use relaymesh.Prelude.Text.{Text}

-- KafkaConfig
pub record KafkaConfig : Type 0 where
  pub brokers : List Text
  pub broker : Text
  pub topic_prefix : Text
  pub retry_count : ℤ

-- NATSConfig
pub record NatsConfig : Type 0 where
  pub url : Text
  pub subject_prefix : Text
  pub retry_count : ℤ

-- AMQPConfig
pub record AmqpConfig : Type 0 where
  pub url : Text
  pub exchange : Text
  pub routing_key_template : Text
  pub mandatory : Bool
  pub immediate : Bool
  pub retry_count : ℤ

-- HTTPConfig
pub record HttpConfig : Type 0 where
  pub endpoint : Text
  pub retry_count : ℤ
  pub webhook_token : Text

-- PublishRetryConfig
pub record PublishRetryConfig : Type 0 where
  pub attempts : ℤ
  pub delay_ms : ℤ

-- RelaybusConfig
pub record RelaybusConfig : Type 0 where
  pub driver : Text
  pub drivers : List Text
  pub kafka : KafkaConfig
  pub nats : NatsConfig
  pub amqp : AmqpConfig
  pub http : HttpConfig
  pub publish_retry : PublishRetryConfig
  pub dlq_driver : Text
