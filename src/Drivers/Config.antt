-- ===== src/Drivers/Config.antt =====
-- pkg/drivers/config.go: driver records from a configuration, and back.
pub mod Loaded
use relaymesh.Prelude.{Bool, true, false, not, ◌&&◌, List, [], ◌∷◌, ◌++◌, is_empty, if◌then◌else◌}
use relaymesh.Prelude.Text.{Text, text, same, trim_space, is_blank, to_lower}
use relaymesh.Prelude.Outcome.{Errors, Outcome, ok, fail, ◌>>=◌}
use relaymesh.Core.Relaybus.{KafkaConfig, NatsConfig, AmqpConfig, HttpConfig, RelaybusConfig}
use relaymesh.Core.Publisher.Build.{
  Kind, kafka_driver, nats_driver, amqp_driver, http_driver, custom, kind_of, configured_drivers,
}
use relaymesh.Storage.Records.{DriverRecord}

-- encoding/json on the driver configurations, and strings.ToLower beyond ASCII. Decoding starts
-- from the value that is there, as json.Unmarshal does.
pub record Codecs : Type 0 where
  pub wide_lower : Text → Text
  pub encode_amqp : AmqpConfig → Outcome Text
  pub encode_nats : NatsConfig → Outcome Text
  pub encode_kafka : KafkaConfig → Outcome Text
  pub encode_http : HttpConfig → Outcome Text
  pub decode_amqp : Text → AmqpConfig → Outcome AmqpConfig
  pub decode_nats : Text → NatsConfig → Outcome NatsConfig
  pub decode_kafka : Text → KafkaConfig → Outcome KafkaConfig
  pub decode_http : Text → HttpConfig → Outcome HttpConfig

abbrev unsupported_driver : Text → Errors
unsupported_driver name = (text "unsupported driver: " ++ name) ∷ []

-- unmarshalJSON: blank text leaves the value as it is.
unmarshal_json {ℓ} : {A : Type ℓ} → (Text → A → Outcome A) → Text → A → Outcome A
unmarshal_json decode raw target =
    let trimmed = trim_space raw in if same trimmed [] then ok target else decode trimmed target

module _ (json : Codecs) where
  marshal_kind : Kind → Text → RelaybusConfig → Outcome Text
  marshal_kind amqp_driver name cfg = json.encode_amqp cfg.amqp
  marshal_kind nats_driver name cfg = json.encode_nats cfg.nats
  marshal_kind kafka_driver name cfg = json.encode_kafka cfg.kafka
  marshal_kind http_driver name cfg = json.encode_http cfg.http
  marshal_kind custom name cfg = fail (unsupported_driver name)

  -- marshalDriverConfig
  unfoldable pub marshal_driver_config : Text → RelaybusConfig → Outcome Text
  unfolding marshal_kind
  marshal_driver_config name cfg = marshal_kind (kind_of (to_lower json.wide_lower name)) name cfg

  apply_kind : Kind → Text → Text → RelaybusConfig → Outcome RelaybusConfig
  apply_kind amqp_driver name raw cfg = do
    c ← unmarshal_json json.decode_amqp raw cfg.amqp
    ok (record cfg { amqp = c })
  apply_kind nats_driver name raw cfg = do
    c ← unmarshal_json json.decode_nats raw cfg.nats
    ok (record cfg { nats = c })
  apply_kind kafka_driver name raw cfg = do
    c ← unmarshal_json json.decode_kafka raw cfg.kafka
    ok (record cfg { kafka = c })
  apply_kind http_driver name raw cfg = do
    c ← unmarshal_json json.decode_http raw cfg.http
    ok (record cfg { http = c })
  apply_kind custom name raw cfg = fail (unsupported_driver name)

  -- applyDriverConfig
  unfoldable pub apply_driver_config : RelaybusConfig → Text → Text → Outcome RelaybusConfig
  unfolding apply_kind unmarshal_json
  apply_driver_config cfg name raw =
      apply_kind (kind_of (to_lower json.wide_lower name)) name raw cfg

  driver_record : Text → Text → DriverRecord
  driver_record name config_json = record {
    tenant_id = [];
    id = [];
    name = to_lower json.wide_lower name;
    config_json = config_json;
    enabled = true;
    created_at = 0;
    updated_at = 0;
  }

  records_loop : RelaybusConfig → List Text → Outcome (List DriverRecord)
  records_loop cfg [] = ok []
  records_loop cfg (name ∷ names) =
      let rest = records_loop cfg names in
      let trimmed = trim_space name in
      if same trimmed [] then rest else (do
        config_json ← marshal_driver_config trimmed cfg
        others ← rest
        ok (driver_record trimmed config_json ∷ others))

  -- RecordsFromConfig
  unfoldable pub records_from_config : RelaybusConfig → Outcome (List DriverRecord)
  unfolding records_loop driver_record configured_drivers
  records_from_config cfg = records_loop cfg (configured_drivers cfg)

  -- The name under which a record is applied: none if it is disabled or has no name.
  unfoldable pub active_name : DriverRecord → Text
  active_name r = if r.enabled then to_lower json.wide_lower (trim_space r.name) else []

  -- The loop of ConfigFromRecords.
  unfoldable pub apply_records : List DriverRecord → RelaybusConfig → Outcome RelaybusConfig
  apply_records [] cfg = ok cfg
  apply_records (r ∷ rs) cfg =
      let skipped = apply_records rs cfg in
      let name = active_name r in
      if same name [] then skipped else (do
        applied ← apply_driver_config cfg name r.config_json
        apply_records rs (record applied { drivers = applied.drivers ++ (name ∷ []) }))

  -- ConfigFromRecords
  unfoldable pub config_from_records : RelaybusConfig → List DriverRecord → Outcome RelaybusConfig
  config_from_records base records =
      apply_records records (record base { drivers = []; driver = [] })

  -- ConfigFromDriver; `blank` is the zero RelaybusConfig.
  unfoldable pub config_from_driver : RelaybusConfig → Text → Text → Outcome RelaybusConfig
  config_from_driver blank driver_name config_json =
      let name = to_lower json.wide_lower (trim_space driver_name) in
      if same name []
      then fail (text "driver name is required" ∷ [])
      else apply_driver_config (record blank { driver = name; drivers = name ∷ [] }) name
          config_json
