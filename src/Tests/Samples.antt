-- ===== src/Tests/Samples.antt =====
-- Sample libraries, brokers, records and events for the runs.
use relaymesh.Prelude.{ℕ, ◌+◌, true, false, Option, none, some, List, [], ◌∷◌, if◌then◌else◌}
use relaymesh.Prelude.Int.{pos}
use relaymesh.Prelude.Text.{Text, text, same}
use relaymesh.Prelude.Outcome.{Outcome, ok, fail}
use relaymesh.Core.Value.{Value, Fields, bool, get_field, field, end}
use relaymesh.Core.Event.{Event}
use relaymesh.Core.Libraries.{Libraries}
use relaymesh.Core.Relaybus.{PublishRetryConfig, RelaybusConfig}
use relaymesh.Core.Rules.{Rule, RulesConfig}
use relaymesh.Core.Publisher.{Publisher, Brokers}
use relaymesh.Drivers.Config.{Codecs}
use relaymesh.Storage.Tenant.{Context}
use relaymesh.Storage.Records.{DriverRecord}

abbrev pub push_event : Event
push_event = record {
  provider = text "github";
  provider_type = [];
  name = text "push";
  event_type = [];
  action = [];
  resource_type = [];
  resource_id = [];
  resource_name = [];
  actor_id = [];
  actor_name = [];
  occurred_at = [];
  request_id = [];
  log_id = [];
  headers = none;
  payload_fields = some (field (text "push") (bool true) end);
  raw_payload = text "true";
  raw_object = bool true;
  state_id = [];
  tenant_id = text "acme";
  installation_id = [];
  provider_instance_key = [];
  namespace_id = [];
  namespace_name = [];
}

-- An expression is one variable, and its value is the parameter of this name.
abbrev parameter : Text → Option Fields → Outcome Value
parameter name none = fail (text "no parameters" ∷ [])
parameter name (some m) = elim (get_field name m) [
  | none ↦ fail (text "no parameter" ∷ [])
  | some v ↦ ok v
]

abbrev pub one_variable : Libraries
one_variable = record {
  Expression = Text;
  compile = λ t. if same t [] then fail (text "empty expression" ∷ []) else ok t;
  vars = λ e. e ∷ [];
  evaluate = parameter;
  json_path = λ path v. ok v;
  unmarshal = λ t. ok (bool true);
  sha1_hex = λ t. t;
}

abbrev pub push_rule : Rule
push_rule = record {
  id = [];
  when_expr = text "push";
  emit = text " pushed " ∷ text " " ∷ text "audit" ∷ [];
  driver_id = text "d1";
  transform_js = [];
  driver_name = text "nats";
  driver_config_json = [];
  driver_enabled = true;
}

-- rewriteExpression leaves an empty expression, which does not compile.
abbrev pub broken_rule : Rule
broken_rule = record push_rule { when_expr = [] }

abbrev pub rules_of : Text → List Rule → RulesConfig
rules_of tenant_id rules = record { rules = rules; strict = true; tenant_id = tenant_id }

-- The world counts what is sent.
abbrev pub counting : Brokers ℕ
counting = record {
  wide_lower = λ t. t;
  connect = λ d w. (ok (record { send = λ topic m v. ([], v + 1); shut = λ v. ([], v) }), w);
  factories = [];
  wait = λ delay w. ([], w);
  marshal_value = λ v. ok (text "null");
  marshal_event = λ e. ok (text "{}");
  marshal_payload = λ provider name raw. ok raw;
  now = λ w. (0, w);
  new_uuid = λ w. (text "id", w);
}

-- A publisher that takes every event, and one that takes none.
abbrev pub taking : Publisher ℕ
taking = record {
  publish = λ topic event w. ([], w + 1);
  publish_for_drivers = λ topic event drivers w. ([], w + 1);
  close = λ w. ([], w);
}

abbrev pub refusing : Publisher ℕ
refusing = record {
  publish = λ topic event w. (text "down" ∷ [], w + 1);
  publish_for_drivers = λ topic event drivers w. (text "down" ∷ [], w + 1);
  close = λ w. ([], w);
}

abbrev pub no_retry : PublishRetryConfig
no_retry = record { attempts = pos 0; delay_ms = pos 0 }

abbrev pub to_nats : RelaybusConfig
to_nats = record {
  driver = text "nats";
  drivers = [];
  kafka = record { brokers = []; broker = []; topic_prefix = []; retry_count = pos 0 };
  nats = record { url = text "nats://bus"; subject_prefix = []; retry_count = pos 0 };
  amqp = record {
    url = [];
    exchange = [];
    routing_key_template = [];
    mandatory = false;
    immediate = false;
    retry_count = pos 0;
  };
  http = record { endpoint = []; retry_count = pos 0; webhook_token = [] };
  publish_retry = no_retry;
  dlq_driver = [];
}

-- Decoding takes the text for the URL.
abbrev pub plain_codecs : Codecs
plain_codecs = record {
  wide_lower = λ t. t;
  encode_amqp = λ c. ok c.url;
  encode_nats = λ c. ok c.url;
  encode_kafka = λ c. ok c.broker;
  encode_http = λ c. ok c.endpoint;
  decode_amqp = λ raw c. ok (record c { url = raw });
  decode_nats = λ raw c. ok (record c { url = raw });
  decode_kafka = λ raw c. ok (record c { broker = raw });
  decode_http = λ raw c. ok (record c { endpoint = raw });
}

abbrev pub nats_record : DriverRecord
nats_record = record {
  tenant_id = text "acme";
  id = text "d1";
  name = text " NATS ";
  config_json = text "nats://acme";
  enabled = true;
  created_at = 0;
  updated_at = 0;
}

abbrev pub no_tenant : Context
no_tenant = record { tenant_value = none }

abbrev pub acme : Context
acme = record { tenant_value = some (text "acme") }
