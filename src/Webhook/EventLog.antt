-- ===== src/Webhook/EventLog.antt =====
-- pkg/webhook/event_logging.go: the log entries of an event. The loggers are left out.
pub mod Aligned
use relaymesh.Prelude.{
  Bool, true, false, Option, none, some, List, [], ◌∷◌, ◌++◌, is_empty, if◌then◌else◌,
}
use relaymesh.Prelude.Int.{pos}
use relaymesh.Prelude.Text.{Text, text, same, trim_space}
use relaymesh.Prelude.Table.{Table}
use relaymesh.Core.Event.{Event}
use relaymesh.Core.Rules.{MatchedRule}
use relaymesh.Core.Publisher.{Act}
use relaymesh.Storage.Records.{EventLogRecord}

-- cloneHeaders: headers without values are dropped.
filled_headers : Table (List Text) → Table (List Text)
filled_headers [] = []
filled_headers ((key, values) ∷ headers) =
    let rest = filled_headers headers in if is_empty values then rest else (key, values) ∷ rest

unfoldable pub clone_headers : Option (Table (List Text)) → Option (Table (List Text))
unfolding filled_headers
clone_headers none = none
clone_headers (some headers) = some (filled_headers headers)

-- CreateEventLogs of a storage.EventLogStore
abbrev pub CreateEventLogs : Type 0 → Type 0
CreateEventLogs W = List EventLogRecord → Act W

-- The two lists that buildEventLogRecords returns, and the world.
pub record BuiltLogs (W : Type 0) : Type 0 where
  pub records : List EventLogRecord
  pub matched : List EventLogRecord
  pub world : W

module _ (W : Type 0) (new_uuid : W → Text × W) (sha256_hex : Text → Text) where
  -- hashBody
  unfoldable pub hash_body : Text → Text
  hash_body body = if is_empty body then [] else sha256_hex body

  -- The fields that every entry of an event has, with a status.
  unfoldable pub log_entry : Event → Text → Text → EventLogRecord
  unfolding hash_body clone_headers
  log_entry event id status = record {
    tenant_id = [];
    id = id;
    provider = event.provider;
    name = event.name;
    request_id = event.request_id;
    state_id = event.state_id;
    installation_id = event.installation_id;
    namespace_id = event.namespace_id;
    namespace_name = event.namespace_name;
    topic = [];
    rule_id = [];
    rule_when = [];
    drivers = [];
    headers = clone_headers event.headers;
    body = event.raw_payload;
    transformed_body = [];
    body_hash = hash_body event.raw_payload;
    matched = false;
    created_at = 0;
    updated_at = 0;
    status = status;
    error_message = [];
    latency_ms = pos 0;
  }

  -- The drivers of an entry: the rule's driver name, or else its driver id.
  unfoldable pub rule_drivers : MatchedRule → List Text
  rule_drivers rule =
      let name = trim_space rule.driver_name in
      let driver_name = if same name [] then trim_space rule.driver_id else name in
      if same driver_name [] then [] else driver_name ∷ []

  unfoldable pub topic_entry : Event → MatchedRule → Text → Text → EventLogRecord
  unfolding log_entry rule_drivers
  topic_entry event rule topic id = record (log_entry event id (text "queued")) {
    topic = topic;
    rule_id = rule.id;
    rule_when = rule.when_expr;
    drivers = rule_drivers rule;
    matched = true;
  }

  -- The loops of buildEventLogRecords, over the topics of a rule and over the rules.
  unfoldable pub log_topics : Event → MatchedRule → List Text → W → List EventLogRecord × W
  log_topics event rule [] w = ([], w)
  log_topics event rule (topic ∷ topics) w =
      let fresh = new_uuid w in
      let rest = log_topics event rule topics fresh.1 in
      (topic_entry event rule topic fresh.0 ∷ rest.0, rest.1)

  unfoldable pub log_rules : Event → List MatchedRule → W → List EventLogRecord × W
  log_rules event [] w = ([], w)
  log_rules event (rule ∷ rules) w =
      let entries = log_topics event rule rule.emit w in
      let rest = log_rules event rules entries.1 in (entries.0 ++ rest.0, rest.1)

  -- buildEventLogRecords
  unfoldable pub build_event_log_records : Event → List MatchedRule → W → BuiltLogs W
  unfolding log_entry
  build_event_log_records event [] w =
      let fresh = new_uuid w in
      record {
        records = log_entry event fresh.0 (text "ignored") ∷ [];
        matched = [];
        world = fresh.1;
      }
  build_event_log_records event (rule ∷ rules) w =
      let built = log_rules event (rule ∷ rules) w in
      record { records = built.0; matched = built.0; world = built.1 }

  -- logEventMatches; an error of the store is dropped.
  unfoldable pub log_event_matches :
      Option (CreateEventLogs W) → Event → List MatchedRule → W → List EventLogRecord × W
  log_event_matches none event rules w = ([], w)
  log_event_matches (some create) event rules w =
      let built = build_event_log_records event rules w in
      if is_empty built.records
      then ([], built.world)
      else (built.matched, (create built.records built.world).1)

  -- logEventFailure
  unfoldable pub log_event_failure : Option (CreateEventLogs W) → Event → Text → W → W
  unfolding log_entry
  log_event_failure none event reason w = w
  log_event_failure (some create) event reason w =
      let fresh = new_uuid w in
      (create (record (log_entry event fresh.0 (text "failed")) { error_message = reason } ∷ [])
        fresh.1).1

-- topicsFromLogRecords
unfoldable pub topics_from_log_records : List EventLogRecord → List Text
topics_from_log_records [] = []
topics_from_log_records (record_ ∷ records) =
    let rest = topics_from_log_records records in
    if same record_.topic [] then rest else record_.topic ∷ rest
