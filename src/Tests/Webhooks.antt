-- ===== src/Tests/Webhooks.antt =====
-- Runs of the matches, the log entries and the rules of a webhook.
use relaymesh.Prelude.{◌+◌, ℕ, ◌≡◌, refl, true, none, some, [], ◌∷◌, All}
use relaymesh.Prelude.Text.{Text, text, same, trim_space}
use relaymesh.Prelude.Outcome.{ok, fail}
use relaymesh.Core.Value.{null}
use relaymesh.Core.EmitList.{clean}
use relaymesh.Core.Rules.{Rule, RuleMatch, MatchedRule}
use relaymesh.Core.Config.{normalize_rule, normalize_from, normalize_rules}
use relaymesh.Core.Config.Normal.{IsValidRule, normalize_rules_idem}
use relaymesh.Storage.Records.{RuleRecord}
use relaymesh.Webhook.Matches.{rule_matches_from_rules, topics_from_matches}
use relaymesh.Webhook.Transform.{Scripts}
use relaymesh.Webhook.Publish.{Updaters, publish_matches}
use relaymesh.Webhook.Publish.{publish_match}
use relaymesh.Prelude.Int.{pos}
use relaymesh.Storage.Records.{EventLogRecord}
use relaymesh.Webhook.Publish.Ways.{Way, updaters, publish_match-Way}
use relaymesh.Prelude.{false}
use relaymesh.Webhook.Publish.Routes.{publish_matches_own}
use relaymesh.Webhook.EventLog.{log_event_matches, topics_from_log_records}
use relaymesh.Webhook.EventLog.Aligned.{Aligned, log_event_matches-Aligned}
use relaymesh.Webhook.RuleStore.{GetDriverById, ListRules}
use relaymesh.Webhook.RuleStore.{match_rules_from_store}
use relaymesh.Webhook.RuleStore.Deliverable.{HasDriver, match_rules_from_store-HasDriver}
use relaymesh.Tests.Samples.{one_variable}
use relaymesh.Tests.Samples.{
  push_event, push_rule, counting, taking, refusing, to_nats, plain_codecs, nats_record,
}
use relaymesh.Tests.Samples.{no_tenant}

abbrev matched : MatchedRule
matched = record {
  id = text "r1";
  when_expr = text "push";
  emit = text "pushed" ∷ text "audit" ∷ [];
  driver_id = text "d1";
  transform_js = [];
  driver_name = text "nats";
  driver_config_json = text "nats://acme";
  driver_enabled = true;
}

abbrev identity : Text → Text
identity t = t

log_event_matches-Aligned_example :
    Aligned push_event
      (rule_matches_from_rules (matched ∷ []))
      (log_event_matches ℕ counting.new_uuid identity
        (some (λ logs w. ([], w)))
        push_event
        (matched ∷ [])
        0).0
    × (topics_from_log_records
          (log_event_matches ℕ counting.new_uuid identity
            (some (λ logs w. ([], w)))
            push_event
            (matched ∷ [])
            0).0
        ≡ topics_from_matches (rule_matches_from_rules (matched ∷ [])))
log_event_matches-Aligned_example =
    log_event_matches-Aligned ℕ counting.new_uuid identity push_event (λ logs w. ([], w))
      (matched ∷ []) 0

abbrev no_scripts : Scripts
no_scripts = record {
  Script = Text;
  compile = λ t. fail (text "no scripts" ∷ []);
  call = λ script payload context. ok payload;
  unmarshal = λ t. ok null;
  marshal = λ v. ok [];
  headers_value = λ h. null;
}

abbrev no_updaters : Updaters ℕ
no_updaters = record { status = none; payload = none }

abbrev nats_match : RuleMatch
nats_match = record {
  topic = text "pushed";
  driver_id = text "d1";
  transform_js = [];
  driver_name = text "nats";
  rule_id = text "r1";
  rule_when = text "push";
  driver_config_json = text "nats://acme";
  driver_enabled = true;
}

publish_matches_own_example :
    publish_matches ℕ counting plain_codecs identity to_nats no_scripts no_updaters taking
      push_event
      (nats_match ∷ [])
      []
      (record { dynamic = some []; world = 0 })
    ≡ publish_matches ℕ counting plain_codecs identity to_nats no_scripts no_updaters refusing
        push_event
        (nats_match ∷ [])
        []
        (record { dynamic = some []; world = 0 })
unfolding same trim_space
publish_matches_own_example =
    publish_matches_own ℕ counting plain_codecs identity to_nats no_scripts no_updaters taking
      refusing push_event (nats_match ∷ []) [] (record { dynamic = some []; world = 0 }) refl
      (refl, tt)

abbrev stored_rule : RuleRecord
stored_rule = record {
  tenant_id = text "acme";
  id = text "r1";
  when_expr = text "push";
  emit = text "pushed" ∷ [];
  driver_id = text " d1";
  transform_js = [];
  driver_name = [];
  driver_config_json = [];
  driver_enabled = true;
  created_at = 0;
  updated_at = 0;
}

abbrev get_nats : GetDriverById ℕ
get_nats ctx driver_id w = (ok (some nats_record), w)

-- One record is complete once its driver is looked up, and one has no topics.
abbrev list_rules : ListRules ℕ
list_rules ctx w = (ok (stored_rule ∷ record stored_rule { emit = [] } ∷ []), w)

abbrev loaded_rule : Rule
loaded_rule = record {
  id = text "r1";
  when_expr = text "push";
  emit = text "pushed" ∷ [];
  driver_id = text "d1";
  transform_js = [];
  driver_name = text "NATS";
  driver_config_json = [];
  driver_enabled = true;
}

abbrev normal_rule : Rule
normal_rule = record push_rule { emit = text "pushed" ∷ text "audit" ∷ [] }

normalize_rules_idem_example :
    All IsValidRule (normal_rule ∷ [])
    × (normalize_rules (λ n. []) (normal_rule ∷ []) ≡ ok (normal_rule ∷ []))
unfolding normalize_rules normalize_from normalize_rule clean same trim_space
normalize_rules_idem_example =
    normalize_rules_idem (λ n. []) (push_rule ∷ []) (normal_rule ∷ []) refl

match_rules_from_store-HasDriver_example : All HasDriver (
    rule_matches_from_rules
      (match_rules_from_store one_variable ℕ no_tenant push_event
        (text "acme")
        (some list_rules)
        (some get_nats)
        true
        0).0)
match_rules_from_store-HasDriver_example =
    match_rules_from_store-HasDriver one_variable ℕ no_tenant push_event (text "acme")
      (some list_rules) (some get_nats) true 0

-- A status that is set and a payload that is written count as a hundred and as ten.
abbrev count_status : Text → Text → Text → ℕ → ℕ
count_status id status reason w = w + 100

abbrev count_payload : Text → Text → ℕ → ℕ
count_payload id body w = w + 10

abbrev entry : EventLogRecord
entry = record {
  tenant_id = text "a";
  id = text "log1";
  provider = text "github";
  name = text "push";
  request_id = [];
  state_id = [];
  installation_id = [];
  namespace_id = [];
  namespace_name = [];
  topic = text "t";
  rule_id = [];
  rule_when = [];
  drivers = [];
  headers = none;
  body = [];
  transformed_body = [];
  body_hash = [];
  matched = true;
  created_at = 1;
  updated_at = 1;
  status = text "queued";
  error_message = [];
  latency_ms = pos 0;
}

-- The driver of the match is disabled: the fallback publisher takes the event.
publish_match-Way_example :
    Way ℕ counting plain_codecs identity to_nats no_scripts taking count_status count_payload
      push_event
      (record nats_match { driver_enabled = false })
      entry
      (record { dynamic = some []; world = 0 })
      (publish_match ℕ counting plain_codecs identity to_nats no_scripts
        (updaters ℕ counting plain_codecs identity to_nats no_scripts taking count_status
          count_payload)
        taking
        push_event
        (record nats_match { driver_enabled = false })
        (some entry)
        (record { dynamic = some []; world = 0 }))
publish_match-Way_example =
    publish_match-Way ℕ counting plain_codecs identity to_nats no_scripts taking count_status
      count_payload push_event (record nats_match { driver_enabled = false }) entry
      (record { dynamic = some []; world = 0 })
