-- ===== src/Tests/Stores.antt =====
-- Runs of the stores in memory.
use relaymesh.Prelude.{
  ℕ, ◌≡◌, ◌↔◌, refl, ap, false≢true, true, ◌&&◌, none, some, List, [], ◌∷◌, IfSome, inl, inr, ◌⊎◌,
  ◌||◌, if◌then◌else◌, arith, All,
}
use relaymesh.Prelude.Int.{ℤ, pos, less, plus64}
use relaymesh.Prelude.Text.{Text, text, same, trim_space}
use relaymesh.Prelude.Table.{Table, insert, lookup}
use relaymesh.Storage.Records.{RuleRecord, DriverRecord, EventLogRecord, InstallRecord}
use relaymesh.Storage.Tenant.{Context, tenant_from_context}
use relaymesh.Storage.Memory.Keyed.{Has}
use relaymesh.Storage.Memory.Rules.{RuleMap, list_rules, get_rule, create_rule}
use relaymesh.Storage.Memory.Rules.Visible.{empty, next, created, list_rules-get_rule}
use relaymesh.Storage.Memory.Drivers.{
  list_drivers, upsert_driver, kept_driver, driver_key, DriverMap,
}
use relaymesh.Storage.Memory.Drivers.Single.{upsert_driver_single}
use relaymesh.Storage.Memory.Installations.{
  get_installation, get_by_installation_id, get_by_instance_key,
}
use relaymesh.Storage.Memory.Installations.Latest.{Newest, get_installation-Newest}
use relaymesh.Storage.Memory.{visible, matches, own_tenant}
use relaymesh.Storage.Memory.Logs.{
  EventLogFilter, passing, passes, place, newest_first, matches_flag, page, page_start, page_end,
  list_event_logs, is_entry, find_log, update_event_log_state, milliseconds_since,
}
use relaymesh.Storage.Memory.Analytics.{
  EventLogAnalytics, analytics_filter, get_event_log_analytics, analytics_of, tally_all, tally,
  bump, count_at, map_counts, put_count,
}
use relaymesh.Storage.Memory.Breakdown.{
  Numbers, by_topic, by_failed, breakdown_key, group_all, sorted_rows,
}
use relaymesh.Storage.Memory.Breakdown.Rows.{events_in, IsSound, sorted_rows-IsSound}
use relaymesh.Storage.Memory.Analytics.Counted.{
  Counted, occurrences, get_event_log_analytics-Counts,
}
use relaymesh.Storage.Memory.Logs.Fits.{Fits}
use relaymesh.Storage.Memory.Logs.Listed.{IsDescending, list_event_logs-IsDescending}
use relaymesh.Storage.Memory.Logs.Paging.{
  Sees, list_event_logs_complete, find_log-update_event_log_state,
}

abbrev of_acme : Context
of_acme = record { tenant_value = some (text "a") }

abbrev of_beta : Context
of_beta = record { tenant_value = some (text "b") }

abbrev one_rule : RuleRecord
one_rule = record {
  tenant_id = [];
  id = text "r1";
  when_expr = text "push";
  emit = text "t" ∷ [];
  driver_id = text " d1 ";
  transform_js = [];
  driver_name = [];
  driver_config_json = [];
  driver_enabled = true;
  created_at = 0;
  updated_at = 0;
}

abbrev rules_of_acme : RuleMap
rules_of_acme = (create_rule of_acme (text "now") 5 6 one_rule []).1

list_rules-get_rule_example :
    Has one_rule (list_rules of_acme rules_of_acme)
    ↔ (get_rule of_acme (text "r1") rules_of_acme ≡ some one_rule)
list_rules-get_rule_example =
    list_rules-get_rule rules_of_acme of_acme one_rule
      (next empty (created of_acme (text "now") 5 6 one_rule))

abbrev driver_of : Text → Text → DriverRecord
driver_of tenant name = record {
  tenant_id = tenant;
  id = text "d";
  name = name;
  config_json = [];
  enabled = true;
  created_at = 1;
  updated_at = 1;
}

abbrev two_tenants : DriverMap
two_tenants =
    (text "a|nats", driver_of (text "a") (text "nats"))
    ∷ (text "b|amqp", driver_of (text "b") (text "amqp"))
    ∷ []

upsert_driver_single_example :
    (list_drivers of_acme (upsert_driver of_acme 5 6 (driver_of [] (text "kafka")) two_tenants).1
      ≡ kept_driver of_acme 5 6 (driver_of [] (text "kafka")) ∷ [])
    × (list_drivers of_beta (upsert_driver of_acme 5 6 (driver_of [] (text "kafka")) two_tenants).1
        ≡ list_drivers of_beta two_tenants)
unfolding driver_key same tenant_from_context trim_space
upsert_driver_single_example =
    upsert_driver_single of_acme of_beta 5 6 (driver_of [] (text "kafka")) two_tenants
      (refl, refl, (refl, refl, tt)) refl (refl, (refl, tt))
      (λ e. false≢true (ap (λ t. same t (text "b")) e))

abbrev installed_at : ℕ → InstallRecord
installed_at t = record {
  id = [];
  tenant_id = text "a";
  provider = text "github";
  account_id = text "a";
  account_name = [];
  installation_id = text "7";
  provider_instance_key = [];
  enterprise_id = [];
  enterprise_slug = [];
  enterprise_name = [];
  access_token = [];
  refresh_token = [];
  expires_at = none;
  metadata_json = [];
  created_at = 0;
  updated_at = t;
}

abbrev installs : Table InstallRecord
installs = (text "k1", installed_at 3) ∷ (text "k2", installed_at 9) ∷ []

get_installation-Newest_example :
    Newest
      (λ r.
        (same r.provider (text "github")
          && same r.account_id (text "a")
          && same r.installation_id (text "7"))
        && visible of_acme r.tenant_id)
      installs
      (get_installation of_acme (text "github") (text "a") (text "7") installs)
    × Newest
        (λ r.
          (same r.provider (text "github") && same r.installation_id (text "7"))
          && visible of_acme r.tenant_id)
        installs
        (get_by_installation_id of_acme (text "github") (text "7") installs)
    × Newest
        (λ r.
          (same r.provider (text "github")
            && same r.installation_id (text "7")
            && same r.provider_instance_key [])
          && visible of_acme r.tenant_id)
        installs
        (get_by_instance_key of_acme (text "github") (text "7") [] installs)
get_installation-Newest_example =
    get_installation-Newest of_acme (text "github") (text "a") (text "7") [] installs

abbrev logged_at : ℕ → Text → EventLogRecord
logged_at t id = record {
  tenant_id = text "a";
  id = id;
  provider = text "github";
  name = text "push";
  request_id = [];
  state_id = [];
  installation_id = [];
  namespace_id = [];
  namespace_name = [];
  topic = text "t";
  rule_id = [];
  rule_when = [];
  drivers = [];
  headers = none;
  body = [];
  transformed_body = [];
  body_hash = [];
  matched = true;
  created_at = t;
  updated_at = t;
  status = text "queued";
  error_message = [];
  latency_ms = pos 0;
}

abbrev three_logs : List EventLogRecord
three_logs = logged_at 4 (text "a") ∷ logged_at 9 (text "b") ∷ logged_at 6 (text "c") ∷ []

abbrev from_github : EventLogFilter
from_github = record {
  tenant_id = [];
  provider = text "github";
  name = [];
  request_id = [];
  state_id = [];
  installation_id = [];
  namespace_id = [];
  namespace_name = [];
  topic = [];
  rule_id = [];
  rule_when = [];
  matched = some true;
  start_time = 5;
  end_time = 0;
  limit = pos 2;
  offset = pos 0;
}

list_event_logs-IsDescending_example :
    IfSome
      (λ l. All (λ r. Has r three_logs × Fits of_acme from_github r) l × IsDescending l)
      (list_event_logs of_acme from_github three_logs)
list_event_logs-IsDescending_example = list_event_logs-IsDescending of_acme from_github three_logs

abbrev unpaged : EventLogFilter
unpaged = record from_github { limit = pos 0; provider = []; matched = none }

unpaged-Fits : Fits of_acme unpaged (logged_at 9 (text "b"))
unfolding tenant_from_context trim_space
unpaged-Fits = record {
  tenant = inl (refl, inr refl);
  provider = inl refl;
  name = inl refl;
  request = inl refl;
  state = inl refl;
  installation = inl refl;
  namespace = inl refl;
  namespace_name = inl refl;
  topic = inl refl;
  rule = inl refl;
  rule_when = inl refl;
  flag = inl refl;
  after = inr (omega arith);
  until = inl refl;
}

list_event_logs_complete_example :
    (l : List EventLogRecord) × (list_event_logs of_acme unpaged three_logs ≡ some l)
    × Has (logged_at 9 (text "b")) l
list_event_logs_complete_example =
    list_event_logs_complete of_acme unpaged three_logs (logged_at 9 (text "b")) refl refl
      (inr (inl refl)) unpaged-Fits

-- A limit that is added to an offset beyond the largest int: the slice has its bounds out of order.
list_event_logs_wraps :
    list_event_logs of_acme
      (record unpaged { offset = pos 1; limit = pos 9_223_372_036_854_775_807 })
      three_logs
    ≡ none
unfolding list_event_logs page page_start page_end plus64 less newest_first passing passes place
    matches own_tenant tenant_from_context trim_space same matches_flag
list_event_logs_wraps = refl

find_log-update_event_log_state_example :
    let updated =
      update_event_log_state of_acme 2_000_009 (text "b") (text "failed") (text "no") three_logs in
    ((text "b" ≡ text "b")
      × Sees of_acme (text "a")
      × (find_log of_acme (text "b") updated
          ≡ some (record (logged_at 9 (text "b")) {
            status = text "failed";
            error_message = text "no";
            updated_at = 2_000_009;
            latency_ms =
                if same (text "failed") (text "success") || same (text "failed") (text "failed")
                then milliseconds_since 9 2_000_009
                else pos 0;
          })))
    ⊎ ((¬ ((text "b" ≡ text "b") × Sees of_acme (text "a")))
        × (find_log of_acme (text "b") updated ≡ some (logged_at 9 (text "b"))))
unfolding find_log is_entry same visible matches tenant_from_context trim_space
find_log-update_event_log_state_example =
    find_log-update_event_log_state of_acme of_acme 2_000_009 (text "b") (text "b") (text "failed")
      (text "no") three_logs (logged_at 9 (text "b")) refl

get_event_log_analytics-Counts_example :
    (records : List EventLogRecord) × (a : EventLogAnalytics) × (list_event_logs of_acme
        (analytics_filter from_github)
        three_logs
      ≡ some records)
    × (get_event_log_analytics of_acme from_github three_logs ≡ some a)
    × Counted (text "t") records a
unfolding same
get_event_log_analytics-Counts_example =
    get_event_log_analytics-Counts of_acme from_github three_logs (text "t") refl

-- All three entries have the topic t.
analytics_three : (analytics_of three_logs).by_topic ≡ record { key = text "t"; count = 3 } ∷ []
unfolding analytics_of tally_all tally bump count_at insert lookup same map_counts put_count
analytics_three = refl

-- Floats that are integers, and decimals that are not needed for one page.
abbrev plain_numbers : Numbers ℤ
plain_numbers = record {
  zero_float = pos 0;
  to_float = λ n. n;
  scaled = λ n q. n;
  atoi = λ t. none;
  itoa = λ n. [];
}

sorted_rows-IsSound_example :
    let rows =
      sorted_rows plain_numbers by_topic by_failed true true three_logs
        (group_all plain_numbers by_topic three_logs []) in
    (events_in (text "t") rows ≡ occurrences (breakdown_key by_topic) (text "t") three_logs)
    × All IsSound rows
unfolding trim_space same
sorted_rows-IsSound_example =
    sorted_rows-IsSound plain_numbers by_topic by_failed true true three_logs (text "t") refl
