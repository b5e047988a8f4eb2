-- ===== src/Storage/Memory/Analytics.antt =====
-- mocks_eventlogs.go of pkg/storage: GetEventLogAnalytics and its counts.
pub mod Counted
use relaymesh.Prelude.{
  ℕ, zero, suc, Bool, true, false, ◌&&◌, Option, none, some, List, [], ◌∷◌, length, ltb, ◌==◌,
  if◌then◌else◌,
}
use relaymesh.Prelude.Int.{pos}
use relaymesh.Prelude.Text.{Text, same}
use relaymesh.Prelude.Table.{Table, lookup, insert}
use relaymesh.Storage.Records.{EventLogRecord}
use relaymesh.Storage.Tenant.{Context}
use relaymesh.Storage.Memory.Logs.{EventLogFilter, list_event_logs}

-- EventLogCount
pub record EventLogCount : Type 0 where
  pub key : Text
  pub count : ℕ

-- EventLogAnalytics
pub record EventLogAnalytics : Type 0 where
  pub total : ℕ
  pub matched : ℕ
  pub distinct_req : ℕ
  pub by_provider : List EventLogCount
  pub by_event : List EventLogCount
  pub by_topic : List EventLogCount
  pub by_rule : List EventLogCount
  pub by_install : List EventLogCount
  pub by_namespace : List EventLogCount

-- The variables of the loop of GetEventLogAnalytics.
pub record Tallies : Type 0 where
  pub matched : ℕ
  pub reqs : Table (Unit {0})
  pub by_provider : Table ℕ
  pub by_event : Table ℕ
  pub by_topic : Table ℕ
  pub by_rule : Table ℕ
  pub by_install : Table ℕ
  pub by_namespace : Table ℕ

-- `a < b` on strings, byte by byte
unfoldable pub text_before : Text → Text → Bool
text_before a [] = false
text_before [] (d ∷ b) = true
text_before (c ∷ a) (d ∷ b) = let rest = text_before a b in if c == d then rest else ltb c d

-- `m[key]`, 0 where it is missing
unfoldable pub count_at : Text → Table ℕ → ℕ
count_at key m = elim (lookup key m) [ some n ↦ n | none ↦ 0 ]

-- `if key != "" { m[key]++ }`
unfoldable pub bump : Text → Table ℕ → Table ℕ
bump key m = if same key [] then m else insert key (suc (count_at key m)) m

-- `else if`: the first of two texts that is not empty
unfoldable pub either_text : Text → Text → Text
either_text first second = if same first [] then second else first

-- A turn of the loop.
unfoldable pub tally : EventLogRecord → Tallies → Tallies
tally r t = record {
  matched = if r.matched then suc t.matched else t.matched;
  reqs = if same r.request_id [] then t.reqs else insert r.request_id tt t.reqs;
  by_provider = bump r.provider t.by_provider;
  by_event = bump r.name t.by_event;
  by_topic = bump r.topic t.by_topic;
  by_rule = bump (either_text r.rule_id r.rule_when) t.by_rule;
  by_install = bump r.installation_id t.by_install;
  by_namespace = bump (either_text r.namespace_name r.namespace_id) t.by_namespace;
}

unfoldable pub tally_all : List EventLogRecord → Tallies → Tallies
tally_all [] t = t
tally_all (r ∷ rs) t = tally_all rs (tally r t)

-- The order of sort.Slice in mapCounts.
unfoldable pub before : EventLogCount → EventLogCount → Bool
before c d = if c.count == d.count then text_before c.key d.key else ltb d.count c.count

unfoldable pub put_count : EventLogCount → List EventLogCount → List EventLogCount
put_count c [] = c ∷ []
put_count c (d ∷ ds) = let later = put_count c ds in if before c d then c ∷ d ∷ ds else d ∷ later

-- mapCounts
unfoldable pub map_counts : Table ℕ → List EventLogCount
map_counts [] = []
map_counts ((key, n) ∷ m) = put_count (record { key = key; count = n }) (map_counts m)

-- The filter that GetEventLogAnalytics hands on: without the rule, the namespace and the page.
unfoldable pub analytics_filter : EventLogFilter → EventLogFilter
analytics_filter f = record f {
  namespace_id = [];
  namespace_name = [];
  rule_id = [];
  rule_when = [];
  limit = pos 0;
  offset = pos 0;
}

abbrev pub no_tallies : Tallies
no_tallies = record {
  matched = 0;
  reqs = [];
  by_provider = [];
  by_event = [];
  by_topic = [];
  by_rule = [];
  by_install = [];
  by_namespace = [];
}

-- What GetEventLogAnalytics returns for the entries it has listed.
unfoldable pub analytics_of : List EventLogRecord → EventLogAnalytics
analytics_of records =
    let t = tally_all records no_tallies in
    record {
      total = length records;
      matched = t.matched;
      distinct_req = length t.reqs;
      by_provider = map_counts t.by_provider;
      by_event = map_counts t.by_event;
      by_topic = map_counts t.by_topic;
      by_rule = map_counts t.by_rule;
      by_install = map_counts t.by_install;
      by_namespace = map_counts t.by_namespace;
    }

-- GetEventLogAnalytics; `none` is a panic.
unfoldable pub get_event_log_analytics :
    Context → EventLogFilter → List EventLogRecord → Option EventLogAnalytics
get_event_log_analytics ctx f values = elim (list_event_logs ctx (analytics_filter f) values) [
  | some records ↦ some (analytics_of records)
  | none ↦ none
]
