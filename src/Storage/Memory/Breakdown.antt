-- ===== src/Storage/Memory/Breakdown.antt =====
-- mocks_eventlogs.go of pkg/storage: GetEventLogBreakdown, its rows and pages. A float64 is of a type
-- that is a parameter, and so are its conversions; strconv is one too.
pub mod Rows
use relaymesh.Prelude.{
  ℕ, zero, suc, ◌+◌, ◌-◌, Bool, true, false, ◌&&◌, Option, none, some, List, [], ◌∷◌, map, length,
  slice, ltb, leb, ◌==◌, if◌then◌else◌,
}
use relaymesh.Prelude.Int.{ℤ, pos, negsuc, is_positive, rounds, less, plus64}
use relaymesh.Prelude.Text.{Text, text, same, trim_space, is_blank}
use relaymesh.Prelude.Table.{Table, lookup, insert}
use relaymesh.Prelude.Outcome.{Outcome, ok, fail}
use relaymesh.Storage.Records.{EventLogRecord}
use relaymesh.Storage.Tenant.{Context}
use relaymesh.Storage.Memory.Logs.{EventLogFilter, list_event_logs}
use relaymesh.Storage.Memory.Analytics.{text_before}

-- EventLogBreakdownGroup; the last is any other string.
pub data BreakdownGroup : Type 0 where
  by_provider by_event by_rule_id by_rule_when by_topic : BreakdownGroup
  by_namespace_id by_namespace_name by_installation : BreakdownGroup
  by_nothing : BreakdownGroup

-- EventLogBreakdownSort; the last is any other string, "count" and "latency_p95" among them.
pub data BreakdownSort : Type 0 where
  by_matched by_failed by_count : BreakdownSort

-- The 0.50, 0.95 and 0.99 of the latencies.
pub data Quantile : Type 0 where
  p50 p95 p99 : Quantile

-- EventLogBreakdown
pub record BreakdownRow (F : Type 0) : Type 0 where
  pub key : Text
  pub event_count : ℕ
  pub matched_count : ℕ
  pub failure_count : ℕ
  pub latency_p50 : F
  pub latency_p95 : F
  pub latency_p99 : F

pub record Numbers (F : Type 0) : Type 0 where
  pub zero_float : F
  -- float64 of an int64
  pub to_float : ℤ → F
  -- `int(float64(n) * p)`
  pub scaled : ℕ → Quantile → ℕ
  -- strconv.Atoi, without its error, and strconv.Itoa
  pub atoi : Text → Option ℤ
  pub itoa : ℕ → Text

-- mockBreakdownKey
unfoldable pub breakdown_key : BreakdownGroup → EventLogRecord → Text
breakdown_key by_provider r = r.provider
breakdown_key by_event r = r.name
breakdown_key by_rule_id r = r.rule_id
breakdown_key by_rule_when r = r.rule_when
breakdown_key by_topic r = r.topic
breakdown_key by_namespace_id r = r.namespace_id
breakdown_key by_namespace_name r = r.namespace_name
breakdown_key by_installation r = r.installation_id
breakdown_key by_nothing r = []

-- strings.EqualFold with "failed", whose letters have no other case beyond ASCII
unfoldable pub fold_byte : ℕ → ℕ
fold_byte c = if leb b'A' c && leb c b'Z' then c + 32 else c

unfoldable pub is_failed : Text → Bool
unfolding fold_byte
is_failed status = same (map fold_byte status) (text "failed")

-- The filter that GetEventLogBreakdown hands on: without the page.
unfoldable pub breakdown_filter : EventLogFilter → EventLogFilter
breakdown_filter f = record f { limit = pos 0; offset = pos 0 }

-- sort.Slice of the latencies
unfoldable pub put_latency : ℤ → List ℤ → List ℤ
put_latency x [] = x ∷ []
put_latency x (y ∷ ys) = let later = put_latency x ys in if less y x then y ∷ later else x ∷ y ∷ ys

unfoldable pub sort_latencies : List ℤ → List ℤ
sort_latencies [] = []
sort_latencies (x ∷ xs) = put_latency x (sort_latencies xs)

-- `values[index]` of the first value and the others, the last one where the index is beyond
unfoldable pub value_at : ℕ → ℤ → List ℤ → ℤ
value_at n x [] = x
value_at zero x (y ∷ ys) = x
value_at (suc n) x (y ∷ ys) = value_at n y ys

module _ {F : Type 0} (numbers : Numbers F) where
  -- The entry of a key, a new one where there is none.
  unfoldable pub row_at : Text → Table (BreakdownRow F) → BreakdownRow F
  row_at key grouped = elim (lookup key grouped) [
    | some row ↦ row
    | none ↦ record {
      key = key;
      event_count = 0;
      matched_count = 0;
      failure_count = 0;
      latency_p50 = numbers.zero_float;
      latency_p95 = numbers.zero_float;
      latency_p99 = numbers.zero_float;
    }
  ]

  -- An entry that has counted one more record.
  unfoldable pub counted : EventLogRecord → BreakdownRow F → BreakdownRow F
  counted r row = record row {
    event_count = suc row.event_count;
    matched_count = if r.matched then suc row.matched_count else row.matched_count;
    failure_count = if is_failed r.status then suc row.failure_count else row.failure_count;
  }

  -- A turn of the loop on `grouped`.
  unfoldable pub group_record :
      BreakdownGroup → EventLogRecord → Table (BreakdownRow F) → Table (BreakdownRow F)
  group_record group r grouped =
      let key = breakdown_key group r in
      if is_blank key then grouped else insert key (counted r (row_at key grouped)) grouped

  unfoldable pub group_all :
      BreakdownGroup → List EventLogRecord → Table (BreakdownRow F) → Table (BreakdownRow F)
  group_all group [] grouped = grouped
  group_all group (r ∷ rs) grouped = group_all group rs (group_record group r grouped)

  -- `latencies[key]`, in the order of the records
  unfoldable pub latencies_of : BreakdownGroup → Text → List EventLogRecord → List ℤ
  latencies_of group key [] = []
  latencies_of group key (r ∷ rs) =
      let rest = latencies_of group key rs in
      if same (breakdown_key group r) key && is_positive r.latency_ms
      then r.latency_ms ∷ rest
      else rest

  -- mockPercentile
  unfoldable pub percentile : List ℤ → Quantile → F
  percentile [] q = numbers.zero_float
  percentile (x ∷ xs) q = numbers.to_float (value_at (numbers.scaled (length xs) q) x xs)

  -- The latencies of an entry, if there are any.
  unfoldable pub with_latency : List ℤ → BreakdownRow F → BreakdownRow F
  with_latency [] row = row
  with_latency (x ∷ xs) row =
      let values = sort_latencies (x ∷ xs) in
      record row {
        latency_p50 = percentile values p50;
        latency_p95 = percentile values p95;
        latency_p99 = percentile values p99;
      }

  -- mockSortValue
  unfoldable pub sort_value : BreakdownSort → BreakdownRow F → ℕ
  sort_value by_matched row = row.matched_count
  sort_value by_failed row = row.failure_count
  sort_value by_count row = row.event_count

  -- The order of sort.Slice.
  unfoldable pub row_before : BreakdownSort → Bool → BreakdownRow F → BreakdownRow F → Bool
  row_before sort_by desc a b =
      let m = sort_value sort_by a in
      let n = sort_value sort_by b in
      if m == n
      then (if desc then text_before a.key b.key else text_before b.key a.key)
      else if desc
      then ltb n m
      else ltb m n

  unfoldable pub put_row :
      BreakdownSort → Bool → BreakdownRow F → List (BreakdownRow F) → List (BreakdownRow F)
  put_row sort_by desc row [] = row ∷ []
  put_row sort_by desc row (s ∷ ss) =
      let later = put_row sort_by desc row ss in
      if row_before sort_by desc row s then row ∷ s ∷ ss else s ∷ later

  -- The entries in order, with their latencies if these are asked for.
  unfoldable pub sorted_rows :
      BreakdownGroup
      → BreakdownSort
      → Bool
      → Bool
      → List EventLogRecord
      → Table (BreakdownRow F)
      → List (BreakdownRow F)
  sorted_rows group sort_by desc latency records [] = []
  sorted_rows group sort_by desc latency records ((key, row) ∷ rest) =
      put_row sort_by desc
        (if latency then with_latency (latencies_of group row.key records) row else row)
        (sorted_rows group sort_by desc latency records rest)

  -- mockParsePageToken
  unfoldable pub parse_page_token : Text → Outcome ℕ
  parse_page_token token = if is_blank token then ok 0 else elim (numbers.atoi (trim_space token)) [
    | none ↦ fail (text "invalid page_token" ∷ [])
    | some (negsuc n) ↦ fail (text "invalid page_token" ∷ [])
    | some (pos n) ↦ ok n
  ]

  -- mockFormatPageToken
  unfoldable pub format_page_token : ℕ → Text
  format_page_token zero = []
  format_page_token (suc n) = numbers.itoa (suc n)

  -- `pageSize`, 50 where it is not positive
  unfoldable pub page_size_of : ℤ → ℕ
  page_size_of size = if is_positive size then rounds size else 50

  -- The page of the entries from an offset on, and the token of the next one; `end` is an int, and
  -- `none` is a panic.
  unfoldable pub page_of_rows :
      ℕ → ℤ → List (BreakdownRow F) → Option (List (BreakdownRow F) × Text)
  page_of_rows offset page_size rows =
      let len = length rows in
      let start = if ltb len offset then len else offset in
      let sum = plus64 start (page_size_of page_size) in
      let end = if less (pos len) sum then pos len else sum in
      let next = if less end (pos len) then format_page_token (rounds end) else [] in
      elim (slice start end rows) [ some page ↦ some (page, next) | none ↦ none ]

  -- The entries of the listed records, in order.
  unfoldable pub rows_of :
      BreakdownGroup → BreakdownSort → Bool → Bool → List EventLogRecord → List (BreakdownRow F)
  rows_of group sort_by desc latency records =
      sorted_rows group sort_by desc latency records (group_all group records [])

  page_from :
      Outcome ℕ → ℤ → List (BreakdownRow F) → Option (Outcome (List (BreakdownRow F) × Text))
  page_from (fail e) page_size rows = some (fail e)
  page_from (ok offset) page_size rows = elim (page_of_rows offset page_size rows) [
    | some page ↦ some (ok page)
    | none ↦ none
  ]

  -- GetEventLogBreakdown; `none` is a panic.
  unfoldable pub get_event_log_breakdown :
      Context
      → EventLogFilter
      → BreakdownGroup
      → BreakdownSort
      → Bool
      → ℤ
      → Text
      → Bool
      → List EventLogRecord
      → Option (Outcome (List (BreakdownRow F) × Text))
  unfolding page_from
  get_event_log_breakdown ctx f group sort_by desc page_size page_token latency values =
      elim (list_event_logs ctx (breakdown_filter f) values) [
        | none ↦ none
        | some records ↦
            page_from (parse_page_token page_token) page_size
              (rows_of group sort_by desc latency records)
      ]
