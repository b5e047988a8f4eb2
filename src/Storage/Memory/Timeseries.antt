-- ===== src/Storage/Memory/Timeseries.antt =====
-- mocks_eventlogs.go of pkg/storage: GetEventLogTimeseries. Times are nanoseconds from the zero time,
-- which is a Monday at midnight.
pub mod Ended
use Prim.Native.Nat.{◌/◌, ◌*◌, ◌%◌}
use relaymesh.Prelude.{
  ℕ, zero, suc, ◌+◌, ◌-◌, Bool, true, false, ◌||◌, Option, none, some, List, [], ◌∷◌, length, ltb,
  leb, ◌==◌, if◌then◌else◌,
}
use relaymesh.Prelude.Int.{pos}
use relaymesh.Prelude.Text.{Text, text, same}
use relaymesh.Prelude.Table.{Table, insert}
use relaymesh.Prelude.Outcome.{Outcome, ok, fail}
use relaymesh.Storage.Records.{EventLogRecord}
use relaymesh.Storage.Tenant.{Context}
use relaymesh.Storage.Memory.Logs.{EventLogFilter, list_event_logs}
use relaymesh.Storage.Memory.Breakdown.{is_failed, breakdown_filter}

-- EventLogInterval; the last two are any other string, and "".
pub data Interval : Type 0 where
  each_hour each_day each_week other_interval unset : Interval

-- EventLogTimeseriesBucket
pub record Bucket : Type 0 where
  pub start : ℕ
  pub end : ℕ
  pub event_count : ℕ
  pub matched_count : ℕ
  pub distinct_req : ℕ
  pub failure_count : ℕ

-- bucketData
pub record BucketData : Type 0 where
  pub bucket : Bucket
  pub reqs : Table (Unit {0})

-- time.Hour, and 24 of them
abbrev pub hour : ℕ
hour = 3_600_000_000_000

abbrev pub day : ℕ
day = 86_400_000_000_000

-- mockIntervalDuration
unfoldable pub interval_duration : Interval → ℕ
interval_duration each_hour = hour
interval_duration each_day = day
interval_duration each_week = 604_800_000_000_000
interval_duration other_interval = 0
interval_duration unset = 0

-- time.Date of the year, month and day
unfoldable pub midnight : ℕ → ℕ
midnight ts = ts - ts % day

-- Weekday, 0 for Sunday
unfoldable pub weekday : ℕ → ℕ
weekday ts = (ts / day + 1) % 7

-- mockBucketStart
unfoldable pub bucket_start : Interval → ℕ → ℕ
bucket_start each_hour ts = ts - ts % hour
bucket_start each_day ts = midnight ts
bucket_start each_week ts = midnight ts - (weekday (midnight ts) + 6) % 7 * day
bucket_start other_interval ts = ts
bucket_start unset ts = ts

-- Unix, from the zero time on: the key of a bucket
unfoldable pub unix : ℕ → ℕ
unix ts = ts / 1_000_000_000

unfoldable pub data_at : ℕ → List (ℕ × BucketData) → Option BucketData
data_at key [] = none
data_at key ((k, d) ∷ m) = let rest = data_at key m in if k == key then some d else rest

unfoldable pub put_data : ℕ → BucketData → List (ℕ × BucketData) → List (ℕ × BucketData)
put_data key d [] = (key, d) ∷ []
put_data key d ((k, e) ∷ m) =
    let rest = put_data key d m in if k == key then (key, d) ∷ m else (k, e) ∷ rest

-- A bucket without events.
unfoldable pub empty_bucket : ℕ → ℕ → Bucket
empty_bucket start step = record {
  start = start;
  end = start + step;
  event_count = 0;
  matched_count = 0;
  distinct_req = 0;
  failure_count = 0;
}

-- The bucket of a key, a new one where there is none.
unfoldable pub entry_for : ℕ → ℕ → Option BucketData → BucketData
entry_for start step (some d) = d
entry_for start step none = record { bucket = empty_bucket start step; reqs = [] }

-- A bucket that has counted one more record.
unfoldable pub counted_in : EventLogRecord → BucketData → BucketData
counted_in r d = record {
  bucket = record (d.bucket) {
    event_count = suc d.bucket.event_count;
    matched_count = if r.matched then suc d.bucket.matched_count else d.bucket.matched_count;
    failure_count =
        if is_failed r.status then suc d.bucket.failure_count else d.bucket.failure_count;
  };
  reqs = if same r.request_id [] then d.reqs else insert r.request_id tt d.reqs;
}

-- The loop over the records, between the start of the first bucket and the end.
unfoldable pub fill_buckets :
    Interval → ℕ → ℕ → List EventLogRecord → List (ℕ × BucketData) → List (ℕ × BucketData)
fill_buckets interval start end [] m = m
fill_buckets interval start end (r ∷ rs) m =
    let bucket = bucket_start interval r.created_at in
    let entry = entry_for bucket (interval_duration interval) (data_at (unix bucket) m) in
    fill_buckets interval start end rs (
      if ltb r.created_at start || ltb end r.created_at
      then m
      else put_data (unix bucket) (counted_in r entry) m)

-- What the last loop appends for a cursor.
unfoldable pub bucket_at : ℕ → ℕ → Option BucketData → Bucket
bucket_at cursor step (some d) = record (d.bucket) { distinct_req = length d.reqs }
bucket_at cursor step none = empty_bucket cursor step

-- The last loop, on fuel.
unfoldable pub bucket_loop : ℕ → ℕ → ℕ → ℕ → List (ℕ × BucketData) → List Bucket
bucket_loop zero cursor end step m = []
bucket_loop (suc n) cursor end step m =
    let later = bucket_loop n (cursor + step) end step m in
    if leb cursor end then bucket_at cursor step (data_at (unix cursor) m) ∷ later else []

-- A round for each step up to the end, and one more.
unfoldable pub rounds_for : ℕ → ℕ → Interval → ℕ
rounds_for start end each_hour = suc ((end - start) / hour)
rounds_for start end each_day = suc ((end - start) / day)
rounds_for start end each_week = suc ((end - start) / 604_800_000_000_000)
rounds_for start end other_interval = 0
rounds_for start end unset = 0

-- The buckets of the listed records.
unfoldable pub series_of : Interval → ℕ → ℕ → List EventLogRecord → List Bucket
series_of interval start end records =
    bucket_loop (rounds_for start end interval) start end (interval_duration interval)
      (fill_buckets interval start end records [])

is_missing : Interval → Bool
is_missing unset = true
is_missing interval = false

-- GetEventLogTimeseries; `none` is a panic.
unfoldable pub get_event_log_timeseries :
    Context → EventLogFilter → Interval → List EventLogRecord → Option (Outcome (List Bucket))
unfolding is_missing
get_event_log_timeseries ctx f interval values =
    if is_missing interval
    then some (fail (text "interval is required" ∷ []))
    else if f.start_time == 0 || f.end_time == 0
    then some (fail (text "start_time and end_time are required" ∷ []))
    else if ltb f.end_time f.start_time
    then some (fail (text "end_time must be after start_time" ∷ []))
    else elim (list_event_logs ctx (breakdown_filter f) values) [
      | none ↦ none
      | some records ↦
          if interval_duration interval == 0
          then some (fail (text "invalid interval" ∷ []))
          else some
              (ok (series_of interval (bucket_start interval f.start_time) f.end_time records))
    ]
