-- ===== src/Storage/Memory/Timeseries/Ended.antt =====
-- GetEventLogTimeseries of mocks_eventlogs.go, pkg/storage: its last loop ends, and its buckets are
-- where the interval has them.
use Prim.Native.Nat.{◌*◌}
use relaymesh.Prelude.{ℕ, zero, suc, ◌+◌, ◌≤◌, ◌≡◌, refl, List, arith}
use relaymesh.Storage.Memory.Timeseries.{
  Interval, each_hour, each_day, each_week, other_interval, unset, BucketData, interval_duration,
  midnight, weekday, bucket_start, bucket_loop, rounds_for,
}

-- Once the fuel reaches beyond the end, more of it gives nothing more.
bucket_loop_enough :
    (n k cursor end step : ℕ) (m : List (ℕ × BucketData))
    → suc end ≤ cursor + n * step
    → bucket_loop (n + k) cursor end step m ≡ bucket_loop n cursor end step m
unfolding bucket_loop
bucket_loop_enough zero zero cursor end step m h = refl
bucket_loop_enough zero (suc k) cursor end step m h = ground arith
bucket_loop_enough (suc n) k cursor end step m h =
    let e : suc n + k ≡ suc (n + k) = omega arith in
    let beyond : suc end ≤ (cursor + step) + n * step = omega (arith, h) in
    rw (e, bucket_loop_enough n k (cursor + step) end step m beyond) refl

-- The rounds of a series reach beyond its end.
rounds_for_beyond :
    (start end : ℕ) (interval : Interval)
    → suc zero ≤ interval_duration interval
    → suc end ≤ start + rounds_for start end interval * interval_duration interval
unfolding rounds_for interval_duration
rounds_for_beyond start end each_hour h = omega arith
rounds_for_beyond start end each_day h = omega arith
rounds_for_beyond start end each_week h = omega arith
rounds_for_beyond start end other_interval h = omega (arith, h)
rounds_for_beyond start end unset h = omega (arith, h)

-- A series has a bucket for each step up to its end: with more rounds the loop gives the same.
pub bucket_loop_ends :
    (start end k : ℕ) (interval : Interval) (m : List (ℕ × BucketData))
    → suc zero ≤ interval_duration interval
    → bucket_loop (rounds_for start end interval + k) start end (interval_duration interval) m
      ≡ bucket_loop (rounds_for start end interval) start end (interval_duration interval) m
bucket_loop_ends start end k interval m h =
    bucket_loop_enough (rounds_for start end interval) k start end (interval_duration interval) m
      (rounds_for_beyond start end interval h)

-- A time lies in its bucket, which is as long as the interval.
pub bucket_start_bounds :
    (interval : Interval) (ts : ℕ)
    → suc zero ≤ interval_duration interval
    → (bucket_start interval ts ≤ ts)
      × (suc ts ≤ bucket_start interval ts + interval_duration interval)
unfolding bucket_start interval_duration midnight weekday
bucket_start_bounds each_hour ts h = (omega arith, omega arith)
bucket_start_bounds each_day ts h = (omega arith, omega arith)
bucket_start_bounds each_week ts h = (omega arith, omega arith)
bucket_start_bounds other_interval ts h = (omega arith, omega (arith, h))
bucket_start_bounds unset ts h = (omega arith, omega (arith, h))
