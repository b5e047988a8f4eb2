-- ===== src/Storage/Memory/Analytics/Counted.antt =====
-- GetEventLogAnalytics of mocks_eventlogs.go, pkg/storage: what its counts count.
use relaymesh.Prelude.{
  some, ℕ, suc, ◌+◌, ◌≤◌, ◌≡◌, refl, ◌∙◌, ap, true, false, List, [], ◌∷◌, length, All,
  if◌then◌else◌, Bool-cases, inl, inr, arith,
}
use relaymesh.Prelude.Text.{Text, same, same_iff}
use relaymesh.Prelude.Table.{Table, lookup, insert}
use relaymesh.Storage.Records.{EventLogRecord}
use relaymesh.Storage.Tenant.{Context}
use relaymesh.Storage.Memory.Logs.{EventLogFilter, passing, newest_first, list_event_logs}
use relaymesh.Storage.Memory.Logs.Paging.{list_event_logs_whole}
use relaymesh.Storage.Memory.Analytics.{
  EventLogAnalytics, EventLogCount, Tallies, count_at, bump, either_text, tally, tally_all, before,
  put_count, map_counts, analytics_filter, no_tallies, analytics_of, get_event_log_analytics,
}

-- How many entries have a key.
abbrev pub occurrences : (EventLogRecord → Text) → Text → List EventLogRecord → ℕ
occurrences key k [] = 0
occurrences key k (r ∷ rs) =
    let rest = occurrences key k rs in if same (key r) k then suc rest else rest

-- What counts say about a key.
abbrev pub count_in : Text → List EventLogCount → ℕ
count_in k [] = 0
count_in k (c ∷ cs) = let rest = count_in k cs in if same c.key k then c.count + rest else rest

-- The greatest counts come first.
abbrev pub IsRanked : List EventLogCount → Type 0
IsRanked [] = Unit
IsRanked (c ∷ cs) = All (λ d. d.count ≤ c.count) cs × IsRanked cs

-- What a map says about a key.
abbrev held : Text → Table ℕ → ℕ
held k [] = 0
held k ((j, n) ∷ m) = let rest = held k m in if same j k then n + rest else rest

held-insert :
    (k j : Text) (m : Table ℕ)
    → held k (insert j (suc (count_at j m)) m) ≡ (if same j k then suc (held k m) else held k m)
unfolding count_at insert lookup
held-insert k j [] = ground arith
held-insert k j ((i, n) ∷ m) =
    ground (arith, same_iff i j, same_iff i k, same_iff j k, held-insert k j m)

held-bump :
    (k j : Text) (m : Table ℕ)
    → same k [] ≡ false
    → held k (bump j m) ≡ (if same j k then suc (held k m) else held k m)
unfolding bump
held-bump k j m full = ground (arith, held-insert k j m, same_iff j k, same_iff j [])

count_in-put_count :
    (k : Text) (c : EventLogCount) (l : List EventLogCount)
    → count_in k (put_count c l) ≡ (if same c.key k then c.count + count_in k l else count_in k l)
unfolding put_count
count_in-put_count k c [] = refl
count_in-put_count k c (d ∷ ds) = ground (arith, count_in-put_count k c ds)

count_in-map_counts : (k : Text) (m : Table ℕ) → count_in k (map_counts m) ≡ held k m
unfolding map_counts
count_in-map_counts k [] = refl
count_in-map_counts k ((j, n) ∷ m) = ground (
  arith,
  count_in-put_count k (record { key = j; count = n }) (map_counts m),
  count_in-map_counts k m,
)

module _ {κ} (P : EventLogCount → Type κ) where
  All-put_count :
      (c : EventLogCount) (l : List EventLogCount) → P c → All P l → All P (put_count c l)
  unfolding put_count
  All-put_count c [] p h = (p, tt)
  All-put_count c (d ∷ ds) p h = elim (Bool-cases (before c d)) [
    | inl y ↦ rw (y, put_count) (p, h)
    | inr n ↦ rw (n, put_count) (h.0, All-put_count c ds p h.1)
  ]

All-below :
    (a b : ℕ) (l : List EventLogCount) → a ≤ b → All (λ d. d.count ≤ a) l → All (λ d. d.count ≤ b) l
All-below a b [] le h = tt
All-below a b (c ∷ cs) le h = (omega (arith, h.0, le), All-below a b cs le h.1)

before_count : (c d : EventLogCount) → before c d ≡ true → d.count ≤ c.count
unfolding before
before_count c d h = ground (arith, h)

not_before_count : (c d : EventLogCount) → before c d ≡ false → c.count ≤ d.count
unfolding before
not_before_count c d h = ground (arith, h)

put_count-IsRanked :
    (c : EventLogCount) (l : List EventLogCount) → IsRanked l → IsRanked (put_count c l)
unfolding put_count
put_count-IsRanked c [] h = (tt, tt)
put_count-IsRanked c (d ∷ ds) h = elim (Bool-cases (before c d)) [
  | inl y ↦ rw (y, put_count) ((before_count c d y, All-below _ _ ds (before_count c d y) h.0), h)
  | inr n ↦
      rw (n, put_count)
        (All-put_count _ c ds (not_before_count c d n) h.0, put_count-IsRanked c ds h.1)
]

map_counts-IsRanked : (m : Table ℕ) → IsRanked (map_counts m)
unfolding map_counts
map_counts-IsRanked [] = tt
map_counts-IsRanked ((j, n) ∷ m) = put_count-IsRanked _ (map_counts m) (map_counts-IsRanked m)

-- The counts give the number of entries that have a key, and are ranked.
abbrev pub Counts :
    (EventLogRecord → Text) → Text → List EventLogRecord → List EventLogCount → Type 0
Counts key k records counts = (count_in k counts ≡ occurrences key k records) × IsRanked counts

-- One of the maps of the loop, and the key that it counts.
module _ (m : Tallies → Table ℕ) (key : EventLogRecord → Text)
    (turn : (r : EventLogRecord) (t : Tallies) → m (tally r t) ≡ bump (key r) (m t)) (k : Text)
    (full : same k [] ≡ false) where
  held-tally_all :
      (records : List EventLogRecord) (t : Tallies)
      → held k (m (tally_all records t)) ≡ held k (m t) + occurrences key k records
  unfolding tally_all
  held-tally_all [] t = omega arith
  held-tally_all (r ∷ rs) t =
      let step : held k (m (tally r t))
          ≡ (if same (key r) k then suc (held k (m t)) else held k (m t)) =
        ap (held k) (turn r t) ∙ held-bump k (key r) (m t) full in
      let rest = held-tally_all rs (tally r t) in ground (arith, step, rest)

  pub map_counts-Counts :
      (records : List EventLogRecord)
      → m no_tallies ≡ []
      → Counts key k records (map_counts (m (tally_all records no_tallies)))
  map_counts-Counts records start =
      let none_held : held k (m no_tallies) ≡ 0 = rw start refl in
      let all_held : held k (m (tally_all records no_tallies)) ≡ occurrences key k records =
        omega (arith, none_held, held-tally_all records no_tallies) in
      (count_in-map_counts k _ ∙ all_held, map_counts-IsRanked _)

length-insert : (k : Text) (m : Table (Unit {0})) → length (insert k tt m) ≤ suc (length m)
unfolding insert
length-insert k [] = omega arith
length-insert k ((j, u) ∷ m) = ground (arith, length-insert k m)

reqs_bound :
    (records : List EventLogRecord) (t : Tallies)
    → length (tally_all records t).reqs ≤ length t.reqs + length records
unfolding tally_all tally
reqs_bound [] t = omega arith
reqs_bound (r ∷ rs) t = ground (arith, reqs_bound rs (tally r t), length-insert r.request_id t.reqs)

matched_bound :
    (records : List EventLogRecord) (t : Tallies)
    → (tally_all records t).matched ≤ t.matched + length records
unfolding tally_all tally
matched_bound [] t = omega arith
matched_bound (r ∷ rs) t = ground (arith, matched_bound rs (tally r t))

-- What the analytics of the listed entries count of a key.
abbrev pub Counted : Text → List EventLogRecord → EventLogAnalytics → Type 0
Counted k records a =
    Counts (λ r. r.provider) k records a.by_provider
    × Counts (λ r. r.name) k records a.by_event
    × Counts (λ r. r.topic) k records a.by_topic
    × Counts (λ r. either_text r.rule_id r.rule_when) k records a.by_rule
    × Counts (λ r. r.installation_id) k records a.by_install
    × Counts (λ r. either_text r.namespace_name r.namespace_id) k records a.by_namespace
    × (a.total ≡ length records)
    × (a.matched ≤ a.total)
    × (a.distinct_req ≤ a.total)

analytics_of-Counted :
    (records : List EventLogRecord) (k : Text)
    → same k [] ≡ false
    → Counted k records (analytics_of records)
unfolding analytics_of tally
analytics_of-Counted records k full = (
  map_counts-Counts (λ t. t.by_provider) _ (λ r t. refl) k full records refl,
  map_counts-Counts (λ t. t.by_event) _ (λ r t. refl) k full records refl,
  map_counts-Counts (λ t. t.by_topic) _ (λ r t. refl) k full records refl,
  map_counts-Counts (λ t. t.by_rule) _ (λ r t. refl) k full records refl,
  map_counts-Counts (λ t. t.by_install) _ (λ r t. refl) k full records refl,
  map_counts-Counts (λ t. t.by_namespace) _ (λ r t. refl) k full records refl,
  refl,
  omega (arith, matched_bound records no_tallies),
  omega (arith, reqs_bound records no_tallies),
)

-- The listing that the analytics count is there, and so are the analytics. For every key but the empty
-- one, each of their six counts gives how many of the listed entries have the key, and the greatest
-- counts come first; an entry's rule is its id or else its expression, and its namespace is the name
-- or else the id. The total is the number of listed entries, and neither the matched ones nor the
-- distinct requests are more than that.
pub get_event_log_analytics-Counts :
    (ctx : Context) (f : EventLogFilter) (values : List EventLogRecord) (k : Text)
    → same k [] ≡ false
    → (records : List EventLogRecord) × (a : EventLogAnalytics) × (list_event_logs ctx
          (analytics_filter f)
          values
        ≡ some records)
      × (get_event_log_analytics ctx f values ≡ some a)
      × Counted k records a
unfolding get_event_log_analytics analytics_filter
get_event_log_analytics-Counts ctx f values k full =
    let records = newest_first (passing ctx (analytics_filter f) values) in
    let there : list_event_logs ctx (analytics_filter f) values ≡ some records =
      list_event_logs_whole ctx (analytics_filter f) values refl refl in
    (
      records,
      analytics_of records,
      there,
      rw (there, get_event_log_analytics) refl,
      analytics_of-Counted records k full,
    )
