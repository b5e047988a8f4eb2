-- ===== src/Storage/Memory/Breakdown/Rows.antt =====
-- GetEventLogBreakdown of mocks_eventlogs.go, pkg/storage: what its rows count.
use relaymesh.Prelude.{
  ℕ, suc, ◌+◌, ◌≤◌, ◌≡◌, refl, sym, subst, false≢true, ◌∙◌, Bool, true, false, List, [], ◌∷◌, All,
  if◌then◌else◌, Bool-cases, inl, inr, arith,
}
use relaymesh.Prelude.Int.{ℤ}
use relaymesh.Prelude.Text.{Text, same, same_iff, is_blank}
use relaymesh.Prelude.Table.{Table, lookup, insert}
use relaymesh.Storage.Records.{EventLogRecord}
use relaymesh.Storage.Memory.Analytics.Counted.{occurrences}
use relaymesh.Storage.Memory.Breakdown.{
  BreakdownGroup, BreakdownSort, BreakdownRow, Numbers, breakdown_key, row_at, counted,
  group_record, group_all, latencies_of, with_latency, row_before, put_row, sorted_rows,
}

module _ {F : Type 0} where
  -- What rows say about a key.
  abbrev pub events_in : Text → List (BreakdownRow F) → ℕ
  events_in k [] = 0
  events_in k (row ∷ rows) =
      let rest = events_in k rows in if same row.key k then row.event_count + rest else rest

  -- A row counts no more matched or failed entries than entries.
  abbrev pub IsSound : BreakdownRow F → Type 0
  IsSound row = (row.matched_count ≤ row.event_count) × (row.failure_count ≤ row.event_count)

  -- Each row stands under its own key and is sound.
  abbrev IsTidy : Table (BreakdownRow F) → Type 0
  IsTidy [] = Unit
  IsTidy ((j, row) ∷ m) = (row.key ≡ j) × IsSound row × IsTidy m

  -- What the map says about a key.
  abbrev grouped_events : Text → Table (BreakdownRow F) → ℕ
  grouped_events k [] = 0
  grouped_events k ((j, row) ∷ m) =
      let rest = grouped_events k m in if same j k then row.event_count + rest else rest

module _ {F : Type 0} (numbers : Numbers F) where
  grouped_events-insert :
      (k j : Text) (r : EventLogRecord) (m : Table (BreakdownRow F))
      → grouped_events k (insert j (counted numbers r (row_at numbers j m)) m)
        ≡ (if same j k then suc (grouped_events k m) else grouped_events k m)
  unfolding row_at insert lookup counted
  grouped_events-insert k j r [] = ground arith
  grouped_events-insert k j r ((i, row) ∷ m) =
      ground (arith, same_iff i j, same_iff i k, same_iff j k, grouped_events-insert k j r m)

  counted-IsSound :
      (r : EventLogRecord) (row : BreakdownRow F) → IsSound row → IsSound (counted numbers r row)
  unfolding counted
  counted-IsSound r row h = (ground (arith, h.0), ground (arith, h.1))

  row_at-IsTidy :
      (j : Text) (m : Table (BreakdownRow F))
      → IsTidy m
      → ((row_at numbers j m).key ≡ j) × IsSound (row_at numbers j m)
  unfolding row_at lookup
  row_at-IsTidy j [] h = (refl, (omega arith, omega arith))
  row_at-IsTidy j ((i, row) ∷ m) h = elim (Bool-cases (same i j)) [
    | inl y ↦ rw (y, row_at, lookup) (h.0 ∙ (same_iff i j).0 y, h.1)
    | inr n ↦ rw (n, row_at, lookup) (row_at-IsTidy j m h.2)
  ]

  insert-IsTidy :
      (j : Text) (row : BreakdownRow F) (m : Table (BreakdownRow F))
      → row.key ≡ j
      → IsSound row
      → IsTidy m
      → IsTidy (insert j row m)
  unfolding insert
  insert-IsTidy j row [] e s h = (e, s, tt)
  insert-IsTidy j row ((i, other) ∷ m) e s h = elim (Bool-cases (same i j)) [
    | inl y ↦ rw (y, insert) (e, s, h.2)
    | inr n ↦ rw (n, insert) (h.0, h.1, insert-IsTidy j row m e s h.2)
  ]

  group_record-IsTidy :
      (group : BreakdownGroup) (r : EventLogRecord) (m : Table (BreakdownRow F))
      → IsTidy m
      → IsTidy (group_record numbers group r m)
  unfolding group_record counted
  group_record-IsTidy group r m h = elim (Bool-cases (is_blank (breakdown_key group r))) [
    | inl y ↦ rw (y, group_record) h
    | inr n ↦
        let (own, sound) = row_at-IsTidy (breakdown_key group r) m h in
        rw (n, group_record)
          (insert-IsTidy (breakdown_key group r)
            (counted numbers r (row_at numbers (breakdown_key group r) m)) m own
            (counted-IsSound r (row_at numbers (breakdown_key group r) m) sound) h)
  ]

  group_all-IsTidy :
      (group : BreakdownGroup) (records : List EventLogRecord) (m : Table (BreakdownRow F))
      → IsTidy m
      → IsTidy (group_all numbers group records m)
  unfolding group_all
  group_all-IsTidy group [] m h = h
  group_all-IsTidy group (r ∷ rs) m h =
      group_all-IsTidy group rs (group_record numbers group r m) (group_record-IsTidy group r m h)

  grouped_events-group_record :
      (k : Text) (group : BreakdownGroup) (r : EventLogRecord) (m : Table (BreakdownRow F))
      → is_blank k ≡ false
      → grouped_events k (group_record numbers group r m)
        ≡ (if same (breakdown_key group r) k then suc (grouped_events k m) else grouped_events k m)
  unfolding group_record
  grouped_events-group_record k group r m full =
      elim (Bool-cases (is_blank (breakdown_key group r))) [
        | inl y ↦ elim (Bool-cases (same (breakdown_key group r) k)) [
          | inl e ↦
              let blank : is_blank k ≡ true =
                subst (λ (t : Text). is_blank t ≡ true) ((same_iff (breakdown_key group r) k).0 e)
                  y in
              absurd (false≢true (sym full ∙ blank))
          | inr n ↦ rw (y, n, group_record) refl
        ]
        | inr n ↦ rw (n, group_record) (grouped_events-insert k (breakdown_key group r) r m)
      ]

  grouped_events-group_all :
      (k : Text) (group : BreakdownGroup) (records : List EventLogRecord)
      (m : Table (BreakdownRow F))
      → is_blank k ≡ false
      → grouped_events k (group_all numbers group records m)
        ≡ grouped_events k m + occurrences (breakdown_key group) k records
  unfolding group_all
  grouped_events-group_all k group [] m full = omega arith
  grouped_events-group_all k group (r ∷ rs) m full =
      let step = grouped_events-group_record k group r m full in
      let rest = grouped_events-group_all k group rs (group_record numbers group r m) full in
      ground (arith, step, rest)

  module _ (sort_by : BreakdownSort) (desc : Bool) where
    events_in-put_row :
        (k : Text) (row : BreakdownRow F) (rows : List (BreakdownRow F))
        → events_in k (put_row numbers sort_by desc row rows)
          ≡ (if same row.key k then row.event_count + events_in k rows else events_in k rows)
    unfolding put_row
    events_in-put_row k row [] = refl
    events_in-put_row k row (s ∷ ss) = ground (arith, events_in-put_row k row ss)

    All-put_row {κ} :
        (P : BreakdownRow F → Type κ) (row : BreakdownRow F) (rows : List (BreakdownRow F))
        → P row
        → All P rows
        → All P (put_row numbers sort_by desc row rows)
    unfolding put_row
    All-put_row P row [] p h = (p, tt)
    All-put_row P row (s ∷ ss) p h = elim (Bool-cases (row_before numbers sort_by desc row s)) [
      | inl y ↦ rw (y, put_row) (p, h)
      | inr n ↦ rw (n, put_row) (h.0, All-put_row P row ss p h.1)
    ]

    with_latency_counts :
        (values : List ℤ) (row : BreakdownRow F)
        → (Path Text (with_latency numbers values row).key row.key)
          × (Path ℕ (with_latency numbers values row).event_count row.event_count)
          × (IsSound row → IsSound (with_latency numbers values row))
    unfolding with_latency
    with_latency_counts [] row = (refl, refl, λ h. h)
    with_latency_counts (x ∷ xs) row = (refl, refl, λ h. h)

    module _ (group : BreakdownGroup) (latency : Bool) (records : List EventLogRecord) where
      -- The row that is sorted in.
      abbrev shown : BreakdownRow F → BreakdownRow F
      shown row =
          if latency
          then with_latency numbers (latencies_of numbers group row.key records) row
          else row

      shown_counts :
          (row : BreakdownRow F)
          → (Path Text (shown row).key row.key)
            × (Path ℕ (shown row).event_count row.event_count)
            × (IsSound row → IsSound (shown row))
      shown_counts row = elim (Bool-cases latency) [
        | inl y ↦ rw y (with_latency_counts _ row)
        | inr n ↦ rw n (refl, refl, λ h. h)
      ]

      events_in-sorted_rows :
          (k : Text) (m : Table (BreakdownRow F))
          → IsTidy m
          → (events_in k (sorted_rows numbers group sort_by desc latency records m)
              ≡ grouped_events k m)
            × All IsSound (sorted_rows numbers group sort_by desc latency records m)
      unfolding sorted_rows
      events_in-sorted_rows k [] h = (refl, tt)
      events_in-sorted_rows k ((j, row) ∷ m) h =
          let (own, same_count, sound) = shown_counts row in
          let (counts, all) = events_in-sorted_rows k m h.2 in
          let sorted = sorted_rows numbers group sort_by desc latency records m in
          let placed = events_in-put_row k (shown row) sorted in
          let own_key : (shown row).key ≡ j = own ∙ h.0 in
          (
            placed ∙ (rw (own_key, same_count, counts) refl),
            All-put_row IsSound (shown row) sorted (sound h.1) all,
          )

  -- The rows of all pages of a breakdown: for every key that is not blank, they count the entries that
  -- have it, whatever the order and the latencies asked for, and no row counts more matched or failed
  -- entries than entries.
  pub sorted_rows-IsSound :
      (group : BreakdownGroup) (sort_by : BreakdownSort) (desc latency : Bool)
      (records : List EventLogRecord) (k : Text)
      → is_blank k ≡ false
      → let rows =
          sorted_rows numbers group sort_by desc latency records
            (group_all numbers group records []) in
        (events_in k rows ≡ occurrences (breakdown_key group) k records) × All IsSound rows
  sorted_rows-IsSound group sort_by desc latency records k full =
      let (counts, all) =
        events_in-sorted_rows sort_by desc group latency records k
          (group_all numbers group records []) (group_all-IsTidy group records [] tt) in
      let grouped = grouped_events-group_all k group records [] full in
      (counts ∙ (omega (arith, grouped)), all)
