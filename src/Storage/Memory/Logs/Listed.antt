-- ===== src/Storage/Memory/Logs/Listed.antt =====
-- ListEventLogs and GetEventLog of mocks_eventlogs.go, pkg/storage: what they give.
use relaymesh.Prelude.{
  ℕ, zero, suc, ◌-◌, ◌≤◌, refl, inl, inr, List, [], ◌∷◌, length, take, drop, slice, IfSome, ltb,
  All, Bool-cases, arith,
}
use relaymesh.Prelude.Int.{ℤ, pos, negsuc}
use relaymesh.Storage.Records.{EventLogRecord}
use relaymesh.Storage.Tenant.{Context}
use relaymesh.Storage.Memory.Keyed.{Has}
use relaymesh.Storage.Memory.Logs.{
  EventLogFilter, passes, passing, place, newest_first, page_start, page, list_event_logs,
}
use relaymesh.Storage.Memory.Logs.Fits.{Fits, passes-Fits}

-- Each entry was created no earlier than those behind it.
abbrev pub IsDescending : List EventLogRecord → Type 0
IsDescending [] = Unit
IsDescending (r ∷ rs) = All (λ s. s.created_at ≤ r.created_at) rs × IsDescending rs

module _ {κ} (P : EventLogRecord → Type κ) where
  All-place : (r : EventLogRecord) (l : List EventLogRecord) → P r → All P l → All P (place r l)
  unfolding place
  All-place r [] p h = (p, tt)
  All-place r (s ∷ ss) p h = elim (Bool-cases (ltb r.created_at s.created_at)) [
    | inl y ↦ rw (y, place) (h.0, All-place r ss p h.1)
    | inr n ↦ rw (n, place) (p, h)
  ]

  All-newest_first : (l : List EventLogRecord) → All P l → All P (newest_first l)
  unfolding newest_first
  All-newest_first [] h = tt
  All-newest_first (r ∷ rs) h = All-place r (newest_first rs) h.0 (All-newest_first rs h.1)

  All-take : (n : ℕ) (l : List EventLogRecord) → All P l → All P (take n l)
  All-take zero l h = tt
  All-take (suc n) [] h = tt
  All-take (suc n) (r ∷ rs) h = (h.0, All-take n rs h.1)

  All-drop : (n : ℕ) (l : List EventLogRecord) → All P l → All P (drop n l)
  All-drop zero l h = h
  All-drop (suc n) [] h = tt
  All-drop (suc n) (r ∷ rs) h = All-drop n rs h.1

All-map {κ} :
    (P Q : EventLogRecord → Type κ) (l : List EventLogRecord)
    → ((r : EventLogRecord) → P r → Q r)
    → All P l
    → All Q l
All-map P Q [] f h = tt
All-map P Q (r ∷ rs) f h = (f r h.0, All-map P Q rs f h.1)

place-IsDescending :
    (r : EventLogRecord) (l : List EventLogRecord) → IsDescending l → IsDescending (place r l)
unfolding place
place-IsDescending r [] h = (tt, tt)
place-IsDescending r (s ∷ ss) h = elim (Bool-cases (ltb r.created_at s.created_at)) [
  | inl y ↦ rw (y, place) (All-place _ r ss (ground (arith, y)) h.0, place-IsDescending r ss h.1)
  | inr n ↦
      rw (n, place)
        ((ground (arith, n), All-map _ _ ss (λ t older. ground (arith, n, older)) h.0), h)
]

newest_first-IsDescending : (l : List EventLogRecord) → IsDescending (newest_first l)
unfolding newest_first
newest_first-IsDescending [] = tt
newest_first-IsDescending (r ∷ rs) =
    place-IsDescending r (newest_first rs) (newest_first-IsDescending rs)

take-IsDescending : (n : ℕ) (l : List EventLogRecord) → IsDescending l → IsDescending (take n l)
take-IsDescending zero l h = tt
take-IsDescending (suc n) [] h = tt
take-IsDescending (suc n) (r ∷ rs) h = (All-take _ n rs h.0, take-IsDescending n rs h.1)

drop-IsDescending : (n : ℕ) (l : List EventLogRecord) → IsDescending l → IsDescending (drop n l)
drop-IsDescending zero l h = h
drop-IsDescending (suc n) [] h = tt
drop-IsDescending (suc n) (r ∷ rs) h = drop-IsDescending n rs h.1

-- What holds of every list that is cut out of one holds of a slice of it.
slice-IfSome {κ} :
    (P : List EventLogRecord → Type κ) (start : ℕ) (end : ℤ) (l : List EventLogRecord)
    → ((k : ℕ) → P (take k (drop start l)))
    → IfSome P (slice start end l)
slice-IfSome P start (negsuc n) l h = tt
slice-IfSome P start (pos end) l h = elim (Bool-cases (ltb end start)) [
  | inl y ↦ rw y tt
  | inr n ↦ rw n (h (end - start))
]

passing-All :
    (ctx : Context) (f : EventLogFilter) (values : List EventLogRecord)
    → All (λ r. Has r values × Fits ctx f r) (passing ctx f values)
unfolding passing
passing-All ctx f [] = tt
passing-All ctx f (v ∷ vs) =
    let rest : All (λ r. Has r (v ∷ vs) × Fits ctx f r) (passing ctx f vs) =
      All-map _ _ (passing ctx f vs) (λ r h. (inr h.0, h.1)) (passing-All ctx f vs) in
    elim (Bool-cases (passes ctx f v)) [
      | inl y ↦ rw (y, passing) ((inl refl, (passes-Fits ctx f v).0 y), rest)
      | inr n ↦ rw (n, passing) rest
    ]

-- A listing of the log of events, whatever its page, has only entries of the log that are what the
-- filter asks for: of the tenant of the filter or else of the context, with its texts and its flag,
-- and within its times. Those that were created later come first.
pub list_event_logs-IsDescending :
    (ctx : Context) (f : EventLogFilter) (values : List EventLogRecord)
    → IfSome
        (λ l. All (λ r. Has r values × Fits ctx f r) l × IsDescending l)
        (list_event_logs ctx f values)
unfolding list_event_logs page
list_event_logs-IsDescending ctx f values =
    let sorted = newest_first (passing ctx f values) in
    let n = page_start f.offset (length sorted) in
    slice-IfSome _ n _ sorted (λ k. (
      All-take _ k _ (All-drop _ n sorted (All-newest_first _ _ (passing-All ctx f values))),
      take-IsDescending k _ (drop-IsDescending n sorted (newest_first-IsDescending _)),
    ))
