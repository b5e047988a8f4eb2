-- ===== src/Storage/Memory/Logs/Paging.antt =====
-- The listing without a page and the updates of mocks_eventlogs.go, pkg/storage.
use mathlib.Core.Option.{map}
use relaymesh.Prelude.{
  subst, ℕ, ◌-◌, ◌≡◌, ◌↔◌, ◌∙◌, refl, sym, ap, ◌⊎◌, inl, inr, true, false≢true, ◌||◌, and-eq-true,
  some, List, [], ◌∷◌, length, slice, take, ltb, Bool-cases, if◌then◌else◌, arith,
}
use relaymesh.Prelude.Int.{pos}
use relaymesh.Prelude.Text.{Text, text, same, same_iff}
use relaymesh.Storage.Records.{EventLogRecord}
use relaymesh.Storage.Tenant.{Context, tenant_from_context}
use relaymesh.Storage.Memory.{matches, visible}
use relaymesh.Storage.Memory.Keyed.{Has}
use relaymesh.Storage.Memory.Logs.{
  EventLogFilter, passes, passing, place, newest_first, page_start, page_end, page, list_event_logs,
  is_entry, find_log, milliseconds_since, is_final, with_status, update_event_log_state,
}
use relaymesh.Storage.Memory.Logs.Fits.{Fits, passes-Fits}

Has-place_self : (r : EventLogRecord) (l : List EventLogRecord) → Has r (place r l)
unfolding place
Has-place_self r [] = inl refl
Has-place_self r (s ∷ ss) = elim (Bool-cases (ltb r.created_at s.created_at)) [
  | inl y ↦ rw (y, place) (inr (Has-place_self r ss))
  | inr n ↦ rw (n, place) (inl refl)
]

Has-place : (v r : EventLogRecord) (l : List EventLogRecord) → Has v l → Has v (place r l)
unfolding place
Has-place v r [] h = absurd h
Has-place v r (s ∷ ss) h = elim (Bool-cases (ltb r.created_at s.created_at)) [
  | inl y ↦ rw (y, place) (push (Has-place v r ss) h)
  | inr n ↦ rw (n, place) (inr h)
]
  where
    push : (Has v ss → Has v (place r ss)) → (s ≡ v) ⊎ Has v ss → (s ≡ v) ⊎ Has v (place r ss)
    push later (inl e) = inl e
    push later (inr x) = inr (later x)

Has-newest_first : (v : EventLogRecord) (l : List EventLogRecord) → Has v l → Has v (newest_first l)
unfolding newest_first
Has-newest_first v [] h = absurd h
Has-newest_first v (r ∷ rs) (inl e) =
    subst (λ x. Has v (place x (newest_first rs))) (sym e) (Has-place_self v (newest_first rs))
Has-newest_first v (r ∷ rs) (inr h) = Has-place v r (newest_first rs) (Has-newest_first v rs h)

Has-passing :
    (ctx : Context) (f : EventLogFilter) (v : EventLogRecord) (l : List EventLogRecord)
    → Has v l
    → passes ctx f v ≡ true
    → Has v (passing ctx f l)
unfolding passing
Has-passing ctx f v [] h p = absurd h
Has-passing ctx f v (r ∷ rs) (inl e) p =
    let own : passes ctx f r ≡ true = rw e p in rw (own, passing) (inl e)
Has-passing ctx f v (r ∷ rs) (inr h) p = elim (Bool-cases (passes ctx f r)) [
  | inl y ↦ rw (y, passing) (inr (Has-passing ctx f v rs h p))
  | inr n ↦ rw (n, passing) (Has-passing ctx f v rs h p)
]

take_all : (l : List EventLogRecord) → take (length l) l ≡ l
take_all [] = refl
take_all (r ∷ rs) = ap (λ x. r ∷ x) (take_all rs)

page_all : (l : List EventLogRecord) → page (pos 0) (pos 0) l ≡ some l
unfolding page page_start page_end
page_all l =
    let whole : length l - 0 ≡ length l = omega arith in
    elim (Bool-cases (ltb (length l) 0)) [
      | inl y ↦ absurd (ground (arith, y))
      | inr n ↦ rw (n, slice) (rw n (rw whole (ap some (take_all l))))
    ]

-- A listing without a page is every entry that passes.
pub list_event_logs_whole :
    (ctx : Context) (f : EventLogFilter) (values : List EventLogRecord)
    → f.offset ≡ pos 0
    → f.limit ≡ pos 0
    → list_event_logs ctx f values ≡ some (newest_first (passing ctx f values))
unfolding list_event_logs
list_event_logs_whole ctx f values o k =
    let sorted = newest_first (passing ctx f values) in
    ap (λ x. page x f.limit sorted) o ∙ ap (λ x. page (pos 0) x sorted) k ∙ page_all sorted

-- A listing without a page is there, and has every entry of the log that is what the filter asks for.
pub list_event_logs_complete :
    (ctx : Context) (f : EventLogFilter) (values : List EventLogRecord) (v : EventLogRecord)
    → f.offset ≡ pos 0
    → f.limit ≡ pos 0
    → Has v values
    → Fits ctx f v
    → (l : List EventLogRecord) × (list_event_logs ctx f values ≡ some l) × Has v l
list_event_logs_complete ctx f values v o k h g = (
  newest_first (passing ctx f values),
  list_event_logs_whole ctx f values o k,
  Has-newest_first v _ (Has-passing ctx f v values h ((passes-Fits ctx f v).1 g)),
)

-- Whether the tenant of a context sees what a tenant has: its own, or everything if it is none.
abbrev pub Sees : Context → Text → Type 0
Sees ctx tenant_id = (tenant_from_context ctx ≡ []) ⊎ (tenant_id ≡ tenant_from_context ctx)

visible-Sees : (ctx : Context) (t : Text) → (visible ctx t ≡ true) ↔ Sees ctx t
unfolding visible matches
visible-Sees ctx t = (
  λ h. elim (Bool-cases (same (tenant_from_context ctx) [])) [
    | inl y ↦ inl ((same_iff (tenant_from_context ctx) []).0 y)
    | inr n ↦ inr ((same_iff t (tenant_from_context ctx)).0 (ground (arith, n, h)))
  ],
  λ s. elim s [
    | inl e ↦ ground (arith, same_iff (tenant_from_context ctx) [], e)
    | inr e ↦ ground (arith, same_iff t (tenant_from_context ctx), e)
  ],
)

is_entry_iff :
    (ctx : Context) (id : Text) (r : EventLogRecord)
    → (is_entry ctx id r ≡ true) ↔ ((r.id ≡ id) × Sees ctx r.tenant_id)
unfolding is_entry
is_entry_iff ctx id r = (
  λ h. (
    (same_iff r.id id).0 (and-eq-true _ _ h).0,
    (visible-Sees ctx r.tenant_id).0 (and-eq-true _ _ h).1,
  ),
  λ h. rw ((same_iff r.id id).1 h.0, (visible-Sees ctx r.tenant_id).1 h.1) refl,
)

-- What an update of a status makes of an entry.
abbrev restated : Context → ℕ → Text → Text → Text → EventLogRecord → EventLogRecord
restated ctx now id status reason r =
    if is_entry ctx id r then with_status now status reason r else r

is_entry-restated :
    (ctx by : Context) (now : ℕ) (id j status reason : Text) (r : EventLogRecord)
    → is_entry by j (restated ctx now id status reason r) ≡ is_entry by j r
unfolding with_status is_entry
is_entry-restated ctx by now id j status reason r = elim (Bool-cases (is_entry ctx id r)) [
  | inl y ↦ rw y refl
  | inr n ↦ rw n refl
]

find_restated :
    (ctx by : Context) (now : ℕ) (id j status reason : Text) (values : List EventLogRecord)
    → find_log by j (update_event_log_state ctx now id status reason values)
      ≡ map (restated ctx now id status reason) (find_log by j values)
unfolding find_log update_event_log_state
find_restated ctx by now id j status reason [] = refl
find_restated ctx by now id j status reason (r ∷ rs) = elim (Bool-cases (is_entry by j r)) [
  | inl y ↦ rw (is_entry-restated ctx by now id j status reason r, y, find_log) refl
  | inr n ↦
      rw (is_entry-restated ctx by now id j status reason r, n, find_log)
        (find_restated ctx by now id j status reason rs)
]

-- After an update of a status, a lookup that found an entry finds it still. If the entry has the id of
-- the update and the tenant of the update sees it, it has the new status, the reason and the time of
-- the update, and, if the status is success or failed, the milliseconds since its creation as its
-- latency. Else it is as it was.
pub find_log-update_event_log_state :
    (ctx by : Context) (now : ℕ) (id j status reason : Text) (values : List EventLogRecord)
    (r : EventLogRecord)
    → find_log by j values ≡ some r
    → ((r.id ≡ id)
        × Sees ctx r.tenant_id
        × (find_log by j (update_event_log_state ctx now id status reason values)
            ≡ some (record r {
              status = status;
              error_message = reason;
              updated_at = now;
              latency_ms =
                  if same status (text "success") || same status (text "failed")
                  then milliseconds_since r.created_at now
                  else r.latency_ms;
            })))
      ⊎ ((¬ ((r.id ≡ id) × Sees ctx r.tenant_id))
          × (find_log by j (update_event_log_state ctx now id status reason values) ≡ some r))
unfolding with_status is_final
find_log-update_event_log_state ctx by now id j status reason values r h =
    let found = find_restated ctx by now id j status reason values in
    elim (Bool-cases (is_entry ctx id r)) [
      | inl y ↦
          let own = (is_entry_iff ctx id r).0 y in inl (own.0, own.1, found ∙ rw h (rw y refl))
      | inr n ↦
          inr (λ own. false≢true (sym n ∙ (is_entry_iff ctx id r).1 own), found ∙ rw h (rw n refl))
    ]
