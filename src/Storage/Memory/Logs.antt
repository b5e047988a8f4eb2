-- ===== src/Storage/Memory/Logs.antt =====
-- mocks_eventlogs.go of pkg/storage: the log of events in memory, its entries and pages.
pub mod Fits
pub mod Listed
pub mod Paging
use Prim.Native.Nat.{◌/◌}
use relaymesh.Prelude.{
  ℕ, zero, suc, ◌+◌, ◌-◌, Bool, true, false, not, ◌&&◌, ◌||◌, Option, none, some, List, [], ◌∷◌,
  ◌++◌, length, slice, ltb, leb, ◌==◌, if◌then◌else◌,
}
use relaymesh.Prelude.Int.{ℤ, pos, negsuc, is_negative, is_positive, rounds, less, plus64}
use relaymesh.Prelude.Text.{Text, text, same, trim_space}
use relaymesh.Prelude.Table.{Table, lookup, insert}
use relaymesh.Prelude.Outcome.{Errors, Outcome, ok, fail}
use relaymesh.Storage.Records.{EventLogRecord}
use relaymesh.Storage.Tenant.{Context}
use relaymesh.Storage.Memory.{own_tenant, matches, visible, or_now}

-- EventLogFilter, less the cursor
pub record EventLogFilter : Type 0 where
  pub tenant_id : Text
  pub provider : Text
  pub name : Text
  pub request_id : Text
  pub state_id : Text
  pub installation_id : Text
  pub namespace_id : Text
  pub namespace_name : Text
  pub topic : Text
  pub rule_id : Text
  pub rule_when : Text
  pub matched : Option Bool
  pub start_time : ℕ
  pub end_time : ℕ
  pub limit : ℤ
  pub offset : ℤ

-- mockBodyHash
unfoldable pub body_hash : (Text → Text) → Text → Text
body_hash sha256_hex body = if same body [] then [] else sha256_hex body

-- An entry as CreateEventLogs appends it.
unfoldable pub kept_log : (Text → Text) → Context → ℕ → Text → EventLogRecord → EventLogRecord
kept_log sha256_hex ctx now fresh_id r =
    let created = or_now r.created_at now in
    record r {
      tenant_id = own_tenant ctx r.tenant_id;
      id = if same r.id [] then fresh_id else r.id;
      status = if same r.status [] then text "queued" else r.status;
      body_hash = if same r.body_hash [] then body_hash sha256_hex r.body else r.body_hash;
      created_at = created;
      updated_at = or_now r.updated_at created;
      latency_ms = if is_negative r.latency_ms then pos 0 else r.latency_ms;
    }

module _ (W : Type 0) (sha256_hex : Text → Text) (new_uuid : W → Text × W) where
  -- CreateEventLogs, at a time
  unfoldable pub create_event_logs :
      Context → ℕ → List EventLogRecord → List EventLogRecord → W → List EventLogRecord × W
  create_event_logs ctx now [] values world = (values, world)
  create_event_logs ctx now (r ∷ rs) values world =
      let (id, after) = new_uuid world in
      create_event_logs ctx now rs (values ++ (kept_log sha256_hex ctx now id r ∷ []))
        (if same r.id [] then after else world)

-- `filter.Matched != nil && record.Matched != *filter.Matched`, negated
unfoldable pub matches_flag : Option Bool → Bool → Bool
matches_flag none value = true
matches_flag (some true) value = value
matches_flag (some false) value = not value

-- The tests of ListEventLogs on one entry.
unfoldable pub passes : Context → EventLogFilter → EventLogRecord → Bool
passes ctx f r =
    (matches (own_tenant ctx f.tenant_id) r.tenant_id
      && matches f.provider r.provider
      && matches f.name r.name
      && matches f.request_id r.request_id
      && matches f.state_id r.state_id
      && matches f.installation_id r.installation_id
      && matches f.namespace_id r.namespace_id
      && matches f.namespace_name r.namespace_name
      && matches f.topic r.topic
      && matches f.rule_id r.rule_id
      && matches f.rule_when r.rule_when)
    && (matches_flag f.matched r.matched
        && (f.start_time == 0 || leb f.start_time r.created_at)
        && (f.end_time == 0 || leb r.created_at f.end_time))

unfoldable pub passing : Context → EventLogFilter → List EventLogRecord → List EventLogRecord
passing ctx f [] = []
passing ctx f (r ∷ rs) = let rest = passing ctx f rs in if passes ctx f r then r ∷ rest else rest

-- sort.Slice by the time of creation, the latest first. Of entries of one time, sort.Slice may give
-- any order; here the earlier one in the log comes first.
unfoldable pub place : EventLogRecord → List EventLogRecord → List EventLogRecord
place r [] = r ∷ []
place r (s ∷ ss) =
    let later = place r ss in if ltb r.created_at s.created_at then s ∷ later else r ∷ s ∷ ss

unfoldable pub newest_first : List EventLogRecord → List EventLogRecord
newest_first [] = []
newest_first (r ∷ rs) = place r (newest_first rs)

-- `start`: the end of the list for an offset that is negative or beyond it.
unfoldable pub page_start : ℤ → ℕ → ℕ
page_start (negsuc n) len = len
page_start (pos n) len = if ltb len n then len else n

-- `end`: the end of the list but for a limit that is positive and ends before it; the sum is an int.
unfoldable pub page_end : ℕ → ℤ → ℕ → ℤ
page_end start limit len =
    let sum = plus64 start (rounds limit) in
    if is_positive limit && less sum (pos len) then sum else pos len

-- `filtered[start:end]`
unfoldable pub page : {A : Type 0} → ℤ → ℤ → List A → Option (List A)
page offset limit l =
    let start = page_start offset (length l) in slice start (page_end start limit (length l)) l

-- ListEventLogs; `none` is a panic.
unfoldable pub list_event_logs :
    Context → EventLogFilter → List EventLogRecord → Option (List EventLogRecord)
list_event_logs ctx f values = page f.offset f.limit (newest_first (passing ctx f values))

-- Whether GetEventLog, or an update, takes an entry.
unfoldable pub is_entry : Context → Text → EventLogRecord → Bool
is_entry ctx id r = same r.id id && visible ctx r.tenant_id

unfoldable pub find_log : Context → Text → List EventLogRecord → Option EventLogRecord
find_log ctx id [] = none
find_log ctx id (r ∷ rs) = if is_entry ctx id r then some r else find_log ctx id rs

-- GetEventLog
unfoldable pub get_event_log :
    Context → Text → List EventLogRecord → Outcome (Option EventLogRecord)
get_event_log ctx id values =
    let wanted = trim_space id in
    if same wanted [] then fail (text "id is required" ∷ []) else ok (find_log ctx wanted values)

-- `t.Sub(s).Milliseconds()`, which truncates towards zero.
unfoldable pub milliseconds_since : ℕ → ℕ → ℤ
milliseconds_since s t =
    let ahead = (s - t) / 1_000_000 in
    if leb s t then pos ((t - s) / 1_000_000) else if ahead == 0 then pos 0 else negsuc (ahead - 1)

-- `status == "success" || status == "failed"`
unfoldable pub is_final : Text → Bool
is_final status = same status (text "success") || same status (text "failed")

-- An entry as UpdateEventLogStatus writes it.
unfoldable pub with_status : ℕ → Text → Text → EventLogRecord → EventLogRecord
with_status now status error_message r = record r {
  status = status;
  error_message = error_message;
  updated_at = now;
  latency_ms = if is_final status then milliseconds_since r.created_at now else r.latency_ms;
}

-- UpdateEventLogStatus: every entry of this id that the tenant sees.
unfoldable pub update_event_log_state :
    Context → ℕ → Text → Text → Text → List EventLogRecord → List EventLogRecord
update_event_log_state ctx now id status error_message [] = []
update_event_log_state ctx now id status error_message (r ∷ rs) =
    let rest = update_event_log_state ctx now id status error_message rs in
    (if is_entry ctx id r then with_status now status error_message r else r) ∷ rest

with_rest : EventLogRecord → Errors × List EventLogRecord → Errors × List EventLogRecord
with_rest r (e, rs) = (e, r ∷ rs)

-- UpdateEventLogTransformedPayload: the first of them.
unfoldable pub update_transformed_payload :
    Context → ℕ → Text → Text → List EventLogRecord → Errors × List EventLogRecord
unfolding with_rest
update_transformed_payload ctx now id body [] = (text "event log not found" ∷ [], [])
update_transformed_payload ctx now id body (r ∷ rs) =
    let rest = update_transformed_payload ctx now id body rs in
    if is_entry ctx id r
    then ([], record r { transformed_body = body; updated_at = now } ∷ rs)
    else with_rest r rest
