-- ===== src/Storage/Memory/Logs/Fits.antt =====
-- ListEventLogs of mocks_eventlogs.go, pkg/storage: what its tests ask of an entry.
use relaymesh.Prelude.{
  ℕ, ◌≤◌, ◌≡◌, ◌≢◌, ◌↔◌, ◌⊎◌, ◌∙◌, refl, sym, inl, inr, Bool, true, false, false≢true, ◌||◌, Option,
  none, some, [], leb, ◌==◌, Bool-cases, arith,
}
use relaymesh.Prelude.Text.{Text, same, same_iff}
use relaymesh.Storage.Records.{EventLogRecord}
use relaymesh.Storage.Tenant.{Context, tenant_from_context}
use relaymesh.Storage.Memory.{matches, own_tenant}
use relaymesh.Storage.Memory.Logs.{EventLogFilter, matches_flag, passes}

-- A text of the filter is empty, or it is the entry's.
abbrev Wanted : Text → Text → Type 0
Wanted wanted value = (wanted ≡ []) ⊎ (value ≡ wanted)

-- The tenant of the filter, or else the one of the context, or else every tenant.
abbrev pub IsOwn : Context → Text → Text → Type 0
IsOwn ctx wanted tenant_id =
    ((wanted ≡ []) × Wanted (tenant_from_context ctx) tenant_id)
    ⊎ ((wanted ≢ []) × (tenant_id ≡ wanted))

-- An entry is what a filter asks for: its tenant, its texts, whether it matched, and its time.
pub record Fits (ctx : Context) (f : EventLogFilter) (r : EventLogRecord) : Type 0 where
  pub tenant : IsOwn ctx f.tenant_id r.tenant_id
  pub provider : Wanted f.provider r.provider
  pub name : Wanted f.name r.name
  pub request : Wanted f.request_id r.request_id
  pub state : Wanted f.state_id r.state_id
  pub installation : Wanted f.installation_id r.installation_id
  pub namespace : Wanted f.namespace_id r.namespace_id
  pub namespace_name : Wanted f.namespace_name r.namespace_name
  pub topic : Wanted f.topic r.topic
  pub rule : Wanted f.rule_id r.rule_id
  pub rule_when : Wanted f.rule_when r.rule_when
  pub flag : (f.matched ≡ none) ⊎ (f.matched ≡ some r.matched)
  pub after : (f.start_time ≡ 0) ⊎ (f.start_time ≤ r.created_at)
  pub until : (f.end_time ≡ 0) ⊎ (r.created_at ≤ f.end_time)

matches-Wanted : (wanted value : Text) → matches wanted value ≡ true → Wanted wanted value
unfolding matches
matches-Wanted wanted value h = elim (Bool-cases (same wanted [])) [
  | inl y ↦ inl ((same_iff wanted []).0 y)
  | inr n ↦ inr ((same_iff value wanted).0 (ground (arith, n, h)))
]

Wanted-matches : (wanted value : Text) → Wanted wanted value → matches wanted value ≡ true
unfolding matches
Wanted-matches wanted value (inl e) = ground (arith, same_iff wanted [], e)
Wanted-matches wanted value (inr e) = ground (arith, same_iff value wanted, e)

matches-IsOwn :
    (ctx : Context) (wanted tenant_id : Text)
    → matches (own_tenant ctx wanted) tenant_id ≡ true
    → IsOwn ctx wanted tenant_id
unfolding own_tenant
matches-IsOwn ctx wanted tenant_id h = elim (Bool-cases (same wanted [])) [
  | inl y ↦ inl ((same_iff wanted []).0 y, matches-Wanted _ _ (rw (y, own_tenant) at h))
  | inr n ↦
      let full : wanted ≢ [] = λ e. false≢true (sym n ∙ (same_iff wanted []).1 e) in
      elim (matches-Wanted _ _ (rw (n, own_tenant) at h)) [
        | inl e ↦ absurd (full e)
        | inr e ↦ inr (full, e)
      ]
]

IsOwn-matches :
    (ctx : Context) (wanted tenant_id : Text)
    → IsOwn ctx wanted tenant_id
    → matches (own_tenant ctx wanted) tenant_id ≡ true
unfolding own_tenant
IsOwn-matches ctx wanted tenant_id (inl h) =
    rw ((same_iff wanted []).1 h.0) (Wanted-matches _ _ h.1)
IsOwn-matches ctx wanted tenant_id (inr h) = elim (Bool-cases (same wanted [])) [
  | inl y ↦ absurd (h.0 ((same_iff wanted []).0 y))
  | inr n ↦ rw n (Wanted-matches wanted tenant_id (inr h.1))
]

flag_iff : (o : Option Bool) (b : Bool) → (matches_flag o b ≡ true) ↔ ((o ≡ none) ⊎ (o ≡ some b))
unfolding matches_flag
flag_iff none b = (λ h. inl refl, λ h. refl)
flag_iff (some true) true = (λ h. inr refl, λ h. refl)
flag_iff (some true) false = (λ h. absurd (false≢true h), λ h. either h)
  where
    either : (some true ≡ none) ⊎ (some true ≡ some false) → false ≡ true
    either (inl e) = cc e
    either (inr e) = cc e
flag_iff (some false) false = (λ h. inr refl, λ h. refl)
flag_iff (some false) true = (λ h. absurd (false≢true h), λ h. either h)
  where
    either : (some false ≡ none) ⊎ (some false ≡ some true) → false ≡ true
    either (inl e) = cc e
    either (inr e) = cc e

after_iff : (bound t : ℕ) → ((bound == 0 || leb bound t) ≡ true) ↔ ((bound ≡ 0) ⊎ (bound ≤ t))
after_iff bound t = (λ h. ground (arith, h), λ h. ground (arith, h))

until_iff : (bound t : ℕ) → ((bound == 0 || leb t bound) ≡ true) ↔ ((bound ≡ 0) ⊎ (t ≤ bound))
until_iff bound t = (λ h. ground (arith, h), λ h. ground (arith, h))

-- The conjunction of the tests.
passes_parts :
    (ctx : Context) (f : EventLogFilter) (r : EventLogRecord)
    → (passes ctx f r ≡ true) ↔ (
        (matches (own_tenant ctx f.tenant_id) r.tenant_id ≡ true)
        × (matches f.provider r.provider ≡ true)
        × (matches f.name r.name ≡ true)
        × (matches f.request_id r.request_id ≡ true)
        × (matches f.state_id r.state_id ≡ true)
        × (matches f.installation_id r.installation_id ≡ true)
        × (matches f.namespace_id r.namespace_id ≡ true)
        × (matches f.namespace_name r.namespace_name ≡ true)
        × (matches f.topic r.topic ≡ true)
        × (matches f.rule_id r.rule_id ≡ true)
        × (matches f.rule_when r.rule_when ≡ true)
        × (matches_flag f.matched r.matched ≡ true)
        × ((f.start_time == 0 || leb f.start_time r.created_at) ≡ true)
        × ((f.end_time == 0 || leb r.created_at f.end_time) ≡ true))
unfolding passes
passes_parts ctx f r = (
  λ h. (
    ground (arith, h),
    ground (arith, h),
    ground (arith, h),
    ground (arith, h),
    ground (arith, h),
    ground (arith, h),
    ground (arith, h),
    ground (arith, h),
    ground (arith, h),
    ground (arith, h),
    ground (arith, h),
    ground (arith, h),
    ground (arith, h),
    ground (arith, h),
  ),
  λ h. rw (h.0, h.1, h.2, h.3, h.4, h.5, h.6, h.7, h.8, h.9, h.10, h.11, h.12, h.13) refl,
)

-- The tests of a listing are what a filter asks for.
pub passes-Fits :
    (ctx : Context) (f : EventLogFilter) (r : EventLogRecord)
    → (passes ctx f r ≡ true) ↔ Fits ctx f r
passes-Fits ctx f r = (
  λ y.
      let h = (passes_parts ctx f r).0 y in
      record {
        tenant = matches-IsOwn ctx _ _ h.0;
        provider = matches-Wanted _ _ h.1;
        name = matches-Wanted _ _ h.2;
        request = matches-Wanted _ _ h.3;
        state = matches-Wanted _ _ h.4;
        installation = matches-Wanted _ _ h.5;
        namespace = matches-Wanted _ _ h.6;
        namespace_name = matches-Wanted _ _ h.7;
        topic = matches-Wanted _ _ h.8;
        rule = matches-Wanted _ _ h.9;
        rule_when = matches-Wanted _ _ h.10;
        flag = (flag_iff f.matched r.matched).0 h.11;
        after = (after_iff f.start_time r.created_at).0 h.12;
        until = (until_iff f.end_time r.created_at).0 h.13;
      },
  λ g. (passes_parts ctx f r).1 (
    IsOwn-matches ctx _ _ g.tenant,
    Wanted-matches _ _ g.provider,
    Wanted-matches _ _ g.name,
    Wanted-matches _ _ g.request,
    Wanted-matches _ _ g.state,
    Wanted-matches _ _ g.installation,
    Wanted-matches _ _ g.namespace,
    Wanted-matches _ _ g.namespace_name,
    Wanted-matches _ _ g.topic,
    Wanted-matches _ _ g.rule,
    Wanted-matches _ _ g.rule_when,
    (flag_iff f.matched r.matched).1 g.flag,
    (after_iff f.start_time r.created_at).1 g.after,
    (until_iff f.end_time r.created_at).1 g.until,
  ),
)
