-- ===== src/Storage/Memory/Rules.antt =====
-- mocks_rules.go of pkg/storage: the rules in memory, by their ids.
pub mod Visible
use relaymesh.Prelude.{ℕ, Bool, Option, none, some, List, [], if◌then◌else◌}
use relaymesh.Prelude.Text.{Text, same, trim_space}
use relaymesh.Prelude.Table.{Table, lookup, insert, remove}
use relaymesh.Storage.Records.{RuleRecord}
use relaymesh.Storage.Tenant.{Context}
use relaymesh.Storage.Memory.{own_tenant, visible, or_now, select, only}

-- MockRuleStore
abbrev pub RuleMap : Type 0
RuleMap = Table RuleRecord

-- ListRules
unfoldable pub list_rules : Context → RuleMap → List RuleRecord
list_rules ctx m = select (λ r. visible ctx r.tenant_id) m

-- GetRule
unfoldable pub get_rule : Context → Text → RuleMap → Option RuleRecord
get_rule ctx id m = only (λ r. visible ctx r.tenant_id) (lookup id m)

-- The record as UpdateRule stores it, from two readings of the clock.
unfoldable pub kept_rule : Context → ℕ → ℕ → RuleRecord → RuleRecord
kept_rule ctx t1 t2 r = record r {
  tenant_id = own_tenant ctx r.tenant_id;
  driver_id = trim_space r.driver_id;
  created_at = or_now r.created_at t1;
  updated_at = t2;
}

-- UpdateRule
unfoldable pub update_rule : Context → ℕ → ℕ → RuleRecord → RuleMap → RuleRecord × RuleMap
update_rule ctx t1 t2 r m = let kept = kept_rule ctx t1 t2 r in (kept, insert kept.id kept m)

-- CreateRule; `stamp` is the time that the new id is made of, formatted.
unfoldable pub create_rule : Context → Text → ℕ → ℕ → RuleRecord → RuleMap → RuleRecord × RuleMap
unfolding update_rule
create_rule ctx stamp t1 t2 r m =
    update_rule ctx t1 t2 (record r { id = if same r.id [] then stamp else r.id }) m

-- DeleteRule: the rule of this id, whatever its tenant is.
unfoldable pub delete_rule : Context → Text → RuleMap → RuleMap
delete_rule ctx id m = remove id m
