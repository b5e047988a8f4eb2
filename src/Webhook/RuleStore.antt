-- ===== src/Webhook/RuleStore.antt =====
-- pkg/webhook/rules_store.go: the rules of a tenant, from the stores. The loggers are left out, and
-- with them the loops that only log.
pub mod Complete
pub mod Deliverable
use relaymesh.Prelude.{
  Bool, true, false, ◌||◌, Option, none, some, List, [], ◌∷◌, ◌++◌, is_empty, if◌then◌else◌,
}
use relaymesh.Prelude.Text.{Text, text, same, trim_space, is_blank}
use relaymesh.Prelude.Outcome.{Errors, Outcome, ok, fail}
use relaymesh.Core.Event.{Event}
use relaymesh.Core.Libraries.{Libraries}
use relaymesh.Core.Rules.{
  Rule, RulesConfig, RuleEngine, MatchedRule, new_rule_engine, evaluate_rules,
}
use relaymesh.Storage.Records.{RuleRecord, DriverRecord}
use relaymesh.Storage.Tenant.{Context, with_tenant}

-- ListRules of a storage.RuleStore, and GetDriverByID of a storage.DriverStore; a nil record is
-- `none`.
abbrev pub ListRules : Type 0 → Type 0
ListRules W = Context → W → Outcome (List RuleRecord) × W

abbrev pub GetDriverById : Type 0 → Type 0
GetDriverById W = Context → Text → W → Outcome (Option DriverRecord) × W

-- The name of the driver that the store returned.
unfoldable pub named_driver : Text → Outcome (Option DriverRecord) → Outcome Text
named_driver driver_id (fail e) = fail e
named_driver driver_id (ok none) = fail ((text "driver not found: " ++ driver_id) ∷ [])
named_driver driver_id (ok (some driver)) =
    let name = trim_space driver.name in
    if same name []
    then fail ((text "driver " ++ driver_id ++ text " has empty name") ∷ [])
    else ok name

module _ (W : Type 0) (drivers : Option (GetDriverById W)) (ctx : Context) where
  look_up : Option (GetDriverById W) → Text → W → Outcome Text × W
  look_up none driver_id w = (fail (text "driver store not configured" ∷ []), w)
  look_up (some get) driver_id w =
      let found = get ctx driver_id w in (named_driver driver_id found.0, found.1)

  -- driverNameForID
  unfoldable pub driver_name_for_id : Text → W → Outcome Text × W
  unfolding look_up
  driver_name_for_id driver_id w =
      if is_blank driver_id
      then (fail (text "driver_id is required" ∷ []), w)
      else look_up drivers driver_id w

  -- The driver name of a record, looked up where the record has none.
  unfoldable pub name_of_driver : RuleRecord → W → Outcome Text × W
  name_of_driver r w =
      let driver_name = trim_space r.driver_name in
      if same driver_name []
      then driver_name_for_id (trim_space r.driver_id) w
      else (ok driver_name, w)

  loaded : RuleRecord → Text → Rule
  loaded r driver_name = record {
    id = r.id;
    when_expr = r.when_expr;
    emit = r.emit;
    driver_id = trim_space r.driver_id;
    transform_js = trim_space r.transform_js;
    driver_name = driver_name;
    driver_config_json = trim_space r.driver_config_json;
    driver_enabled = r.driver_enabled;
  }

  loaded_option : RuleRecord → Outcome Text → Option Rule
  loaded_option r (fail e) = none
  loaded_option r (ok name) = some (loaded r name)

  -- The body of the loop of loadRulesForTenant; `none` is `continue`.
  unfoldable pub load_rule : RuleRecord → W → Option Rule × W
  unfolding loaded loaded_option
  load_rule r w =
      let named = name_of_driver r w in
      if is_blank r.when_expr || (is_empty r.emit || is_blank r.driver_id)
      then (none, w)
      else (loaded_option r named.0, named.1)

  unfoldable pub add_rule : Option Rule → List Rule → List Rule
  add_rule none rules = rules
  add_rule (some rule) rules = rule ∷ rules

  unfoldable pub load_rules : List RuleRecord → W → List Rule × W
  load_rules [] w = ([], w)
  load_rules (r ∷ rs) w =
      let first = load_rule r w in
      let rest = load_rules rs first.1 in (add_rule first.0 rest.0, rest.1)

  load_listed : Outcome (List RuleRecord) × W → Outcome (List Rule) × W
  load_listed (fail e, w) = (fail e, w)
  load_listed (ok records, w) = let rules = load_rules records w in (ok rules.0, rules.1)

  -- loadRulesForTenant
  unfoldable pub load_rules_for_tenant : Option (ListRules W) → W → Outcome (List Rule) × W
  unfolding load_listed
  load_rules_for_tenant none w = (ok [], w)
  load_rules_for_tenant (some list) w = load_listed (list ctx w)

module _ (lib : Libraries) where
  evaluate_engine : Event → Outcome (RuleEngine lib) → List MatchedRule
  evaluate_engine event (fail e) = []
  evaluate_engine event (ok engine) = evaluate_rules lib engine event

  -- The part of matchRulesFromStore behind the loading of the rules.
  unfoldable pub match_loaded : Event → Bool → Outcome (List Rule) → List MatchedRule
  unfolding evaluate_engine
  match_loaded event strict (fail e) = []
  match_loaded event strict (ok rules) =
      if is_empty rules
      then []
      else evaluate_engine event
          (new_rule_engine lib (record { rules = rules; strict = strict; tenant_id = [] }))

  -- matchRulesFromStore
  unfoldable pub match_rules_from_store :
      (W : Type 0)
      → Context
      → Event
      → Text
      → Option (ListRules W)
      → Option (GetDriverById W)
      → Bool
      → W
      → List MatchedRule × W
  match_rules_from_store W ctx event tenant_id none drivers strict w = ([], w)
  match_rules_from_store W ctx event tenant_id (some list) drivers strict w =
      let loaded_rules =
        load_rules_for_tenant W drivers (with_tenant ctx tenant_id) (some list) w in
      (match_loaded event strict loaded_rules.0, loaded_rules.1)
