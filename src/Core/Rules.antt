-- ===== src/Core/Rules.antt =====
-- pkg/core/rules.go: the rule engine. The mutex is left out: each method holds it from its first
-- access to the fields to its last, so a method is one step on the fields. So is the logger, which
-- no result depends on.
pub mod Tenants
pub mod Strict
pub mod Topics
pub mod Named
use relaymesh.Prelude.{
  Bool, true, false, not, ◌&&◌, Option, none, some, List, [], ◌∷◌, ◌++◌, is_empty, if◌then◌else◌,
  map,
}
use relaymesh.Prelude.Text.{Text, same, trim_space, is_blank}
use relaymesh.Prelude.Table.{Table, lookup, insert, remove}
use relaymesh.Prelude.Outcome.{Outcome, ok, fail, ◌>>=◌}
use relaymesh.Core.Value.{Value, bool}
use relaymesh.Core.Event.{Event}
use relaymesh.Core.EmitList.{clean}
use relaymesh.Core.Libraries.{Libraries}
use relaymesh.Core.Resolve.{rule_id_from_parts, resolve_rule_params}
use relaymesh.Core.Rewrite.{Output, rewrite_expression}

-- Rule
pub record Rule : Type 0 where
  pub id : Text
  pub when_expr : Text
  pub emit : List Text
  pub driver_id : Text
  pub transform_js : Text
  pub driver_name : Text
  pub driver_config_json : Text
  pub driver_enabled : Bool

-- RulesConfig
pub record RulesConfig : Type 0 where
  pub rules : List Rule
  pub strict : Bool
  pub tenant_id : Text

-- RuleMatch
pub record RuleMatch : Type 0 where
  pub topic : Text
  pub driver_id : Text
  pub transform_js : Text
  pub driver_name : Text
  pub rule_id : Text
  pub rule_when : Text
  pub driver_config_json : Text
  pub driver_enabled : Bool

-- MatchedRule
pub record MatchedRule : Type 0 where
  pub id : Text
  pub when_expr : Text
  pub emit : List Text
  pub driver_id : Text
  pub transform_js : Text
  pub driver_name : Text
  pub driver_config_json : Text
  pub driver_enabled : Bool

module _ (lib : Libraries) where
  open lib use {Expression, compile, vars, evaluate}

  -- compiledRule
  pub record CompiledRule : Type 0 where
    pub id : Text
    pub when_expr : Text
    pub emit : List Text
    pub driver_id : Text
    pub transform_js : Text
    pub driver_name : Text
    pub driver_config_json : Text
    pub driver_enabled : Bool
    pub variables : List Text
    pub var_map : Table Text
    pub expr : Expression

  -- ruleSet
  pub record RuleSet : Type 0 where
    pub rules : List CompiledRule
    pub strict : Bool

  -- RuleEngine; `tenants` is nil before the first rules of a tenant.
  pub record RuleEngine : Type 0 where
    pub rules : List CompiledRule
    pub strict : Bool
    pub tenants : Option (Table RuleSet)

  compiled : Rule → Output → Expression → CompiledRule
  compiled rule o expr =
      let rule_id = trim_space rule.id in
      record {
        id =
            if same rule_id []
            then rule_id_from_parts lib rule.when_expr (clean rule.emit) rule.driver_id
            else rule_id;
        when_expr = rule.when_expr;
        emit = clean rule.emit;
        driver_id = trim_space rule.driver_id;
        transform_js = trim_space rule.transform_js;
        driver_name = trim_space rule.driver_name;
        driver_config_json = trim_space rule.driver_config_json;
        driver_enabled = rule.driver_enabled;
        variables = vars expr;
        var_map = o.var_map;
        expr = expr;
      }

  -- `none` is a panic of rewriteExpression, here an error without messages.
  compile_output : Rule → Option Output → Outcome CompiledRule
  compile_output rule none = fail []
  compile_output rule (some o) = elim (compile o.out) [
    | ok expr ↦ ok (compiled rule o expr)
    | fail e ↦ fail e
  ]

  -- The body of the loop of Update.
  unfoldable pub compile_rule : Rule → Outcome CompiledRule
  unfolding compile_output compiled
  compile_rule rule = compile_output rule (rewrite_expression rule.when_expr)

  -- The loop of Update: the first rule that does not compile ends it.
  unfoldable pub compile_rules : List Rule → Outcome (List CompiledRule)
  compile_rules [] = ok []
  compile_rules (rule ∷ rest) = do c ← compile_rule rule; cs ← compile_rules rest; ok (c ∷ cs)

  tenant_table : Option (Table RuleSet) → Table RuleSet
  tenant_table none = []
  tenant_table (some t) = t

  -- The part of Update under the lock.
  unfoldable pub store_rules : RulesConfig → List CompiledRule → RuleEngine → RuleEngine
  unfolding tenant_table
  store_rules cfg rules r =
      let tenant_id = trim_space cfg.tenant_id in
      if same tenant_id []
      then record r { rules = rules; strict = cfg.strict }
      else if is_empty rules
      then record r { tenants = some (remove tenant_id (tenant_table r.tenants)) }
      else record r {
        tenants = some (
            insert tenant_id (record { rules = rules; strict = cfg.strict })
              (tenant_table r.tenants));
      }

  finish_update :
      RulesConfig → RuleEngine → Outcome (List CompiledRule) → Outcome (Unit {0}) × RuleEngine
  finish_update cfg r (fail e) = (fail e, r)
  finish_update cfg r (ok rules) = (ok tt, store_rules cfg rules r)

  -- Update: the error, and the engine that it leaves.
  unfoldable pub update : RulesConfig → RuleEngine → Outcome (Unit {0}) × RuleEngine
  unfolding finish_update
  update cfg r = finish_update cfg r (compile_rules cfg.rules)

  abbrev finish_new : Outcome (Unit {0}) × RuleEngine → Outcome RuleEngine
  finish_new (ok _, r) = ok r
  finish_new (fail e, r) = fail e

  -- NewRuleEngine
  unfoldable pub new_rule_engine : RulesConfig → Outcome RuleEngine
  unfolding update
  new_rule_engine cfg =
      finish_new (update cfg (record { rules = []; strict = cfg.strict; tenants = none }))

  tenant_set : Text → Option (Table RuleSet) → Option RuleSet
  tenant_set tenant_id none = none
  tenant_set tenant_id (some t) = lookup tenant_id t

  -- The rules and the mode that an evaluation runs with; `none` where it returns at once.
  unfoldable pub active_rules : RuleEngine → Text → Option RuleSet
  unfolding tenant_set
  active_rules r tenant_id =
      let trimmed = trim_space tenant_id in
      if same trimmed []
      then some (record { rules = r.rules; strict = r.strict })
      else tenant_set trimmed r.tenants

  -- `ok, _ := result.(bool)`
  unfoldable pub as_bool : Value → Bool
  as_bool (bool b) = b
  as_bool _ = false

  unfoldable pub topic_match : CompiledRule → Text → RuleMatch
  topic_match rule topic = record {
    topic = topic;
    driver_id = rule.driver_id;
    transform_js = rule.transform_js;
    driver_name = rule.driver_name;
    rule_id = rule.id;
    rule_when = rule.when_expr;
    driver_config_json = rule.driver_config_json;
    driver_enabled = rule.driver_enabled;
  }

  -- The loop of evaluateWithLoggerForTenant, which appends a match for each topic.
  unfoldable pub evaluate_loop : Bool → Event → List CompiledRule → List RuleMatch → List RuleMatch
  unfolding as_bool topic_match
  evaluate_loop strict event [] matches = matches
  evaluate_loop strict event (rule ∷ rest) matches =
      let resolved = resolve_rule_params lib event rule.variables rule.var_map in
      let hit = matches ++ map (topic_match rule) rule.emit in
      evaluate_loop strict event rest (
        if strict && not (is_empty resolved.1)
        then matches
        else elim (evaluate rule.expr resolved.0) [
          | fail e ↦ matches
          | ok result ↦ if as_bool result then hit else matches
        ])

  unfoldable pub evaluate_active : Event → Option RuleSet → List RuleMatch
  evaluate_active event none = []
  evaluate_active event (some set) =
      if is_empty set.rules then [] else evaluate_loop set.strict event set.rules []

  -- evaluateWithLoggerForTenant
  unfoldable pub evaluate_for_tenant : RuleEngine → Event → Text → List RuleMatch
  unfolding evaluate_active
  evaluate_for_tenant r event tenant_id = evaluate_active event (active_rules r tenant_id)

  unfoldable pub matched_rule : CompiledRule → MatchedRule
  matched_rule rule = record {
    id = rule.id;
    when_expr = rule.when_expr;
    emit = rule.emit;
    driver_id = rule.driver_id;
    transform_js = rule.transform_js;
    driver_name = rule.driver_name;
    driver_config_json = rule.driver_config_json;
    driver_enabled = rule.driver_enabled;
  }

  -- The loop of evaluateRulesWithLoggerForTenant, which appends a match for each rule.
  unfoldable pub evaluate_rules_loop :
      Bool → Event → List CompiledRule → List MatchedRule → List MatchedRule
  unfolding as_bool matched_rule
  evaluate_rules_loop strict event [] matches = matches
  evaluate_rules_loop strict event (rule ∷ rest) matches =
      let resolved = resolve_rule_params lib event rule.variables rule.var_map in
      let hit = matches ++ (matched_rule rule ∷ []) in
      evaluate_rules_loop strict event rest (
        if strict && not (is_empty resolved.1)
        then matches
        else elim (evaluate rule.expr resolved.0) [
          | fail e ↦ matches
          | ok result ↦ if as_bool result then hit else matches
        ])

  unfoldable pub evaluate_rules_active : Event → Option RuleSet → List MatchedRule
  evaluate_rules_active event none = []
  evaluate_rules_active event (some set) =
      if is_empty set.rules then [] else evaluate_rules_loop set.strict event set.rules []

  -- evaluateRulesWithLoggerForTenant
  unfoldable pub evaluate_rules_for_tenant : RuleEngine → Event → Text → List MatchedRule
  unfolding evaluate_rules_active
  evaluate_rules_for_tenant r event tenant_id =
      evaluate_rules_active event (active_rules r tenant_id)

  -- EvaluateRules and EvaluateRulesWithLogger
  unfoldable pub evaluate_rules : RuleEngine → Event → List MatchedRule
  unfolding evaluate_rules_for_tenant
  evaluate_rules r event = evaluate_rules_for_tenant r event []
