-- ===== src/Tests/Engine.antt =====
-- Runs of the rule engine.
use mathlib.Core.List.{Perm}
use mathlib.Core.List.Perm as Perm
use relaymesh.Prelude.{◌≡◌, ◌≢◌, refl, true, none, [], ◌∷◌}
use relaymesh.Prelude.Text.{text, same, trim_space}
use relaymesh.Prelude.Outcome.{ok}
use relaymesh.Core.EmitList.{clean}
use relaymesh.Core.Rewrite.{
  rewrite_expression, rewrite_loop, round, code_round, is_ident_start, is_function_name,
  parse_identifier, token_round, is_keyword, parse_json_path_token, scan, token_path, safe_var_name,
}
use relaymesh.Core.Rules.{
  CompiledRule, RuleEngine, update, new_rule_engine, active_rules, evaluate_for_tenant,
  evaluate_rules_for_tenant, evaluate_rules, compile_rules, compile_rule, store_rules,
}
use relaymesh.Core.Rules.Tenants.{update_other_tenant, update_this_tenant}
use relaymesh.Core.Rules.Strict.{Evaluates, evaluate_rules-Evaluates}
use relaymesh.Core.Rules.Topics.{Built, created}
use relaymesh.Core.Resolve.{rule_id_from_parts}
use relaymesh.Core.Resolve.Identity.{rule_id_from_parts-perm}
use relaymesh.Webhook.Matches.{rule_matches_from_rules}
use relaymesh.Webhook.Matches.Agree.{evaluate-rule_matches_from_rules}
use relaymesh.Tests.Samples.{push_event, one_variable, push_rule, rules_of}

-- An engine with a rule on `push`, and with no tenants.
abbrev on_push : CompiledRule one_variable
on_push = record {
  id = text "r1";
  when_expr = text "push";
  emit = text "pushed" ∷ [];
  driver_id = text "d1";
  transform_js = [];
  driver_name = text "nats";
  driver_config_json = [];
  driver_enabled = true;
  variables = text "push" ∷ [];
  var_map = [];
  expr = text "push";
}

abbrev engine : RuleEngine one_variable
engine = record { rules = on_push ∷ []; strict = true; tenants = none }

evaluate_rules-Evaluates_example :
    Evaluates one_variable push_event
      (active_rules one_variable engine [])
      (evaluate_rules_for_tenant one_variable engine push_event [])
evaluate_rules-Evaluates_example = evaluate_rules-Evaluates one_variable engine push_event []

evaluate-rule_matches_from_rules_example :
    evaluate_for_tenant one_variable engine push_event []
    ≡ rule_matches_from_rules (evaluate_rules_for_tenant one_variable engine push_event [])
evaluate-rule_matches_from_rules_example =
    evaluate-rule_matches_from_rules one_variable engine push_event []

other_tenants : trim_space (text "acme") ≢ trim_space []
unfolding trim_space
other_tenants e = absurd (cc e)

update_other_tenant_example :
    (evaluate_rules_for_tenant one_variable
        (update one_variable (rules_of (text "acme") (push_rule ∷ [])) engine).1
        push_event
        []
      ≡ evaluate_rules_for_tenant one_variable engine push_event [])
    × (evaluate_for_tenant one_variable
          (update one_variable (rules_of (text "acme") (push_rule ∷ [])) engine).1
          push_event
          []
        ≡ evaluate_for_tenant one_variable engine push_event [])
update_other_tenant_example =
    update_other_tenant one_variable (rules_of (text "acme") (push_rule ∷ [])) engine push_event []
      other_tenants

update_this_tenant_example :
    (fresh : RuleEngine one_variable) × (new_rule_engine one_variable (rules_of [] (push_rule ∷ []))
      ≡ ok fresh)
    × (evaluate_rules_for_tenant one_variable
          (update one_variable (rules_of (text "acme") (push_rule ∷ [])) engine).1
          push_event
          (text "acme")
        ≡ evaluate_rules one_variable fresh push_event)
unfolding update compile_rules compile_rule rewrite_expression rewrite_loop round code_round
    is_ident_start is_function_name same parse_identifier token_round is_keyword
    parse_json_path_token scan token_path safe_var_name
update_this_tenant_example =
    update_this_tenant one_variable (rules_of (text "acme") (push_rule ∷ [])) engine push_event refl

abbrev no_rules : RuleEngine one_variable
no_rules = record { rules = []; strict = true; tenants = none }

no_rules-Built : Built one_variable no_rules
unfolding new_rule_engine update compile_rules store_rules trim_space same
no_rules-Built = created (rules_of [] []) refl

spaces_only : Perm (clean (text " a" ∷ text "b" ∷ [])) (clean (text "b" ∷ text "a" ∷ []))
unfolding clean trim_space same
spaces_only = Perm.swap (text "b") (text "a") []

rule_id_from_parts-perm_example :
    rule_id_from_parts one_variable (text "push") (text " a" ∷ text "b" ∷ []) (text "d1")
    ≡ rule_id_from_parts one_variable (text "push ") (text "b" ∷ text "a" ∷ []) (text " d1")
unfolding trim_space
rule_id_from_parts-perm_example =
    rule_id_from_parts-perm one_variable (text "push") (text "push ") (text " a" ∷ text "b" ∷ [])
      (text "b" ∷ text "a" ∷ []) (text "d1") (text " d1") refl spaces_only refl
