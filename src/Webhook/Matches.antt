-- ===== src/Webhook/Matches.antt =====
-- pkg/webhook/match_helpers.go: matches of rules taken apart into matches of topics.
pub mod Agree
use relaymesh.Prelude.{List, [], ◌∷◌, ◌++◌, map, if◌then◌else◌}
use relaymesh.Prelude.Text.{Text, same, trim_space}
use relaymesh.Core.Rules.{RuleMatch, MatchedRule}

unfoldable pub rule_topic : MatchedRule → Text → RuleMatch
rule_topic rule topic = record {
  topic = topic;
  driver_id = rule.driver_id;
  transform_js = rule.transform_js;
  driver_name = rule.driver_name;
  rule_id = rule.id;
  rule_when = rule.when_expr;
  driver_config_json = rule.driver_config_json;
  driver_enabled = rule.driver_enabled;
}

-- ruleMatchesFromRules
unfoldable pub rule_matches_from_rules : List MatchedRule → List RuleMatch
unfolding rule_topic
rule_matches_from_rules [] = []
rule_matches_from_rules (rule ∷ rules) =
    map (rule_topic rule) rule.emit ++ rule_matches_from_rules rules

-- topicsFromMatches
unfoldable pub topics_from_matches : List RuleMatch → List Text
topics_from_matches [] = []
topics_from_matches (match ∷ matches) =
    let rest = topics_from_matches matches in
    if same match.topic [] then rest else match.topic ∷ rest

-- driverListFromMatch
unfoldable pub driver_list_from_match : RuleMatch → List Text
driver_list_from_match match =
    let name = trim_space match.driver_name in
    let driver_name = if same name [] then trim_space match.driver_id else name in
    if same driver_name [] then [] else driver_name ∷ []
