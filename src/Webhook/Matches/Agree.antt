-- ===== src/Webhook/Matches/Agree.antt =====
-- The two evaluations of pkg/core/rules.go, beside pkg/webhook/match_helpers.go.
use relaymesh.Prelude.{
  ◌≡◌, refl, sym, Bool, Option, none, some, List, [], ◌∷◌, ◌++◌, map, append-nil, append_assoc,
  arith,
}
use relaymesh.Prelude.Text.{Text}
use relaymesh.Core.Event.{Event}
use relaymesh.Core.Libraries.{Libraries}
use relaymesh.Core.Rules.{
  evaluate_active, evaluate_rules_active, topic_match, matched_rule, RuleMatch, MatchedRule,
  CompiledRule, RuleSet, RuleEngine, active_rules, evaluate_loop, evaluate_rules_loop,
  evaluate_for_tenant, evaluate_rules_for_tenant,
}
use relaymesh.Webhook.Matches.{rule_matches_from_rules}

rule_matches-append :
    (xs ys : List MatchedRule)
    → rule_matches_from_rules (xs ++ ys) ≡ rule_matches_from_rules xs ++ rule_matches_from_rules ys
unfolding rule_matches_from_rules
rule_matches-append [] ys = refl
rule_matches-append (x ∷ xs) ys =
    rw (rule_matches-append xs ys)
      (sym (append_assoc _ (rule_matches_from_rules xs) (rule_matches_from_rules ys)))

module _ (lib : Libraries) where
  append_match :
      (rule : CompiledRule lib) (matches : List RuleMatch) (matched : List MatchedRule)
      → matches ≡ rule_matches_from_rules matched
      → matches ++ map (topic_match lib rule) rule.emit
        ≡ rule_matches_from_rules (matched ++ matched_rule lib rule ∷ [])
  unfolding rule_matches_from_rules matched_rule topic_match
  append_match rule matches matched e =
      rw e (rw (rule_matches-append matched (matched_rule lib rule ∷ [])) (rw append-nil))

module _ (lib : Libraries) (strict : Bool) (event : Event) where
  loops_agree :
      (rules : List (CompiledRule lib)) (matches : List RuleMatch) (matched : List MatchedRule)
      → matches ≡ rule_matches_from_rules matched
      → evaluate_loop lib strict event rules matches
        ≡ rule_matches_from_rules (evaluate_rules_loop lib strict event rules matched)
  unfolding evaluate_loop evaluate_rules_loop
  loops_agree [] matches matched e = e
  loops_agree (rule ∷ rest) matches matched e =
      loops_agree rest _ _ (ground (arith, e, append_match lib rule matches matched))

module _ (lib : Libraries) (event : Event) where
  active_agree :
      (set : Option (RuleSet lib))
      → evaluate_active lib event set
        ≡ rule_matches_from_rules (evaluate_rules_active lib event set)
  unfolding evaluate_active evaluate_rules_active rule_matches_from_rules
  active_agree none = refl
  active_agree (some set) = ground (arith, loops_agree lib set.strict event set.rules [] [] refl)

-- For every engine, event and tenant, the matches of topics are the matches of rules taken apart
-- by their topics: the same in number, order and content.
pub evaluate-rule_matches_from_rules :
    (lib : Libraries) (r : RuleEngine lib) (event : Event) (tenant_id : Text)
    → evaluate_for_tenant lib r event tenant_id
      ≡ rule_matches_from_rules (evaluate_rules_for_tenant lib r event tenant_id)
unfolding evaluate_for_tenant evaluate_rules_for_tenant
evaluate-rule_matches_from_rules lib r event tenant_id =
    active_agree lib event (active_rules lib r tenant_id)
