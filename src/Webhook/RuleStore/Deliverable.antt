-- ===== src/Webhook/RuleStore/Deliverable.antt =====
-- matchRulesFromStore of pkg/webhook/rules_store.go: the drivers of its matches.
use relaymesh.Prelude.{◌≡◌, refl, Bool, Option, none, some, List, [], ◌∷◌, map, All, All-append}
use relaymesh.Prelude.Text.{Text}
use relaymesh.Prelude.Outcome.{Outcome, ok, fail}
use relaymesh.Core.EmitList.{IsClean}
use relaymesh.Core.Event.{Event}
use relaymesh.Core.Libraries.{Libraries}
use relaymesh.Core.Rules.{Rule, RuleMatch, MatchedRule, RuleEngine, new_rule_engine}
use relaymesh.Core.Rules.Named.{evaluate_rules-All}
use relaymesh.Storage.Tenant.{Context, with_tenant}
use relaymesh.Webhook.Matches.{rule_topic, rule_matches_from_rules, driver_list_from_match}
use relaymesh.Webhook.RuleStore.{
  ListRules, GetDriverById, match_loaded, evaluate_engine, match_rules_from_store,
}
use relaymesh.Webhook.RuleStore.Complete.{IsComplete, load_rules_for_tenant-All}

-- The match names one driver to publish to.
abbrev pub HasDriver : RuleMatch → Type 0
HasDriver m = driver_list_from_match m ≡ m.driver_name ∷ []

topics-HasDriver :
    (rule : MatchedRule) (topics : List Text)
    → IsClean rule.driver_name
    → All HasDriver (map (rule_topic rule) topics)
unfolding rule_topic driver_list_from_match
topics-HasDriver rule [] h = tt
topics-HasDriver rule (t ∷ ts) h = (rw h.0 (rw h.1 (rw h.1 refl)), topics-HasDriver rule ts h)

rules-HasDriver :
    (rules : List MatchedRule)
    → All (λ m. IsClean m.driver_name) rules
    → All HasDriver (rule_matches_from_rules rules)
unfolding rule_matches_from_rules
rules-HasDriver [] h = tt
rules-HasDriver (rule ∷ rules) h =
    All-append HasDriver _ _ (topics-HasDriver rule rule.emit h.0) (rules-HasDriver rules h.1)

complete_names : (rules : List Rule) → All IsComplete rules → All (λ r. IsClean r.driver_name) rules
complete_names [] h = tt
complete_names (r ∷ rs) h = (h.0.driver_name, complete_names rs h.1)

module _ (lib : Libraries) (event : Event) (strict : Bool) where
  engine-All :
      (rules : List Rule) (o : Outcome (RuleEngine lib))
      → new_rule_engine lib (record { rules = rules; strict = strict; tenant_id = [] }) ≡ o
      → All IsComplete rules
      → All (λ m. IsClean m.driver_name) (evaluate_engine lib event o)
  unfolding evaluate_engine
  engine-All rules (fail e) f h = tt
  engine-All rules (ok engine) f h =
      evaluate_rules-All lib rules strict engine event f (complete_names rules h)

  match_loaded-All :
      (o : Outcome (List Rule))
      → ((rules : List Rule) → o ≡ ok rules → All IsComplete rules)
      → All (λ m. IsClean m.driver_name) (match_loaded lib event strict o)
  unfolding match_loaded
  match_loaded-All (fail e) h = tt
  match_loaded-All (ok []) h = tt
  match_loaded-All (ok (r ∷ rs)) h = engine-All (r ∷ rs) _ refl (h (r ∷ rs) refl)

-- Each match that comes from the rules of a store names exactly one driver to publish to, by
-- the driver name of the match: whatever the store holds, no match is without a driver.
pub match_rules_from_store-HasDriver :
    (lib : Libraries) (W : Type 0) (ctx : Context) (event : Event) (tenant_id : Text)
    (list : Option (ListRules W)) (drivers : Option (GetDriverById W)) (strict : Bool) (w : W)
    → All HasDriver (
        rule_matches_from_rules
          (match_rules_from_store lib W ctx event tenant_id list drivers strict w).0)
unfolding match_rules_from_store
match_rules_from_store-HasDriver lib W ctx event tenant_id none drivers strict w =
    rules-HasDriver [] tt
match_rules_from_store-HasDriver lib W ctx event tenant_id (some list) drivers strict w =
    rules-HasDriver _ (
      match_loaded-All lib event strict _
        (load_rules_for_tenant-All W drivers (with_tenant ctx tenant_id) (some list) w))
