-- ===== src/Core/Rules/Named.antt =====
-- The driver names of the matches of pkg/core/rules.go.
use relaymesh.Prelude.{
  ◌≡◌, refl, sym, ◌∙◌, subst, Bool, Option, none, some, List, [], ◌∷◌, arith, All,
}
use relaymesh.Prelude.Text.{same_refl, trim_space}
use relaymesh.Prelude.Outcome.{Outcome, ok, fail, >>=-eq-ok}
use relaymesh.Core.EmitList.{IsClean}
use relaymesh.Core.Event.{Event}
use relaymesh.Core.Libraries.{Libraries}
use relaymesh.Core.Rules.{
  Rule, RulesConfig, MatchedRule, CompiledRule, RuleSet, RuleEngine, compile_rule, compile_rules,
  store_rules, update, finish_update, finish_new, new_rule_engine, active_rules, matched_rule,
  evaluate_rules,
}
use relaymesh.Core.Rules.Tenants.{stored, active_rules-store_rules}
use relaymesh.Core.Rules.Strict.{Selects, stop, take, skip, Evaluates, evaluate_rules-Evaluates}

module _ (lib : Libraries) where
  abbrev NamedRule : CompiledRule lib → Type 0
  NamedRule c = IsClean c.driver_name

  compile_rule-NamedRule :
      (rule : Rule) (c : CompiledRule lib)
      → compile_rule lib rule ≡ ok c
      → IsClean rule.driver_name
      → NamedRule c
  unfolding compile_rule
  compile_rule-NamedRule rule c e h =
      let named : c.driver_name ≡ trim_space rule.driver_name = ground arith in
      subst IsClean (sym (named ∙ h.0)) h

  compile_rules-All :
      (rules : List Rule) (cs : List (CompiledRule lib))
      → compile_rules lib rules ≡ ok cs
      → All (λ r. IsClean r.driver_name) rules
      → All NamedRule cs
  unfolding compile_rules
  compile_rules-All [] cs e h = let none_left : [] ≡ cs = cc in subst (All NamedRule) none_left tt
  compile_rules-All (rule ∷ rest) cs e h =
      let (c, first, later) = >>=-eq-ok (compile_rule lib rule) _ e in
      let (ds, others, last) = >>=-eq-ok (compile_rules lib rest) (λ ds. ok (c ∷ ds)) later in
      let whole : c ∷ ds ≡ cs = cc in
      subst (All NamedRule) whole
        (compile_rule-NamedRule rule c first h.0, compile_rules-All rest ds others h.1)

  Selects-All :
      (strict : Bool) (event : Event) (rules : List (CompiledRule lib)) (matches : List MatchedRule)
      → Selects lib strict event rules matches
      → All NamedRule rules
      → All (λ m. IsClean m.driver_name) matches
  unfolding matched_rule
  Selects-All strict event [] [] stop h = tt
  Selects-All strict event [] (m ∷ ms) x h = elim x [ ]
  Selects-All strict event (r ∷ rs) (m ∷ ms) (take f s) h =
      (h.0, Selects-All strict event rs ms s h.1)
  Selects-All strict event (r ∷ rs) ms (skip f s) h = Selects-All strict event rs ms s h.1

  evaluated-All :
      (event : Event) (active : Option (RuleSet lib)) (matches : List MatchedRule)
      → Evaluates lib event active matches
      → ((set : RuleSet lib) → active ≡ some set → All NamedRule set.rules)
      → All (λ m. IsClean m.driver_name) matches
  evaluated-All event none matches none_left h =
      subst (All (λ m. IsClean m.driver_name)) (sym none_left) tt
  evaluated-All event (some set) matches s h =
      Selects-All set.strict event set.rules matches s (h set refl)

  stored-NamedRule :
      (cfg : RulesConfig) (cs : List (CompiledRule lib)) (r : RuleEngine lib) (set : RuleSet lib)
      → All NamedRule cs
      → active_rules lib (store_rules lib cfg cs r) cfg.tenant_id ≡ some set
      → All NamedRule set.rules
  stored-NamedRule cfg cs r set h e =
      let kept : stored lib cfg cs ≡ some set =
        sym (
          active_rules-store_rules lib cfg cs r cfg.tenant_id
          ∙ rw (same_refl (trim_space cfg.tenant_id)))
        ∙ e in
      let same_rules : cs ≡ set.rules = ground arith in subst (All NamedRule) same_rules h

  -- An engine that was made from rules that each name a driver, trimmed and not empty, and with no
  -- tenant, matches only rules that do.
  pub evaluate_rules-All :
      (rules : List Rule) (strict : Bool) (engine : RuleEngine lib) (event : Event)
      → new_rule_engine lib (record { rules = rules; strict = strict; tenant_id = [] }) ≡ ok engine
      → All (λ r. IsClean r.driver_name) rules
      → All (λ m. IsClean m.driver_name) (evaluate_rules lib engine event)
  unfolding new_rule_engine update evaluate_rules
  evaluate_rules-All rules strict engine event e h = go (compile_rules lib rules) refl e
    where
      cfg : RulesConfig
      cfg = record { rules = rules; strict = strict; tenant_id = [] }

      blank : RuleEngine lib
      blank = record { rules = []; strict = strict; tenants = none }

      go :
          (o : Outcome (List (CompiledRule lib)))
          → compile_rules lib rules ≡ o
          → finish_new lib (finish_update lib cfg blank o) ≡ ok engine
          → All (λ m. IsClean m.driver_name) (evaluate_rules lib engine event)
      go (fail x) f g = absurd (cc g)
      go (ok cs) f g =
          let made : store_rules lib cfg cs blank ≡ engine = cc in
          subst
            (λ (x : RuleEngine lib). All (λ m. IsClean m.driver_name) (evaluate_rules lib x event))
            made
            (evaluated-All event _ _
              (evaluate_rules-Evaluates lib (store_rules lib cfg cs blank) event [])
              (λ set. stored-NamedRule cfg cs blank set (compile_rules-All rules cs f h)))
