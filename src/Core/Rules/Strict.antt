-- ===== src/Core/Rules/Strict.antt =====
-- evaluateRulesWithLoggerForTenant of pkg/core/rules.go: which rules are selected.
use relaymesh.Prelude.{
  ◌≡◌, refl, sym, ap, ◌∙◌, subst, Bool, true, false, false≢true, not, ◌&&◌, Option, none, some,
  List, [], ◌∷◌, ◌++◌, append-nil, append_assoc, arith, if◌then◌else◌, Bool-cases, inl, inr,
  is_empty, All,
}
use relaymesh.Prelude.Text.{Text}
use relaymesh.Prelude.Outcome.{Outcome, ok, fail}
use relaymesh.Core.Value.{Value, Fields, bool}
use relaymesh.Core.Event.{Event}
use relaymesh.Core.Libraries.{Libraries}
use relaymesh.Core.Resolve.{resolve_rule_params}
use relaymesh.Core.Resolve.Params.{IsFound, missing-resolve_rule_params}
use relaymesh.Core.Rules.{
  MatchedRule, CompiledRule, RuleSet, RuleEngine, as_bool, matched_rule, evaluate_rules_loop,
  evaluate_rules_active, evaluate_rules_for_tenant, active_rules,
}

module _ (lib : Libraries) (strict : Bool) (event : Event) where
  abbrev params_of : CompiledRule lib → Option Fields × List Text
  params_of rule = resolve_rule_params lib event rule.variables rule.var_map

  -- The expression is true at its parameters, and in strict mode every variable is found.
  pub record Fires (rule : CompiledRule lib) : Type 0 where
    pub holds : lib.evaluate rule.expr (params_of rule).0 ≡ ok (bool true)
    pub complete : strict ≡ true → All (IsFound lib event rule.var_map) rule.variables

  -- The matches are those of the rules that fire, in order, one for each.
  pub data Selects : List (CompiledRule lib) → List MatchedRule → Type 0 where
    stop : Selects [] []
    take :
        {rule : CompiledRule lib} {rules : List (CompiledRule lib)} {matches : List MatchedRule}
        → Fires rule
        → Selects rules matches
        → Selects (rule ∷ rules) (matched_rule lib rule ∷ matches)
    skip :
        {rule : CompiledRule lib} {rules : List (CompiledRule lib)} {matches : List MatchedRule}
        → ¬ Fires rule
        → Selects rules matches
        → Selects (rule ∷ rules) matches

  abbrev fires : CompiledRule lib → Bool
  fires rule =
      if strict && not (is_empty (params_of rule).1)
      then false
      else elim (lib.evaluate rule.expr (params_of rule).0) [
        | fail e ↦ false
        | ok result ↦ as_bool lib result
      ]

  as_bool-true : (v : Value) → as_bool lib v ≡ true → v ≡ bool true
  unfolding as_bool
  as_bool-true v h = ground arith

  evaluated_true :
      (o : Outcome Value)
      → (let b : Bool = elim o [ fail e ↦ false | ok result ↦ as_bool lib result ] in b ≡ true)
      → o ≡ ok (bool true)
  evaluated_true (ok v) h = ap ok (as_bool-true v h)
  evaluated_true (fail e) h = cc

  fires-Fires : (rule : CompiledRule lib) → fires rule ≡ true → Fires rule
  fires-Fires rule h = record {
    holds = evaluated_true (lib.evaluate rule.expr (params_of rule).0) (ground arith);
    complete =
        λ s. (missing-resolve_rule_params lib event rule.var_map rule.variables).0 (ground arith);
  }

  Fires-fires : (rule : CompiledRule lib) → Fires rule → fires rule ≡ true
  unfolding as_bool
  Fires-fires rule f = elim (Bool-cases strict) [
    | inl s ↦
        (let found : is_empty (params_of rule).1 ≡ true =
            (missing-resolve_rule_params lib event rule.var_map rule.variables).1 (f.complete s) in
          rw (s, found) (rw f.holds))
    | inr s ↦ rw s (rw f.holds)
  ]

  -- One round of the loop.
  loop_step :
      (rule : CompiledRule lib) (rest : List (CompiledRule lib)) (acc : List MatchedRule)
      → evaluate_rules_loop lib strict event (rule ∷ rest) acc
        ≡ evaluate_rules_loop lib strict event rest
            (if fires rule then acc ++ matched_rule lib rule ∷ [] else acc)
  unfolding evaluate_rules_loop
  loop_step rule rest acc = ap (evaluate_rules_loop lib strict event rest) (ground arith)

  loop-Selects :
      (rules : List (CompiledRule lib)) (acc : List MatchedRule)
      → (ms : List MatchedRule) × (evaluate_rules_loop lib strict event rules acc ≡ acc ++ ms)
        × Selects rules ms
  loop-Selects [] acc = ([], unfold evaluate_rules_loop in sym (append-nil acc), stop)
  loop-Selects (rule ∷ rest) acc = elim (Bool-cases (fires rule)) [
    | inl y ↦
        (let (ms, e, sel) = loop-Selects rest (acc ++ matched_rule lib rule ∷ []) in
          (
            matched_rule lib rule ∷ ms,
            loop_step rule rest acc ∙ rw y (e ∙ append_assoc acc (matched_rule lib rule ∷ []) ms),
            take (fires-Fires rule y) sel,
          ))
    | inr n ↦
        (let (ms, e, sel) = loop-Selects rest acc in
          (
            ms,
            loop_step rule rest acc ∙ rw n e,
            skip (λ f. false≢true (sym n ∙ Fires-fires rule f)) sel,
          ))
  ]

  Selects-all :
      (rules : List (CompiledRule lib))
      → Selects rules (evaluate_rules_loop lib strict event rules [])
  Selects-all rules = let (ms, e, sel) = loop-Selects rules [] in subst (Selects rules) (sym e) sel

some_rules :
    (lib : Libraries) (event : Event) (strict : Bool) (rules : List (CompiledRule lib))
    → Selects lib strict event rules
        (evaluate_rules_active lib event (some (record { rules = rules; strict = strict })))
unfolding evaluate_rules_active
some_rules lib event strict [] = stop
some_rules lib event strict (rule ∷ rules) = Selects-all lib strict event (rule ∷ rules)

-- What an evaluation returns where rules are active for the tenant, and where none are.
abbrev pub Evaluates : (lib : Libraries) → Event → Option (RuleSet lib) → List MatchedRule → Type 0
Evaluates lib event none matches = matches ≡ []
Evaluates lib event (some set) matches = Selects lib set.strict event set.rules matches

-- An evaluation returns exactly the active rules that fire, in their order and once each: a rule
-- fires if its expression is true at its parameters and, in strict mode, all its variables are
-- found in the event. With no active rules for the tenant it returns nothing.
pub evaluate_rules-Evaluates :
    (lib : Libraries) (r : RuleEngine lib) (event : Event) (tenant_id : Text)
    → Evaluates lib event
        (active_rules lib r tenant_id)
        (evaluate_rules_for_tenant lib r event tenant_id)
unfolding evaluate_rules_for_tenant
evaluate_rules-Evaluates lib r event tenant_id = go (active_rules lib r tenant_id)
  where
    go : (o : Option (RuleSet lib)) → Evaluates lib event o (evaluate_rules_active lib event o)
    go none = refl
    go (some set) = some_rules lib event set.strict set.rules
