-- ===== src/Core/Rules/Topics.antt =====
-- The topics of the matches of pkg/core/rules.go.
use relaymesh.Prelude.{
  ◌≡◌, refl, sym, ◌∙◌, subst, Bool, true, false, not, ◌&&◌, Option, none, some, List, [], ◌∷◌, ◌++◌,
  map, arith, if◌then◌else◌, Bool-cases, inl, inr, is_empty, All, All-append,
}
use relaymesh.Prelude.Text.{Text, same, trim_space}
use relaymesh.Prelude.Outcome.{Outcome, ok, fail, ◌>>=◌, >>=-eq-ok}
use relaymesh.Core.Event.{Event}
use relaymesh.Core.EmitList.{clean, IsClean, clean-IsClean}
use relaymesh.Core.Libraries.{Libraries}
use relaymesh.Core.Value.{Value}
use relaymesh.Core.Resolve.{resolve_rule_params}
use relaymesh.Core.Rules.{
  Rule, RulesConfig, RuleMatch, CompiledRule, RuleSet, RuleEngine, compile_rule, compile_rules,
  finish_update, store_rules, update, finish_new, new_rule_engine, active_rules, as_bool,
  topic_match, evaluate_loop, evaluate_active, evaluate_for_tenant,
}
use relaymesh.Core.Rules.Tenants.{stored, active_rules-store_rules}

abbrev TidyMatch : RuleMatch → Type 0
TidyMatch m = IsClean m.topic

module _ (lib : Libraries) where
  -- An engine that NewRuleEngine made, and Update changed any number of times.
  pub data Built : RuleEngine lib → Type 0 where
    created : {r : RuleEngine lib} → (cfg : RulesConfig) → new_rule_engine lib cfg ≡ ok r → Built r
    updated :
        {r r' : RuleEngine lib}
        → Built r
        → (cfg : RulesConfig) → (update lib cfg r).1 ≡ r'
        → Built r'

  abbrev TidyRule : CompiledRule lib → Type 0
  TidyRule c = All IsClean c.emit

  abbrev IsTidy : RuleEngine lib → Type 0
  IsTidy r =
      (t : Text) (set : RuleSet lib) → active_rules lib r t ≡ some set → All TidyRule set.rules

  compile_rule-TidyRule :
      (rule : Rule) (c : CompiledRule lib) → compile_rule lib rule ≡ ok c → TidyRule c
  unfolding compile_rule
  compile_rule-TidyRule rule c e =
      let emitted : c.emit ≡ clean rule.emit = ground arith in
      subst (All IsClean) (sym emitted) (clean-IsClean rule.emit)

  compile_rules-TidyRule :
      (rules : List Rule) (cs : List (CompiledRule lib))
      → compile_rules lib rules ≡ ok cs
      → All TidyRule cs
  unfolding compile_rules
  compile_rules-TidyRule [] cs e = let none_left : [] ≡ cs = cc in subst (All TidyRule) none_left tt
  compile_rules-TidyRule (rule ∷ rest) cs e =
      let (c, first, later) =
        >>=-eq-ok (compile_rule lib rule) (λ c. compile_rules lib rest >>= λ ds. ok (c ∷ ds)) e in
      let (ds, others, last) = >>=-eq-ok (compile_rules lib rest) (λ ds. ok (c ∷ ds)) later in
      let whole : c ∷ ds ≡ cs = cc in
      subst (All TidyRule) whole
        (compile_rule-TidyRule rule c first, compile_rules-TidyRule rest ds others)

  store_rules-IsTidy :
      (cfg : RulesConfig) (cs : List (CompiledRule lib)) (r : RuleEngine lib)
      → All TidyRule cs
      → IsTidy r
      → IsTidy (store_rules lib cfg cs r)
  store_rules-IsTidy cfg cs r h tidy t set e =
      elim (Bool-cases (same (trim_space cfg.tenant_id) (trim_space t))) [
        | inl y ↦ from_stored (sym (active_rules-store_rules lib cfg cs r t ∙ rw y) ∙ e)
        | inr n ↦ tidy t set (sym (active_rules-store_rules lib cfg cs r t ∙ rw n) ∙ e)
      ]
    where
      from_stored : stored lib cfg cs ≡ some set → All TidyRule set.rules
      from_stored f =
          let same_rules : cs ≡ set.rules = ground arith in subst (All TidyRule) same_rules h

  empty-IsTidy : (strict : Bool) → IsTidy (record { rules = []; strict = strict; tenants = none })
  unfolding active_rules
  empty-IsTidy strict t set e =
      let none_left : [] ≡ set.rules = ground arith in subst (All TidyRule) none_left tt

  update-IsTidy : (cfg : RulesConfig) (r : RuleEngine lib) → IsTidy r → IsTidy (update lib cfg r).1
  unfolding update
  update-IsTidy cfg r tidy = go (compile_rules lib cfg.rules) refl
    where
      go :
          (o : Outcome (List (CompiledRule lib)))
          → compile_rules lib cfg.rules ≡ o
          → IsTidy (finish_update lib cfg r o).1
      go (fail e) f = tidy
      go (ok cs) f = store_rules-IsTidy cfg cs r (compile_rules-TidyRule cfg.rules cs f) tidy

  finish_new_state :
      (u : Outcome (Unit {0}) × RuleEngine lib) {r : RuleEngine lib}
      → finish_new lib u ≡ ok r
      → u.1 ≡ r
  finish_new_state (ok _, s) e = cc
  finish_new_state (fail x, s) e = absurd (cc e)

  Built-IsTidy : {r : RuleEngine lib} → Built r → IsTidy r
  unfolding new_rule_engine
  Built-IsTidy {r} (created cfg e) =
      subst IsTidy (finish_new_state (update lib cfg _) e)
        (update-IsTidy cfg _ (empty-IsTidy cfg.strict))
  Built-IsTidy (updated b cfg e) = subst IsTidy e (update-IsTidy cfg _ (Built-IsTidy b))

  topic_match-TidyMatch :
      (rule : CompiledRule lib) (topics : List Text)
      → All IsClean topics
      → All TidyMatch (map (topic_match lib rule) topics)
  unfolding topic_match
  topic_match-TidyMatch rule [] h = tt
  topic_match-TidyMatch rule (t ∷ ts) h = (h.0, topic_match-TidyMatch rule ts h.1)

  -- Each branch of a round leaves the old matches, or the old ones and those of the rule.
  one_of :
      (b : Bool) (o : Outcome Value) (acc hit : List RuleMatch)
      → All TidyMatch acc
      → All TidyMatch hit
      → All TidyMatch (
          if b
          then acc
          else elim o [ fail e ↦ acc | ok result ↦ if as_bool lib result then hit else acc ])
  one_of true o acc hit h k = h
  one_of false (fail e) acc hit h k = h
  one_of false (ok v) acc hit h k = elim (Bool-cases (as_bool lib v)) [
    | inl y ↦ rw y k
    | inr n ↦ rw n h
  ]

  module _ (strict : Bool) (event : Event) where
    loop-TidyMatch :
        (rules : List (CompiledRule lib)) (acc : List RuleMatch)
        → All TidyRule rules
        → All TidyMatch acc
        → All TidyMatch (evaluate_loop lib strict event rules acc)
    unfolding evaluate_loop
    loop-TidyMatch [] acc h k = k
    loop-TidyMatch (rule ∷ rest) acc h k =
        let resolved = resolve_rule_params lib event rule.variables rule.var_map in
        let strict_miss = strict && not (is_empty resolved.1) in
        let hit : All TidyMatch (acc ++ map (topic_match lib rule) rule.emit) =
          All-append TidyMatch acc _ k (topic_match-TidyMatch rule rule.emit h.0) in
        loop-TidyMatch rest _ h.1
          (one_of strict_miss (lib.evaluate rule.expr resolved.0) acc _ k hit)

-- Whatever rules an engine was made with and updated to, each match of an evaluation has a topic
-- that is trimmed and not empty.
pub evaluate-TidyMatch :
    (lib : Libraries) (r : RuleEngine lib) (event : Event) (tenant_id : Text)
    → Built lib r
    → All (λ m. IsClean m.topic) (evaluate_for_tenant lib r event tenant_id)
unfolding evaluate_for_tenant evaluate_active
evaluate-TidyMatch lib r event tenant_id b = go (active_rules lib r tenant_id) refl
  where
    go :
        (o : Option (RuleSet lib))
        → active_rules lib r tenant_id ≡ o
        → All TidyMatch (evaluate_active lib event o)
    go none e = tt
    go (some set) e = elim (Bool-cases (is_empty set.rules)) [
      | inl y ↦ rw y tt
      | inr n ↦
          rw n (
            loop-TidyMatch lib set.strict event set.rules [] (Built-IsTidy lib b tenant_id set e)
              tt)
    ]
