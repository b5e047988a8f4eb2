-- ===== src/Core/Rules/Tenants.antt =====
-- Update of pkg/core/rules.go and the tenants of an engine.
use relaymesh.Prelude.{
  ◌≡◌, ◌≢◌, refl, sym, ap, ◌∙◌, not, ◌&&◌, Option, none, some, List, [], arith, if◌then◌else◌,
  is_empty,
}
use relaymesh.Prelude.Text.{Text, same, same_iff, same_ne, same_refl, trim_space}
use relaymesh.Prelude.Table.{Table, lookup, insert, remove, lookup-insert, lookup-remove}
use relaymesh.Prelude.Outcome.{Errors, Outcome, ok, fail}
use relaymesh.Core.Event.{Event}
use relaymesh.Core.Libraries.{Libraries}
use relaymesh.Core.Rules.{
  RulesConfig, CompiledRule, RuleSet, RuleEngine, tenant_table, tenant_set, compile_rules,
  store_rules, update, new_rule_engine, active_rules, evaluate_rules_active,
  evaluate_rules_for_tenant, evaluate_rules, finish_new, finish_update, evaluate_active,
  evaluate_for_tenant,
}

module _ (lib : Libraries) where
  -- A tenant's rules in the table, where the table may not be there yet.
  tenant_set-insert :
      (t k : Text) (set : RuleSet lib) (o : Option (Table (RuleSet lib)))
      → tenant_set lib t (some (insert k set (tenant_table lib o)))
        ≡ (if same k t then some set else tenant_set lib t o)
  unfolding tenant_set tenant_table lookup
  tenant_set-insert t k set none = ground (arith, lookup-insert k t set [])
  tenant_set-insert t k set (some m) = lookup-insert k t set m

  tenant_set-remove :
      (t k : Text) (o : Option (Table (RuleSet lib)))
      → tenant_set lib t (some (remove k (tenant_table lib o)))
        ≡ (if same k t then none else tenant_set lib t o)
  unfolding tenant_set tenant_table lookup
  tenant_set-remove t k none = ground (arith, lookup-remove {V = RuleSet lib} k t [])
  tenant_set-remove t k (some m) = lookup-remove k t m

  -- What an evaluation for tenant `t` runs with after rules were stored for tenant `k`.
  abbrev pub stored : RulesConfig → List (CompiledRule lib) → Option (RuleSet lib)
  stored cfg rules =
      if not (same (trim_space cfg.tenant_id) []) && is_empty rules
      then none
      else some (record { rules = rules; strict = cfg.strict })

  pub active_rules-store_rules :
      (cfg : RulesConfig) (rules : List (CompiledRule lib)) (r : RuleEngine lib) (t : Text)
      → active_rules lib (store_rules lib cfg rules r) t ≡ (
          if same (trim_space cfg.tenant_id) (trim_space t)
          then stored cfg rules
          else active_rules lib r t)
  unfolding active_rules store_rules
  active_rules-store_rules cfg rules r t =
      let k = trim_space cfg.tenant_id in
      let u = trim_space t in
      ground (
        arith,
        tenant_set-insert u k (record { rules = rules; strict = cfg.strict }) r.tenants,
        tenant_set-remove u k r.tenants,
        same_iff k u,
        same_iff k [],
        same_iff u [],
      )

  active_rules-other :
      (cfg : RulesConfig) (r : RuleEngine lib) (t : Text)
      → trim_space cfg.tenant_id ≢ trim_space t
      → (o : Outcome (List (CompiledRule lib)))
      → active_rules lib (finish_update lib cfg r o).1 t ≡ active_rules lib r t
  unfolding finish_update
  active_rules-other cfg r t other (fail e) = refl
  active_rules-other cfg r t other (ok rules) =
      active_rules-store_rules cfg rules r t ∙ rw (same_ne _ _ other)

  -- An update of one tenant changes no evaluation for another; no tenant, the engine's own rules,
  -- is a tenant of its own here. This holds whether the update returns an error or not.
  pub update_other_tenant :
      (cfg : RulesConfig) (r : RuleEngine lib) (event : Event) (t : Text)
      → trim_space cfg.tenant_id ≢ trim_space t
      → (evaluate_rules_for_tenant lib (update lib cfg r).1 event t
          ≡ evaluate_rules_for_tenant lib r event t)
        × (evaluate_for_tenant lib (update lib cfg r).1 event t ≡ evaluate_for_tenant lib r event t)
  unfolding update evaluate_rules_for_tenant evaluate_for_tenant
  update_other_tenant cfg r event t other =
      let e = active_rules-other cfg r t other (compile_rules lib cfg.rules) in
      (ap (evaluate_rules_active lib event) e, ap (evaluate_active lib event) e)

  -- An update that returns an error leaves the engine as it was, and so does every evaluation.
  pub update_error :
      (cfg : RulesConfig) (r : RuleEngine lib) (e : Errors)
      → (update lib cfg r).0 ≡ fail e
      → ((update lib cfg r).1 ≡ r) × (new_rule_engine lib cfg ≡ fail e)
  unfolding update new_rule_engine
  update_error cfg r e h = ground arith

  evaluate-stored :
      (cfg : RulesConfig) (rules : List (CompiledRule lib)) (event : Event)
      → evaluate_rules_active lib event (stored cfg rules)
        ≡ evaluate_rules_active lib event (some (record { rules = rules; strict = cfg.strict }))
  unfolding evaluate_rules_active
  evaluate-stored cfg rules event = ground arith

  evaluate_this :
      (cfg : RulesConfig) (rules : List (CompiledRule lib)) (r : RuleEngine lib) (event : Event)
      → evaluate_rules_for_tenant lib (store_rules lib cfg rules r) event cfg.tenant_id
        ≡ evaluate_rules_active lib event (some (record { rules = rules; strict = cfg.strict }))
  unfolding evaluate_rules_for_tenant
  evaluate_this cfg rules r event =
      ap (evaluate_rules_active lib event) (
        active_rules-store_rules cfg rules r cfg.tenant_id
        ∙ rw (same_refl (trim_space cfg.tenant_id)))
      ∙ evaluate-stored cfg rules event

  -- After an update that returns no error, an evaluation for its tenant finds what a new engine of
  -- the same rules and mode, with no tenant, finds.
  pub update_this_tenant :
      (cfg : RulesConfig) (r : RuleEngine lib) (event : Event)
      → (update lib cfg r).0 ≡ ok tt
      → (fresh : RuleEngine lib) × (new_rule_engine lib (record cfg { tenant_id = [] }) ≡ ok fresh)
        × (evaluate_rules_for_tenant lib (update lib cfg r).1 event cfg.tenant_id
            ≡ evaluate_rules lib fresh event)
  unfolding update finish_update new_rule_engine evaluate_rules
  update_this_tenant cfg r event h = go (compile_rules lib cfg.rules) h
    where
      go :
          (o : Outcome (List (CompiledRule lib)))
          → (finish_update lib cfg r o).0 ≡ ok tt
          → (fresh : RuleEngine lib) × (finish_new lib (
                finish_update lib
                  (record cfg { tenant_id = [] })
                  (record { rules = []; strict = cfg.strict; tenants = none })
                  o)
              ≡ ok fresh)
            × (evaluate_rules_for_tenant lib (finish_update lib cfg r o).1 event cfg.tenant_id
                ≡ evaluate_rules_for_tenant lib fresh event [])
      go (fail e) g = absurd (cc g)
      go (ok rules) g = (
        _,
        refl,
        evaluate_this cfg rules r event
            ∙ sym (
                evaluate_this (record cfg { tenant_id = [] }) rules
                  (record { rules = []; strict = cfg.strict; tenants = none }) event),
      )
