-- ===== src/Webhook/RuleStore/Complete.antt =====
-- loadRulesForTenant of pkg/webhook/rules_store.go: the rules it returns.
use relaymesh.Prelude.{
  ◌≡◌, refl, sym, false, ◌||◌, Option, none, some, List, [], ◌∷◌, is_empty, if◌then◌else◌, arith,
  All, Bool-cases, inl, inr,
}
use relaymesh.Prelude.Text.{Text, same, trim_space, is_blank, trim_space_idem}
use relaymesh.Prelude.Outcome.{Outcome, ok, fail}
use relaymesh.Core.EmitList.{IsClean}
use relaymesh.Core.Rules.{Rule}
use relaymesh.Storage.Records.{RuleRecord, DriverRecord}
use relaymesh.Storage.Tenant.{Context}
use relaymesh.Webhook.RuleStore.{
  ListRules, GetDriverById, named_driver, driver_name_for_id, name_of_driver, load_rule, add_rule,
  load_rules, load_rules_for_tenant, look_up, loaded, loaded_option, load_listed,
}

-- A rule with an expression and topics, and with a driver's id and name, trimmed and not empty.
pub record IsComplete (rule : Rule) : Type 0 where
  pub when_expr : is_blank rule.when_expr ≡ false
  pub emit : is_empty rule.emit ≡ false
  pub driver_id : IsClean rule.driver_id
  pub driver_name : IsClean rule.driver_name

named_driver-IsClean :
    (driver_id name : Text) (found : Outcome (Option DriverRecord))
    → named_driver driver_id found ≡ ok name
    → IsClean name
unfolding named_driver
named_driver-IsClean driver_id name (fail e) h = absurd (cc h)
named_driver-IsClean driver_id name (ok none) h = absurd (cc h)
named_driver-IsClean driver_id name (ok (some driver)) h =
    elim (Bool-cases (same (trim_space driver.name) [])) [
      | inl y ↦ absurd (cc (rw y at h))
      | inr n ↦
          let found : ok (trim_space driver.name) ≡ ok name = rw n at h in
          let eq : trim_space driver.name ≡ name = cc in
          rw (sym eq) (trim_space_idem driver.name, n)
    ]

module _ (W : Type 0) (drivers : Option (GetDriverById W)) (ctx : Context) where
  look_up-IsClean :
      (o : Option (GetDriverById W)) (driver_id name : Text) (w : W)
      → (look_up W drivers ctx o driver_id w).0 ≡ ok name
      → IsClean name
  unfolding look_up
  look_up-IsClean none driver_id name w h = absurd (cc h)
  look_up-IsClean (some get) driver_id name w h = named_driver-IsClean driver_id name _ h

  name_of_driver-IsClean :
      (r : RuleRecord) (w : W) (name : Text)
      → (name_of_driver W drivers ctx r w).0 ≡ ok name
      → IsClean name
  unfolding name_of_driver driver_name_for_id
  name_of_driver-IsClean r w name h = ground (
    arith,
    trim_space_idem r.driver_name,
    look_up-IsClean drivers (trim_space r.driver_id) name w,
  )

  abbrev Fine : Option Rule → Type 0
  Fine none = Unit
  Fine (some rule) = IsComplete rule

  load_rule-Fine : (r : RuleRecord) (w : W) → Fine (load_rule W drivers ctx r w).0
  unfolding load_rule loaded_option loaded
  load_rule-Fine r w = go (name_of_driver W drivers ctx r w).0 (name_of_driver-IsClean r w)
    where
      go :
          (o : Outcome Text)
          → ((name : Text) → o ≡ ok name → IsClean name)
          → Fine
              (if◌then◌else◌ {A = Option Rule × W}
                (is_blank r.when_expr || (is_empty r.emit || is_blank r.driver_id))
                (none, w)
                (loaded_option W drivers ctx r o, (name_of_driver W drivers ctx r w).1)).0
      go (fail e) clean_name = ground arith
      go (ok name) clean_name = ground (arith, clean_name name refl, trim_space_idem r.driver_id)

  load_rules-All : (rs : List RuleRecord) (w : W) → All IsComplete (load_rules W drivers ctx rs w).0
  unfolding load_rules add_rule
  load_rules-All [] w = tt
  load_rules-All (r ∷ rs) w =
      go (load_rule W drivers ctx r w).0 _ (load_rule-Fine r w) (load_rules-All rs _)
    where
      go :
          (o : Option Rule) (rules : List Rule)
          → Fine o
          → All IsComplete rules
          → All IsComplete (add_rule W drivers ctx o rules)
      go none rules f h = h
      go (some rule) rules f h = (f, h)

-- loadRulesForTenant drops what is incomplete: each rule that it returns has an expression that is
-- not blank, a topic at least, and the id and the name of its driver, trimmed and not empty.
pub load_rules_for_tenant-All :
    (W : Type 0) (drivers : Option (GetDriverById W)) (ctx : Context) (list : Option (ListRules W))
    (w : W) (rules : List Rule)
    → (load_rules_for_tenant W drivers ctx list w).0 ≡ ok rules
    → All IsComplete rules
unfolding load_rules_for_tenant load_listed
load_rules_for_tenant-All W drivers ctx none w rules h = let eq : [] ≡ rules = cc in rw (sym eq) tt
load_rules_for_tenant-All W drivers ctx (some list) w rules h = go (list ctx w) h
  where
    go :
        (listed : Outcome (List RuleRecord) × W)
        → (load_listed W drivers ctx listed).0 ≡ ok rules
        → All IsComplete rules
    go (fail e, v) g = absurd (cc g)
    go (ok records, v) g =
        let eq : (load_rules W drivers ctx records v).0 ≡ rules = cc in
        rw (sym eq) (load_rules-All W drivers ctx records v)
