-- ===== src/Core/Config/Normal.antt =====
-- The result of normalizeRules, pkg/core/config.go.
use relaymesh.Prelude.{
  ℕ, zero, suc, ◌≡◌, refl, sym, subst, false, List, [], ◌∷◌, is_empty, arith, All,
}
use relaymesh.Prelude.Text.{Text, same, trim_space, trim_space_idem}
use relaymesh.Prelude.Outcome.{ok, >>=-eq-ok}
use relaymesh.Core.EmitList.{clean, IsClean, clean-IsClean, clean_idem}
use relaymesh.Core.Rules.{Rule}
use relaymesh.Core.Config.{trimmed_rule, normalize_rule, normalize_from, normalize_rules}

-- A rule with an expression, a topic and a driver, none with spaces around it.
pub record IsValidRule (rule : Rule) : Type 0 where
  pub when_expr : IsClean rule.when_expr
  pub driver_id : IsClean rule.driver_id
  pub topics : All IsClean rule.emit
  pub some_topic : is_empty rule.emit ≡ false

module _ (decimal : ℕ → Text) where
  passed :
      (i : ℕ) (rule r : Rule)
      → normalize_rule decimal i rule ≡ ok r
      → (trimmed_rule decimal rule ≡ r)
        × (same (trim_space rule.driver_id) [] ≡ false)
        × (same (trim_space rule.when_expr) [] ≡ false)
        × (is_empty (clean rule.emit) ≡ false)
  unfolding normalize_rule
  passed i rule r h = ground arith

  -- The trimmed rule passes again.
  again :
      (rule : Rule) (j : ℕ)
      → same (trim_space rule.driver_id) [] ≡ false
      → same (trim_space rule.when_expr) [] ≡ false
      → is_empty (clean rule.emit) ≡ false
      → normalize_rule decimal j (trimmed_rule decimal rule) ≡ ok (trimmed_rule decimal rule)
  unfolding normalize_rule trimmed_rule
  again rule j d w e =
      rw (trim_space_idem rule.driver_id, trim_space_idem rule.when_expr, clean_idem rule.emit)
        (rw (d, w, e) refl)

  valid :
      (rule : Rule)
      → same (trim_space rule.driver_id) [] ≡ false
      → same (trim_space rule.when_expr) [] ≡ false
      → is_empty (clean rule.emit) ≡ false
      → IsValidRule (trimmed_rule decimal rule)
  unfolding trimmed_rule
  valid rule d w e = record {
    when_expr = (trim_space_idem rule.when_expr, w);
    driver_id = (trim_space_idem rule.driver_id, d);
    topics = clean-IsClean rule.emit;
    some_topic = e;
  }

  normalize_rule_ok :
      (i : ℕ) (rule r : Rule)
      → normalize_rule decimal i rule ≡ ok r
      → IsValidRule r × ((j : ℕ) → normalize_rule decimal j r ≡ ok r)
  normalize_rule_ok i rule r h =
      let (eq, d, w, e) = passed i rule r h in
      subst (λ (x : Rule). IsValidRule x × ((j : ℕ) → normalize_rule decimal j x ≡ ok x)) eq
        (valid rule d w e, λ j. again rule j d w e)

  normalize_from_ok :
      (i : ℕ) (rules rs : List Rule)
      → normalize_from decimal i rules ≡ ok rs
      → All IsValidRule rs × ((j : ℕ) → normalize_from decimal j rs ≡ ok rs)
  unfolding normalize_from
  normalize_from_ok i [] [] h = (tt, λ j. refl)
  normalize_from_ok i [] (r ∷ rs) h = absurd (cc h)
  normalize_from_ok i (rule ∷ rules) rs h =
      let (r, first, more) = >>=-eq-ok (normalize_rule decimal i rule) _ h in
      let (rest, others, built) = >>=-eq-ok (normalize_from decimal (suc i) rules) _ more in
      let eq : r ∷ rest ≡ rs = cc in
      let (fine, same_rule) = normalize_rule_ok i rule r first in
      let (all_fine, same_rules) = normalize_from_ok (suc i) rules rest others in
      rw (sym eq)
        ((fine, all_fine), λ j. rw (same_rule j, normalize_from) (rw (same_rules (suc j)) refl))

-- Where normalizeRules returns no error, each of its rules has an expression, a driver and a topic
-- at least, trimmed and not empty, and normalizing the result again changes nothing.
pub normalize_rules_idem :
    (decimal : ℕ → Text) (rules rs : List Rule)
    → normalize_rules decimal rules ≡ ok rs
    → All IsValidRule rs × (normalize_rules decimal rs ≡ ok rs)
unfolding normalize_rules
normalize_rules_idem decimal rules rs h =
    let (fine, same_rules) = normalize_from_ok decimal zero rules rs h in (fine, same_rules zero)
