-- ===== src/Core/Config.antt =====
-- normalizeRules of pkg/core/config.go: the rules of a configuration file, trimmed and checked.
pub mod Normal
use relaymesh.Prelude.{
  ℕ, zero, suc, Bool, true, false, ◌||◌, List, [], ◌∷◌, ◌++◌, is_empty, if◌then◌else◌,
}
use relaymesh.Prelude.Text.{Text, text, same, trim_space}
use relaymesh.Prelude.Outcome.{Errors, Outcome, ok, fail, ◌>>=◌}
use relaymesh.Core.EmitList.{clean}
use relaymesh.Core.Rules.{Rule}

-- `decimal` is the verb `%d` of package fmt.
module _ (decimal : ℕ → Text) where
  abbrev rule_error : ℕ → Text → Errors
  rule_error i what = (text "rule " ++ decimal i ++ text " is missing " ++ what) ∷ []

  unfoldable pub trimmed_rule : Rule → Rule
  trimmed_rule rule = record rule {
    when_expr = trim_space rule.when_expr;
    emit = clean rule.emit;
    driver_id = trim_space rule.driver_id;
  }

  -- The body of the loop of normalizeRules.
  unfoldable pub normalize_rule : ℕ → Rule → Outcome Rule
  unfolding trimmed_rule
  normalize_rule i rule =
      let trimmed = trimmed_rule rule in
      if same trimmed.driver_id []
      then fail (rule_error i (text "driver_id"))
      else if same trimmed.when_expr [] || is_empty trimmed.emit
      then fail (rule_error i (text "when or emit"))
      else ok trimmed

  unfoldable pub normalize_from : ℕ → List Rule → Outcome (List Rule)
  normalize_from i [] = ok []
  normalize_from i (rule ∷ rules) = do
    r ← normalize_rule i rule
    rs ← normalize_from (suc i) rules
    ok (r ∷ rs)

  -- normalizeRules and NormalizeRules
  unfoldable pub normalize_rules : List Rule → Outcome (List Rule)
  normalize_rules rules = normalize_from zero rules
