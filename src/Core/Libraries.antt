-- ===== src/Core/Libraries.antt =====
-- What the rule engine calls and this repository does not implement: govaluate (compiling,
-- listing variables, evaluating), PaesslerAG/jsonpath, encoding/json, and the hexadecimal SHA-1.
use relaymesh.Prelude.{List, Option}
use relaymesh.Prelude.Text.{Text}
use relaymesh.Prelude.Outcome.{Outcome}
use relaymesh.Core.Value.{Value, Fields}

pub record Libraries : Type 1 where
  -- *govaluate.EvaluableExpression
  pub Expression : Type 0
  -- govaluate.NewEvaluableExpressionWithFunctions
  pub compile : Text → Outcome Expression
  -- expr.Vars()
  pub vars : Expression → List Text
  -- expr.Evaluate(params)
  pub evaluate : Expression → Option Fields → Outcome Value
  -- jsonpath.Get(path, value)
  pub json_path : Text → Value → Outcome Value
  -- json.Unmarshal into an interface{}
  pub unmarshal : Text → Outcome Value
  -- hex.EncodeToString(sha1.Sum(data))
  pub sha1_hex : Text → Text
