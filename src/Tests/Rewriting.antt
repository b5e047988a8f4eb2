-- ===== src/Tests/Rewriting.antt =====
-- Runs of the rewriting of expressions.
use relaymesh.Prelude.{◌≡◌, refl, inr, [], ◌∷◌, ◌++◌, some}
use relaymesh.Prelude.Text.{text, same}
use relaymesh.Core.Rewrite.{
  Output, rewrite_expression, safe_var_name, is_keyword, is_function_name, is_ident_start,
  is_ident_byte, is_terminator,
}
use relaymesh.Core.Rewrite.Total.{rewrite_expression_total}
use relaymesh.Core.Rewrite.Names.{safe_var_name_collision}
use relaymesh.Core.Rewrite.Field.{IsField, root_path, rewrite_expression_field}

rewrite_expression_total_example : (o : Output) × (rewrite_expression (text "a == 1") ≡ some o)
rewrite_expression_total_example = rewrite_expression_total (text "a == 1")

action_IsField : IsField (text "action")
unfolding is_keyword is_function_name is_ident_start is_ident_byte same
action_IsField = record {
  first = 97;
  others = text "ction";
  name = refl;
  starts = refl;
  goes_on = (refl, (refl, (refl, (refl, (refl, tt)))));
  no_keyword = refl;
  no_function = refl;
}

rewrite_expression_field_example :
    rewrite_expression (text "!(" ++ (text "action" ++ text " == 'opened')"))
    ≡ some (record {
      out = (text "!(" ++ safe_var_name (root_path (text "action"))) ++ text " == 'opened')";
      var_map = (safe_var_name (root_path (text "action")), root_path (text "action")) ∷ [];
    })
unfolding is_terminator is_ident_start
rewrite_expression_field_example =
    rewrite_expression_field (text "!(") (text "action") (text "== 'opened')") 32 refl
      action_IsField refl refl

safe_var_name_collision_example :
    safe_var_name (text "$.a" ++ text ".b") ≡ safe_var_name (text "$.a" ++ text "_b")
unfolding is_ident_byte
safe_var_name_collision_example =
    safe_var_name_collision (text "$.a") (text "b") 46 95 refl (inr refl)
