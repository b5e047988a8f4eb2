-- ===== src/Core/Resolve.antt =====
-- pkg/core/rules_resolve.go: the parameters of a rule's expression, and the identifier of a rule
-- that has none.
--
-- Warnings to the logger are left out: they change no state and no result.
pub mod Identity
pub mod Params
use relaymesh.Prelude.{
  Bool, true, false, not, ◌&&◌, ◌||◌, Option, none, some, List, [], ◌∷◌, ◌++◌, is_empty,
  if◌then◌else◌, ltb, ◌==◌, leb,
}
use relaymesh.Prelude.Text.{Text, text, same, trim_space, is_blank, join}
use relaymesh.Prelude.Table.{Table, lookup}
use relaymesh.Prelude.Outcome.{Outcome, ok, fail, ◌>>=◌}
use relaymesh.Core.Value.{
  Value, Items, Fields, null, arr, obj, nil, cons, end, get_field, set_field,
}
use relaymesh.Core.Event.{Event}
use relaymesh.Core.EmitList.{clean}
use relaymesh.Core.Libraries.{Libraries}

-- normalizeJSONPathResult
unfoldable pub normalize_json_path_result : Value → Value
normalize_json_path_result (arr nil) = null
normalize_json_path_result (arr (cons item nil)) = item
normalize_json_path_result v = v

-- `value == nil`
unfoldable pub is_nil : Value → Bool
is_nil null = true
is_nil _ = false

-- The order of sort.Strings, byte by byte.
unfoldable pub text_le : Text → Text → Bool
text_le [] t = true
text_le (c ∷ s) [] = false
text_le (c ∷ s) (d ∷ t) = ltb c d || (c == d && text_le s t)

unfoldable pub insert_sorted : Text → List Text → List Text
insert_sorted x [] = x ∷ []
insert_sorted x (y ∷ ys) = if text_le x y then x ∷ y ∷ ys else y ∷ insert_sorted x ys

-- sort.Strings: the sorted list of the same strings, here by insertion.
unfoldable pub sort_strings : List Text → List Text
sort_strings [] = []
sort_strings (x ∷ xs) = insert_sorted x (sort_strings xs)

-- normalizeRuleParts; its loop is the one of EmitList.Values.
unfoldable pub normalize_rule_parts : List Text → List Text
normalize_rule_parts values = sort_strings (clean values)

-- What one round of the loop of resolveRuleParams sets for a variable, and what it reports.
pub record Binding : Type 0 where
  pub value : Value
  pub missing : List Text

bind_path : Text → Outcome Value → Binding
bind_path path (ok value) = record {
  value = value;
  missing = if is_nil value then path ∷ [] else [];
}
bind_path path (fail e) = record { value = null; missing = path ∷ [] }

bind_data : Text → Option Value → Binding
bind_data name (some value) = record { value = value; missing = [] }
bind_data name none = record { value = null; missing = name ∷ [] }

-- Reading the nil map finds nothing.
unfoldable pub data_field : Event → Text → Option Value
data_field event name = elim event.payload_fields [ none ↦ none | some m ↦ get_field name m ]

module _ (lib : Libraries) where
  open lib use {json_path, unmarshal, sha1_hex}

  -- ruleIDFromParts
  unfoldable pub rule_id_from_parts : Text → List Text → Text → Text
  rule_id_from_parts when_expr emit driver_id =
      let driver_key = trim_space driver_id in
      let key =
        trim_space when_expr
        ++ (text "|"
            ++ (join (normalize_rule_parts emit) (text ",") ++ (text "|" ++ driver_key))) in
      text "rule_" ++ sha1_hex key

  -- jsonpath.Get, and normalizeJSONPathResult on what it returns
  unfoldable pub get_normalized : Text → Value → Outcome Value
  get_normalized path root = do value ← json_path path root; ok (normalize_json_path_result value)

  resolve_data : Option Fields → Text → Outcome Value
  resolve_data none path = ok null
  resolve_data (some fields) path = get_normalized path (obj fields)

  -- resolveJSONPath
  unfoldable pub resolve_json_path : Event → Text → Outcome Value
  unfolding resolve_data
  resolve_json_path event path =
      if not (is_nil event.raw_object)
      then get_normalized path event.raw_object
      else if is_empty event.raw_payload
      then resolve_data event.payload_fields path
      else (do raw ← unmarshal event.raw_payload; get_normalized path raw)

  unfoldable pub bind_var : Event → Table Text → Text → Binding
  unfolding bind_path bind_data data_field
  bind_var event var_map name = elim (lookup name var_map) [
    | some path ↦ bind_path path (resolve_json_path event path)
    | none ↦ bind_data name (data_field event name)
  ]

  -- The loop, on the map and the list so far.
  unfoldable pub resolve_vars :
      Event → Table Text → List Text → Fields → List Text → Fields × List Text
  resolve_vars event var_map [] params missing = (params, missing)
  resolve_vars event var_map (name ∷ names) params missing =
      let b = bind_var event var_map name in
      resolve_vars event var_map names (set_field name b.value params) (missing ++ b.missing)

  -- resolveRuleParams
  unfoldable pub resolve_rule_params : Event → List Text → Table Text → Option Fields × List Text
  resolve_rule_params event [] var_map =
      (if is_empty event.raw_payload then event.payload_fields else none, [])
  resolve_rule_params event (name ∷ names) var_map =
      let (params, missing) = resolve_vars event var_map (name ∷ names) end [] in
      (some params, missing)
