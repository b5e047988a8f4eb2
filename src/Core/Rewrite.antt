-- ===== src/Core/Rewrite.antt =====
-- pkg/core/rules_rewrite.go: the rewriting of a rule's `when` expression, before it is compiled.
--
-- A position in the Go string is the text from there on. `expr[start:i], i` is the pair of the
-- token and the text behind it. `i += 2` at a backslash is a flag that takes the next byte
-- whatever it is.
pub mod Scan
pub mod Total
pub mod Names
pub mod Verbatim
pub mod Field
use relaymesh.Prelude.{
  ℕ, zero, suc, ◌+◌, ◌-◌, Bool, true, false, not, ◌&&◌, ◌||◌, Option, none, some, List, [], ◌∷◌,
  ◌++◌, leb, ltb, ◌==◌, if◌then◌else◌, length,
}
use relaymesh.Prelude.Text.{Text, text, same}
use relaymesh.Prelude.Table.{Table, insert}

-- isIdentStart
unfoldable pub is_ident_start : ℕ → Bool
is_ident_start ch = (leb b'a' ch && leb ch b'z') || (leb b'A' ch && leb ch b'Z') || ch == b'_'

-- `isIdentStart(ch) || (ch >= '0' && ch <= '9')`
unfoldable pub is_ident_byte : ℕ → Bool
unfolding is_ident_start
is_ident_byte ch = is_ident_start ch || (leb b'0' ch && leb ch b'9')

-- isKeyword
unfoldable pub is_keyword : Text → Bool
is_keyword token = same token (text "true") || same token (text "false") || same token (text "null")

-- isFunctionName
unfoldable pub is_function_name : Text → Bool
is_function_name token = same token (text "contains") || same token (text "like")

-- isTerminator
unfoldable pub is_terminator : ℕ → Bool
is_terminator ch =
    (ch == b' ' || ch == 9 || ch == 10 || ch == 13 || ch == b',' || ch == b';')
    || (ch == b'+' || ch == b'-' || ch == b'*' || ch == b'/' || ch == b'%')
    || (ch == b'=' || ch == b'!' || ch == b'<' || ch == b'>' || ch == b'&' || ch == b'|')
    || ch == b')'

-- parseIdentifier
unfoldable pub parse_identifier : Text → Text × Text
unfolding is_ident_byte
parse_identifier [] = ([], [])
parse_identifier (ch ∷ r) =
    let rest = parse_identifier r in
    if is_ident_byte ch then (ch ∷ rest.0, rest.1) else ([], ch ∷ r)

-- nextNonSpaceIs
unfoldable pub next_non_space_is : Text → ℕ → Bool
next_non_space_is [] want = false
next_non_space_is (ch ∷ r) want =
    if ch == b' ' || ch == 9 || ch == 10 || ch == 13 then next_non_space_is r want else ch == want

-- The variables of the loop of parseJSONPathToken; `quote` is 0 outside quotes, and `escaped` is
-- set behind a backslash.
pub record Scanner : Type 0 where
  pub escaped : Bool
  pub quote : ℕ
  pub brackets : ℕ
  pub parens : ℕ

abbrev pub start : Scanner
start = record { escaped = false; quote = 0; brackets = 0; parens = 0 }

-- The switch on a byte outside quotes that is no quote.
switch : Scanner → ℕ → Scanner
switch s ch =
    if ch == b'['
    then record s { brackets = s.brackets + 1 }
    else if ch == b']'
    then (if ltb 0 s.brackets then record s { brackets = s.brackets - 1 } else s)
    else if ch == b'('
    then (if ltb 0 s.brackets then record s { parens = s.parens + 1 } else s)
    else if ch == b')'
    then (if ltb 0 s.parens then record s { parens = s.parens - 1 } else s)
    else s

-- The `break` behind the switch, or the next round.
advance : Scanner → ℕ → Option Scanner
unfolding is_terminator
advance s ch = if s.brackets == 0 && (s.parens == 0 && is_terminator ch) then none else some s

-- One round of the loop on the byte `ch`; `none` is its `break`.
unfoldable pub scan_byte : Scanner → ℕ → Option Scanner
unfolding switch advance
scan_byte s ch =
    if s.escaped
    then some (record s { escaped = false })
    else if not (s.quote == 0)
    then (if ch == b'\\'
        then some (record s { escaped = true })
        else if ch == s.quote
        then some (record s { quote = 0 })
        else some s)
    else if ch == b'\'' || ch == b'"'
    then some (record s { quote = ch })
    else advance (switch s ch) ch

-- parseJSONPathToken
unfoldable pub scan : Scanner → Text → Text × Text
unfolding scan_byte
scan s [] = ([], [])
scan s (ch ∷ r) = elim (scan_byte s ch) [
  | none ↦ ([], ch ∷ r)
  | some s' ↦ let rest = scan s' r in (ch ∷ rest.0, rest.1)
]

unfoldable pub parse_json_path_token : Text → Text × Text
parse_json_path_token expr = scan start expr

safe_bytes : Text → Text
unfolding is_ident_byte
safe_bytes [] = []
safe_bytes (ch ∷ r) = (if is_ident_byte ch then ch else b'_') ∷ safe_bytes r

-- safeVarName
unfoldable pub safe_var_name : Text → Text
unfolding safe_bytes
safe_var_name token = text "v_" ++ safe_bytes token

-- The string builder and the map of rewriteExpression.
pub record Output : Type 0 where
  pub out : Text
  pub var_map : Table Text

abbrev pub write : Text → Output → Output
write bytes o = record o { out = o.out ++ bytes }

-- `inString` with `stringQuote`, and whether the byte before was a backslash in the string.
pub data Mode : Type 0 where
  code : Mode
  in_string : ℕ → Bool → Mode

-- What one round of the loop leaves.
pub record Round : Type 0 where
  pub mode : Mode
  pub rest : Text
  pub output : Output

string_byte : ℕ → Bool → ℕ → Text → Output → Round
string_byte quote true ch r o = record {
  mode = in_string quote false;
  rest = r;
  output = write (ch ∷ []) o;
}
string_byte quote false ch r o = record {
  mode =
      if ch == b'\\'
      then in_string quote true
      else if ch == quote
      then code
      else in_string quote false;
  rest = r;
  output = write (ch ∷ []) o;
}

-- The path that a token stands for; `token[0]` has no value at an empty token.
unfoldable pub token_path : Text → Option Text
token_path [] = none
token_path (ch ∷ r) = some (if ch == b'$' then ch ∷ r else text "$." ++ (ch ∷ r))

-- A token that is no call of a function: a keyword, or a path, which gets a variable.
unfoldable pub token_round : Text × Text → Output → Option Round
token_round t o =
    if is_keyword t.0
    then some (record { mode = code; rest = t.1; output = write t.0 o })
    else elim (token_path t.0) [
      | none ↦ none
      | some path ↦ some (record {
        mode = code;
        rest = t.1;
        output = record {
          out = o.out ++ safe_var_name path;
          var_map = insert (safe_var_name path) path o.var_map;
        };
      })
    ]

-- One round outside strings, at the byte `ch` with `r` behind it.
unfoldable pub code_round : ℕ → Text → Output → Option Round
code_round ch r o =
    let call = parse_identifier (ch ∷ r) in
    if ch == b'"' || ch == b'\''
    then some (record { mode = in_string ch false; rest = r; output = write (ch ∷ []) o })
    else if ch == b'$' || is_ident_start ch
    then (if is_ident_start ch && (is_function_name call.0 && next_non_space_is call.1 b'(')
        then some (record { mode = code; rest = call.1; output = write call.0 o })
        else token_round (parse_json_path_token (ch ∷ r)) o)
    else some (record { mode = code; rest = r; output = write (ch ∷ []) o })

-- One round of the loop; `none` is a panic.
unfoldable pub round : Mode → ℕ → Text → Output → Option Round
unfolding string_byte
round code ch r o = code_round ch r o
round (in_string quote escaped) ch r o = some (string_byte quote escaped ch r o)

-- The loop, on fuel; `none` is a panic, or the end of the fuel.
unfoldable pub rewrite_loop : ℕ → Mode → Text → Output → Option Output
rewrite_loop fuel m [] o = some o
rewrite_loop zero m (ch ∷ r) o = none
rewrite_loop (suc fuel) m (ch ∷ r) o = elim (round m ch r o) [
  | none ↦ none
  | some next ↦ rewrite_loop fuel next.mode next.rest next.output
]

-- rewriteExpression: a round takes a byte at least, so the length is fuel enough.
unfoldable pub rewrite_expression : Text → Option Output
rewrite_expression expr = rewrite_loop (length expr) code expr (record { out = []; var_map = [] })
