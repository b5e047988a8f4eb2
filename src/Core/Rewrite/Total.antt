-- ===== src/Core/Rewrite/Total.antt =====
-- The loop of rewriteExpression, pkg/core/rules_rewrite.go: its end and its indexing of tokens.
use relaymesh.Prelude.{
  ℕ, zero, suc, ◌≤◌, ◌≡◌, refl, ap, Bool, true, false, ◌||◌, ◌&&◌, Option, some, [], ◌∷◌, arith,
  ◌==◌, length, Bool-cases, inl, inr,
}
use relaymesh.Prelude.Text.{Text}
use relaymesh.Core.Rewrite.{
  Mode, code, in_string, Output, Round, is_keyword, is_ident_start, is_function_name,
  next_non_space_is, parse_identifier, parse_json_path_token, token_path, token_round, code_round,
  round, rewrite_loop, rewrite_expression,
}
use relaymesh.Core.Rewrite.Scan.{parse_identifier_start, parse_json_path_token_start}

-- A round that returns, with no more text left than stood behind its first byte.
abbrev pub Ends : Option Round → Text → Type 0
Ends m r = (n : Round) × (m ≡ some n) × (length n.rest ≤ length r)

token_round-Ends :
    (ch : ℕ) (tok left r : Text) (o : Output)
    → length left ≤ length r
    → Ends (token_round (ch ∷ tok, left) o) r
unfolding token_round token_path
token_round-Ends ch tok left r o h = elim (Bool-cases (is_keyword (ch ∷ tok))) [
  | inl y ↦ rw y (_, refl, h)
  | inr n ↦ rw n (_, refl, h)
]

path_round-Ends :
    (ch : ℕ) (r : Text) (o : Output)
    → (ch == b'$' || is_ident_start ch) ≡ true
    → Ends (token_round (parse_json_path_token (ch ∷ r)) o) r
path_round-Ends ch r o h = go (parse_json_path_token (ch ∷ r)) refl
  where
    go : (t : Text × Text) → parse_json_path_token (ch ∷ r) ≡ t → Ends (token_round t o) r
    go ([], left) e = let (tok, first, _) = parse_json_path_token_start ch r h in cc
    go (c ∷ tok, left) e =
        token_round-Ends c tok left r o
          (rw (ap (λ (t : Text × Text). t.1) e) at (parse_json_path_token_start ch r h).2)

abbrev is_call : ℕ → Text → Bool
is_call ch r =
    is_ident_start ch
    && (is_function_name (parse_identifier (ch ∷ r)).0
        && next_non_space_is (parse_identifier (ch ∷ r)).1 b'(')

is_call_start : (ch : ℕ) (r : Text) → is_call ch r ≡ true → is_ident_start ch ≡ true
is_call_start ch r h = ground arith

code_round-Ends : (ch : ℕ) (r : Text) (o : Output) → Ends (code_round ch r o) r
unfolding code_round
code_round-Ends ch r o = elim (Bool-cases (ch == b'"' || ch == b'\'')) [
  | inl quote ↦ rw quote (_, refl, omega arith)
  | inr plain ↦ rw plain (elim (Bool-cases (ch == b'$' || is_ident_start ch)) [
    | inl path ↦ rw path (elim (Bool-cases (is_call ch r)) [
      | inl call ↦ rw call (_, refl, parse_identifier_start ch r (is_call_start ch r call))
      | inr field ↦ rw field (path_round-Ends ch r o path)
    ])
    | inr other ↦ rw other (_, refl, omega arith)
  ])
]

pub round-Ends : (m : Mode) (ch : ℕ) (r : Text) (o : Output) → Ends (round m ch r o) r
unfolding round
round-Ends code ch r o = code_round-Ends ch r o
round-Ends (in_string q true) ch r o = (_, refl, omega arith)
round-Ends (in_string q false) ch r o = (_, refl, omega arith)

pub rewrite_loop_total :
    (fuel : ℕ) (m : Mode) (t : Text) (o : Output)
    → length t ≤ fuel
    → (o' : Output) × (rewrite_loop fuel m t o ≡ some o')
unfolding rewrite_loop
rewrite_loop_total fuel m [] o h = (o, refl)
rewrite_loop_total zero m (ch ∷ r) o h = absurd (omega arith)
rewrite_loop_total (suc fuel) m (ch ∷ r) o h =
    let (n, e, shorter) = round-Ends m ch r o in
    rw (e, rewrite_loop) (rewrite_loop_total fuel n.mode n.rest n.output (omega arith))

-- rewriteExpression returns on every text: its loop ends within as many rounds as the text has
-- bytes, and `token[0]` never meets an empty token.
pub rewrite_expression_total : (expr : Text) → (o : Output) × (rewrite_expression expr ≡ some o)
unfolding rewrite_expression
rewrite_expression_total expr = rewrite_loop_total (length expr) code expr _ (omega arith)
