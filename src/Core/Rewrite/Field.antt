-- ===== src/Core/Rewrite/Field.antt =====
-- Bare field names in rewriteExpression, pkg/core/rules_rewrite.go.
use relaymesh.Prelude.{
  ℕ, ◌≡◌, sym, ap, ◌∙◌, true, false, ◌||◌, none, some, [], ◌∷◌, ◌++◌, append-nil, arith, ◌==◌, All,
  length-append,
}
use relaymesh.Prelude.Text.{Text, text}
use relaymesh.Prelude.Table.{insert}
use relaymesh.Core.Rewrite.{
  code, Output, start, write, is_terminator, is_ident_start, is_ident_byte, is_keyword,
  is_function_name, parse_identifier, scan_byte, scan, parse_json_path_token, safe_var_name,
  token_path, token_round, code_round, round, rewrite_loop, rewrite_expression,
}
use relaymesh.Core.Rewrite.Verbatim.{
  rewrite_from, rewrite_from_step, run_verbatim, is_verbatim, nothing,
}

-- A bare name that is neither a keyword nor the name of a function.
pub record IsField (field : Text) : Type 0 where
  pub first : ℕ
  pub others : Text
  pub name : field ≡ first ∷ others
  pub starts : is_ident_start first ≡ true
  pub goes_on : All (λ ch. is_ident_byte ch ≡ true) others
  pub no_keyword : is_keyword field ≡ false
  pub no_function : is_function_name field ≡ false

scan_byte_ident : (ch : ℕ) → is_ident_byte ch ≡ true → scan_byte start ch ≡ some start
unfolding scan_byte is_ident_byte
scan_byte_ident ch h = ground arith

scan_byte_end : (ch : ℕ) → is_terminator ch ≡ true → scan_byte start ch ≡ none
unfolding scan_byte is_terminator
scan_byte_end ch h = ground arith

not_ident : (ch : ℕ) → is_terminator ch ≡ true → is_ident_byte ch ≡ false
unfolding is_terminator is_ident_byte
not_ident ch h = ground arith

module _ (stop : ℕ) (r : Text) (ends : is_terminator stop ≡ true) where
  scan_name :
      (t : Text)
      → All (λ ch. is_ident_byte ch ≡ true) t
      → scan start (t ++ stop ∷ r) ≡ (t, stop ∷ r)
  unfolding scan
  scan_name [] h = rw (scan_byte_end stop ends, scan)
  scan_name (ch ∷ t) h = rw (scan_byte_ident ch h.0, scan) (rw (scan_name t h.1))

  identifier_name :
      (t : Text)
      → All (λ ch. is_ident_byte ch ≡ true) t
      → parse_identifier (t ++ stop ∷ r) ≡ (t, stop ∷ r)
  unfolding parse_identifier
  identifier_name [] h = rw (not_ident stop ends)
  identifier_name (ch ∷ t) h = rw (h.0, identifier_name t h.1)

first_not_quote : (ch : ℕ) → is_ident_start ch ≡ true → (ch == b'"' || ch == b'\'') ≡ false
unfolding is_ident_start
first_not_quote ch h = ground arith

first_not_dollar : (ch : ℕ) → is_ident_start ch ≡ true → (ch == b'$') ≡ false
unfolding is_ident_start
first_not_dollar ch h = ground arith

start_is_byte : (ch : ℕ) → is_ident_start ch ≡ true → is_ident_byte ch ≡ true
unfolding is_ident_byte
start_is_byte ch h = ground arith

-- The path of a field from the root, and the output behind its variable.
abbrev pub root_path : Text → Text
root_path field = text "$." ++ field

abbrev bind : Text → Output → Output
bind field o = record {
  out = o.out ++ safe_var_name (root_path field);
  var_map = insert (safe_var_name (root_path field)) (root_path field) o.var_map;
}

module _ (first : ℕ) (others r : Text) (stop : ℕ) (o : Output) where
  abbrev whole : Text
  whole = first ∷ others

  round_field :
      is_ident_start first ≡ true
      → All (λ ch. is_ident_byte ch ≡ true) others
      → is_keyword (first ∷ others) ≡ false
      → is_function_name (first ∷ others) ≡ false
      → is_terminator stop ≡ true
      → round code first (others ++ stop ∷ r) o
        ≡ some (record { mode = code; rest = stop ∷ r; output = bind (first ∷ others) o })
  unfolding round code_round parse_json_path_token
  round_field starts goes_on no_keyword no_function ends =
      let bytes : All (λ ch. is_ident_byte ch ≡ true) whole =
        (start_is_byte first starts, goes_on) in
      rw (first_not_quote first starts, starts, first_not_dollar first starts)
        (rw (identifier_name stop r ends (first ∷ others) bytes) (
          rw no_function (
            rw (scan_name stop r ends (first ∷ others) bytes)
              (unfold token_round token_path in rw (no_keyword, first_not_dollar first starts)))))

-- A field name, with operators, numbers, spaces and closed string literals on both sides and a
-- terminator right behind it, becomes the variable of its path from the root; the rest comes back
-- as it is, and the map has that variable alone.
pub rewrite_expression_field :
    (pre field post : Text) (stop : ℕ)
    → is_verbatim code pre ≡ true
    → IsField field
    → is_terminator stop ≡ true
    → is_verbatim code (stop ∷ post) ≡ true
    → rewrite_expression (pre ++ (field ++ stop ∷ post))
      ≡ some (record {
        out = (pre ++ safe_var_name (root_path field)) ++ stop ∷ post;
        var_map = (safe_var_name (root_path field), root_path field) ∷ [];
      })
unfolding rewrite_expression insert rewrite_loop
rewrite_expression_field pre field post stop before f ends after =
    run_verbatim code pre (field ++ stop ∷ post) nothing before
    ∙ rw f.name (
        rewrite_from_step code f.first (f.others ++ stop ∷ post) (write pre nothing) _
          (round_field f.first f.others post stop (write pre nothing) f.starts f.goes_on
            (rw f.name at f.no_keyword) (rw f.name at f.no_function) ends)
          (omega (arith, length-append {0} f.others (stop ∷ post)))
        ∙ last)
  where
    last :
        rewrite_from code (stop ∷ post) (bind (f.first ∷ f.others) (write pre nothing))
        ≡ some (record {
          out = (pre ++ safe_var_name (root_path (f.first ∷ f.others))) ++ stop ∷ post;
          var_map =
              (safe_var_name (root_path (f.first ∷ f.others)), root_path (f.first ∷ f.others)) ∷ [];
        })
    last =
        ap (λ (t : Text). rewrite_from code t (bind (f.first ∷ f.others) (write pre nothing)))
          (sym (append-nil (stop ∷ post)))
        ∙ run_verbatim code (stop ∷ post) [] (bind (f.first ∷ f.others) (write pre nothing)) after
