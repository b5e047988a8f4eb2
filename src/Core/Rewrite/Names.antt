-- ===== src/Core/Rewrite/Names.antt =====
-- The variables that rewriteExpression, pkg/core/rules_rewrite.go, puts in place of paths.
use relaymesh.Prelude.{
  ℕ, zero, suc, ◌≡◌, refl, sym, ap, ◌∙◌, subst, true, false, Option, none, some, [], ◌∷◌, ◌++◌,
  arith, ◌==◌, if◌then◌else◌, Bool-cases, ◌⊎◌, inl, inr, length,
}
use relaymesh.Prelude.Text.{Text, text, same, same_iff}
use relaymesh.Prelude.Table.{Table, lookup, insert, lookup-insert}
use relaymesh.Core.Rewrite.{
  Mode, code, in_string, Output, Round, is_ident_byte, is_keyword, safe_var_name, safe_bytes,
  token_path, token_round, code_round, parse_json_path_token, round, rewrite_loop,
  rewrite_expression,
}

-- A JSONPath that starts at the root.
abbrev pub IsRooted : Text → Type 0
IsRooted path = (tail : Text) × (path ≡ b'$' ∷ tail)

-- Every variable of the map is the one made from its path, and every path starts at the root.
pub record IsNamed (m : Table Text) : Type 0 where
  pub at :
      (name path : Text) → lookup name m ≡ some path → (name ≡ safe_var_name path) × IsRooted path

token_path-IsRooted : (t path : Text) → token_path t ≡ some path → IsRooted path
unfolding token_path
token_path-IsRooted [] path h = cc
token_path-IsRooted (ch ∷ r) path h = elim (Bool-cases (ch == b'$')) [
  | inl y ↦ (r, ground arith)
  | inr n ↦ (b'.' ∷ ch ∷ r, ground arith)
]

insert-IsNamed :
    (path : Text) (m : Table Text)
    → IsRooted path
    → IsNamed m
    → IsNamed (insert (safe_var_name path) path m)
insert-IsNamed path m rooted h = record {
  at = λ name p e. elim (Bool-cases (same (safe_var_name path) name)) [
    | inl y ↦
        (let found : some path ≡ some p =
            sym (lookup-insert (safe_var_name path) name path m ∙ rw y) ∙ e in
          let eq : path ≡ p = cc in
          (
            sym ((same_iff (safe_var_name path) name).0 y) ∙ ap safe_var_name eq,
            subst IsRooted eq rooted,
          ))
    | inr n ↦ h.at name p (sym (lookup-insert (safe_var_name path) name path m ∙ rw n) ∙ e)
  ];
}

abbrev Keeps : Option Round → Type 0
Keeps none = Unit
Keeps (some n) = IsNamed n.output.var_map

token_round-Keeps : (t : Text × Text) (o : Output) → IsNamed o.var_map → Keeps (token_round t o)
unfolding token_round
token_round-Keeps t o h = elim (Bool-cases (is_keyword t.0)) [
  | inl y ↦ rw y h
  | inr k ↦ rw k (go (token_path t.0) refl)
]
  where
    go :
        (m : Option Text)
        → token_path t.0 ≡ m
        → Keeps (elim (token_path t.0) [
          | none ↦ none
          | some path ↦ some (record {
            mode = code;
            rest = t.1;
            output = record {
              out = o.out ++ safe_var_name path;
              var_map = insert (safe_var_name path) path o.var_map;
            };
          })
        ])
    go none e = rw e tt
    go (some path) e = rw e (insert-IsNamed path o.var_map (token_path-IsRooted t.0 path e) h)

code_round-Keeps : (ch : ℕ) (r : Text) (o : Output) → IsNamed o.var_map → Keeps (code_round ch r o)
unfolding code_round
code_round-Keeps ch r o h = ground (arith, token_round-Keeps (parse_json_path_token (ch ∷ r)) o h)

round-Keeps :
    (m : Mode) (ch : ℕ) (r : Text) (o : Output) → IsNamed o.var_map → Keeps (round m ch r o)
unfolding round
round-Keeps code ch r o h = code_round-Keeps ch r o h
round-Keeps (in_string q true) ch r o h = h
round-Keeps (in_string q false) ch r o h = h

loop-IsNamed :
    (fuel : ℕ) (m : Mode) (t : Text) (o o' : Output)
    → IsNamed o.var_map
    → rewrite_loop fuel m t o ≡ some o'
    → IsNamed o'.var_map
unfolding rewrite_loop
loop-IsNamed fuel m [] o o' h e =
    let same_output : o ≡ o' = cc in subst (λ (x : Output). IsNamed x.var_map) same_output h
loop-IsNamed zero m (ch ∷ r) o o' h e = cc
loop-IsNamed (suc fuel) m (ch ∷ r) o o' h e =
    go (round m ch r o) refl (λ n. loop-IsNamed fuel n.mode n.rest n.output o')
  where
    go :
        (x : Option Round)
        → round m ch r o ≡ x
        → ((n : Round)
            → IsNamed n.output.var_map
            → rewrite_loop fuel n.mode n.rest n.output ≡ some o'
            → IsNamed o'.var_map)
        → IsNamed o'.var_map
    go none f rest = absurd (cc (rw (f, rewrite_loop) at e))
    go (some n) f rest = rest n (rw f at (round-Keeps m ch r o h)) (rw (f, rewrite_loop) at e)

nil-IsNamed : IsNamed []
unfolding lookup
nil-IsNamed = record { at = λ name path h. absurd (cc h) }

-- Every variable that rewriteExpression introduces stands for one path: the map sends it to a path
-- from the root `$`, and the variable's name is safeVarName of that path.
pub rewrite_expression-IsNamed :
    (expr : Text) (o : Output) → rewrite_expression expr ≡ some o → IsNamed o.var_map
unfolding rewrite_expression
rewrite_expression-IsNamed expr o e = loop-IsNamed (length expr) code expr _ o nil-IsNamed e

safe_bytes-append : (a b : Text) → safe_bytes (a ++ b) ≡ safe_bytes a ++ safe_bytes b
unfolding safe_bytes
safe_bytes-append [] b = refl
safe_bytes-append (ch ∷ a) b =
    ap (◌∷◌ (if is_ident_byte ch then ch else b'_')) (safe_bytes-append a b)

collide :
    (b : Text) (x y : ℕ)
    → is_ident_byte x ≡ false
    → (is_ident_byte y ≡ false) ⊎ (y ≡ b'_')
    → safe_bytes (x ∷ b) ≡ safe_bytes (y ∷ b)
unfolding safe_bytes
collide b x y hx hy = ground arith

-- safeVarName forgets which byte stood where it writes an underscore: two paths that differ there
-- alone, such as `$.a.b` and `$.a_b`, get one variable.
pub safe_var_name_collision :
    (a b : Text) (x y : ℕ)
    → is_ident_byte x ≡ false
    → (is_ident_byte y ≡ false) ⊎ (y ≡ b'_')
    → safe_var_name (a ++ x ∷ b) ≡ safe_var_name (a ++ y ∷ b)
unfolding safe_var_name
safe_var_name_collision a b x y hx hy =
    ap (λ (s : Text). text "v_" ++ s)
      (safe_bytes-append a (x ∷ b)
        ∙ ap (λ (s : Text). safe_bytes a ++ s) (collide b x y hx hy)
        ∙ sym (safe_bytes-append a (y ∷ b)))
